-- ===== src/Schema/Log/Laws.antt =====
-- What the loops and tests of validate.js have found when they leave no diagnostic.
use ores_lib_core.Base.{
  ℕ, suc, ◌≡◌, ◌≢◌, refl, subst, Bool, true, false, ◌⊎◌, inl, inr, List, [], ◌∷◌, Text, length, All,
  ltb, Bool-cases,
}
use ores_lib_core.Schema.Log.{Log, error, error_if, if_passed, each_from, each_with}

pub error_adds : (code path message : Text) (log : Log) → error code path message log ≢ []
unfolding error
error_adds code path message [] h = cc
error_adds code path message (d ∷ ds) h = elim (Bool-cases (ltb (length (d ∷ ds)) 100)) [
  | inl t ↦ cc
  | inr f ↦ cc
]

pub error_if_quiet :
    (b : Bool) (code path message : Text) (log : Log)
    → error_if b code path message log ≡ []
    → (b ≡ false) × (log ≡ [])
error_if_quiet true code path message log h = absurd (error_adds code path message log h)
error_if_quiet false code path message log h = (refl, h)

-- A check that lets the code go on leaves the diagnostics alone and ensures `P`; one that does not
-- has added a diagnostic.
abbrev pub Gates : (Log → Bool × Log) → Type 0 → Type 0
Gates check P =
    (log : Log)
    → ((check log ≡ (true, log)) × P) ⊎ ((log' : Log) × (check log ≡ (false, log')) × (log' ≢ []))

pub if_passed_quiet :
    {P : Type 0} (check : Log → Bool × Log) (rest : Log → Log) (log : Log)
    → Gates check P
    → if_passed (check log) rest ≡ []
    → P × (rest log ≡ [])
if_passed_quiet check rest log gates h = elim (gates log) [
  | inl (e, p) ↦ (p, subst (λ r. if_passed r rest ≡ []) e h)
  | inr (later, e, n) ↦ absurd (n (subst (λ r. if_passed r rest ≡ []) e h))
]

module _ {A : Type 0} (P : A → Type 0) where
  pub each_from_quiet :
      (check : ℕ → A → Log → Log) (i : ℕ) (xs : List A) (log : Log)
      → ((i : ℕ) (x : A) (log : Log) → check i x log ≡ [] → P x × (log ≡ []))
      → each_from i check xs log ≡ []
      → All P xs × (log ≡ [])
  unfolding each_from
  each_from_quiet check i [] log quiet h = (tt, h)
  each_from_quiet check i (x ∷ xs) log quiet h =
      let (ps, k) = each_from_quiet check (suc i) xs (check i x log) quiet h in
      let (p, l) = quiet i x log k in ((p, ps), l)

  pub each_with_quiet :
      {S : Type 0} (check : ℕ → A → S → Log → S × Log) (i : ℕ) (xs : List A) (s : S) (log : Log)
      → ((i : ℕ) (x : A) (s : S) (log : Log) → (check i x s log).1 ≡ [] → P x × (log ≡ []))
      → (each_with i check xs s log).1 ≡ []
      → All P xs × (log ≡ [])
  unfolding each_with
  each_with_quiet check i [] s log quiet h = (tt, h)
  each_with_quiet check i (x ∷ xs) s log quiet h =
      let (ps, k) =
        each_with_quiet check (suc i) xs (check i x s log).0 (check i x s log).1 quiet h in
      let (p, m) = quiet i x s log k in ((p, ps), m)
