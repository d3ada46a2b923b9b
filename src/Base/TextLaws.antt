-- ===== src/Base/TextLaws.antt =====
-- Laws of splitting, joining and stripping.
use Prim.Native.Nat.{ℕ}
use mathlib.Core.List.{List, [], ◌∷◌, ◌++◌, map, reverse, append_assoc, reverse-cons, append-nil}
use mathlib.Core.Path.{◌≡◌, refl, sym, ap, ◌∙◌}
use mathlib.Core.Logic.{◌≢◌, inl, inr}
use mathlib.Core.Bool.{Bool, true, false}
use ores_lib_core.Base.Tests.{◌==◌, nat_eq, Bool-cases, eq_iff}
use ores_lib_core.Base.Texts.{
  Text, split_from, split, join, drop_while, drop_end, keep_unless, strip,
}

split_from-ne-nil : (d : ℕ) (cur s : Text) → split_from d cur s ≢ []
unfolding split_from
split_from-ne-nil d cur [] = λ e. cc
split_from-ne-nil d cur (c ∷ s) = elim (Bool-cases (c == d)) [
  | inl t ↦ rw t (λ e. cc)
  | inr f ↦ rw f (split_from-ne-nil d (c ∷ cur) s)
]

pub join-cons :
    (sep x : Text) (xs : List Text) → xs ≢ [] → join sep (x ∷ xs) ≡ x ++ (sep ++ join sep xs)
unfolding join
join-cons sep x [] h = absurd (h refl)
join-cons sep x (y ∷ ys) h = refl

join-split_from : (d : ℕ) (cur s : Text) → join (d ∷ []) (split_from d cur s) ≡ reverse cur ++ s
unfolding split_from join
join-split_from d cur [] = sym (append-nil (reverse cur))
join-split_from d cur (c ∷ s) = elim (Bool-cases (c == d)) [
  | inl t ↦
      rw (t, join-cons (d ∷ []) (reverse cur) (split_from d [] s) (split_from-ne-nil d [] s))
        (rw (join-split_from d [] s, (eq_iff c d).0 t))
  | inr f ↦ rw (f, join-split_from d (c ∷ cur) s, reverse-cons, append_assoc)
]

-- A string is its parts, joined by the separator.
pub join-split : (d : ℕ) (s : Text) → join (d ∷ []) (split d s) ≡ s
unfolding split
join-split d s = join-split_from d [] s

module _ (p : ℕ → Bool) where
  drop_while_idem : (s : Text) → drop_while p (drop_while p s) ≡ drop_while p s
  unfolding drop_while
  drop_while_idem [] = refl
  drop_while_idem (c ∷ s) = elim (Bool-cases (p c)) [
    | inl t ↦ rw t (drop_while_idem s)
    | inr f ↦ rw (f, drop_while, f)
  ]

  drop_end-drop_while :
      (s : Text) → drop_while p (drop_end p (drop_while p s)) ≡ drop_end p (drop_while p s)
  unfolding drop_while drop_end
  drop_end-drop_while [] = refl
  drop_end-drop_while (c ∷ s) = elim (Bool-cases (p c)) [
    | inl t ↦ rw t (drop_end-drop_while s)
    | inr f ↦ rw (f, drop_end, f, keep_unless, drop_while, f)
  ]

  drop_end-keep_unless :
      (c : ℕ) (s : Text)
      → drop_end p s ≡ s
      → drop_end p (keep_unless (p c) c s) ≡ keep_unless (p c) c s
  unfolding drop_end
  drop_end-keep_unless c [] h = elim (Bool-cases (p c)) [
    | inl t ↦ rw (t, drop_end)
    | inr f ↦ rw (f, drop_end, f)
  ]
  drop_end-keep_unless c (d ∷ s) h = elim (Bool-cases (p c)) [
    | inl t ↦ rw t (ap (keep_unless (p c) c) h ∙ (rw t))
    | inr f ↦ rw f (ap (keep_unless (p c) c) h ∙ (rw f))
  ]

  drop_end_idem : (s : Text) → drop_end p (drop_end p s) ≡ drop_end p s
  unfolding drop_end
  drop_end_idem [] = refl
  drop_end_idem (c ∷ s) = drop_end-keep_unless c (drop_end p s) (drop_end_idem s)

  pub strip_idem : (s : Text) → strip p (strip p s) ≡ strip p s
  unfolding strip
  strip_idem s = ap (drop_end p) (drop_end-drop_while s) ∙ drop_end_idem (drop_while p s)

  -- Stripping goes under a map that keeps what is stripped.
  module _ (f : ℕ → ℕ) (same : (c : ℕ) → p (f c) ≡ p c) where
    drop_while-map : (s : Text) → drop_while p (map f s) ≡ map f (drop_while p s)
    unfolding drop_while
    drop_while-map [] = refl
    drop_while-map (c ∷ s) = elim (Bool-cases (p c)) [
      | inl t ↦ rw (same c, t) (drop_while-map s)
      | inr g ↦ rw (same c, g)
    ]

    keep_unless-map :
        (b : Bool) (c : ℕ) (s : Text) → keep_unless b (f c) (map f s) ≡ map f (keep_unless b c s)
    keep_unless-map true c [] = refl
    keep_unless-map true c (d ∷ s) = refl
    keep_unless-map false c s = refl

    drop_end-map : (s : Text) → drop_end p (map f s) ≡ map f (drop_end p s)
    unfolding drop_end
    drop_end-map [] = refl
    drop_end-map (c ∷ s) = rw (same c, drop_end-map s) (keep_unless-map (p c) c (drop_end p s))

    pub strip-map : (s : Text) → strip p (map f s) ≡ map f (strip p s)
    unfolding strip
    strip-map s = ap (drop_end p) (drop_while-map s) ∙ drop_end-map (drop_while p s)
