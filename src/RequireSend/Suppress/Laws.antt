-- ===== src/RequireSend/Suppress/Laws.antt =====
-- collectSuppressions and isDisabled: which lines a source suppresses.
use ores_lib_core.Base.{
  ℕ, zero, suc, ◌+◌, ◌≤◌, ◌≡◌, ◌⊎◌, ◌↔◌, refl, inl, inr, Bool, true, Option, none, some, List, [],
  ◌∷◌, Text, In, nat_eq, includes_iff, split, get_elem?, arith, Bool-cases,
}
use ores_lib_core.RequireSend.Suppress.{
  disables_file, disables_line, disables_next_line, lines_where, collect_suppressions, has_before,
  is_disabled,
}

-- The line of that number, counted from 1, passes the test.
abbrev pub Passes : (Text → Bool) → Option Text → Type 0
Passes test none = ⊥
Passes test (some line) = test line ≡ true

abbrev pub LinePasses : (Text → Bool) → ℕ → List Text → Type 0
LinePasses test zero raw = ⊥
LinePasses test (suc n) raw = Passes test (get_elem? raw n)

lines_where_le :
    (test : Text → Bool) (m k : ℕ) (raw : List Text) → In m (lines_where test k raw) → k ≤ m
unfolding lines_where
lines_where_le test m k [] h = absurd h
lines_where_le test m k (line ∷ raw) h = ground (arith, lines_where_le test m (suc k) raw)

In-lines_where :
    (test : Text → Bool) (m k n : ℕ) (raw : List Text)
    → m ≡ k + n
    → In m (lines_where test k raw) ↔ Passes test (get_elem? raw n)
unfolding lines_where
In-lines_where test m k n [] e = (λ h. h, λ h. h)
In-lines_where test m k zero (line ∷ raw) e = elim (Bool-cases (test line)) [
  | inl t ↦ rw t (λ _. refl, λ _. inl (omega arith))
  | inr f ↦
      rw f (λ h. (let l = lines_where_le test m (suc k) raw h in absurd (omega arith)), λ h. cc h)
]
In-lines_where test m k (suc n) (line ∷ raw) e =
    let (to, from) = In-lines_where test m (suc k) n raw (omega arith) in
    elim (Bool-cases (test line)) [
      | inl t ↦
          rw t (λ h. elim h [ inl q ↦ absurd (omega arith) | inr i ↦ to i ], λ h. inr (from h))
      | inr f ↦ rw f (to, from)
    ]

In-source_lines :
    (test : Text → Bool) (n : ℕ) (raw : List Text)
    → In n (lines_where test 1 raw) ↔ LinePasses test n raw
In-source_lines test zero raw =
    (λ h. let l = lines_where_le test 0 1 raw h in absurd (omega arith), λ h. absurd h)
In-source_lines test (suc n) raw = In-lines_where test (suc n) 1 n raw (omega arith)

-- The line above, if there is one.
abbrev pub AbovePasses : (Text → Bool) → ℕ → List Text → Type 0
AbovePasses test zero raw = ⊥
AbovePasses test (suc n) raw = LinePasses test n raw

has_before_iff :
    (test : Text → Bool) (n : ℕ) (raw : List Text)
    → (has_before (lines_where test 1 raw) n ≡ true) ↔ AbovePasses test n raw
has_before_iff test zero raw = (λ h. cc h, λ h. absurd h)
has_before_iff test (suc n) raw =
    let (a, b) = includes_iff (lines_where test 1 raw) n in
    let (c, d) = In-source_lines test n raw in (λ h. c (a h), λ h. b (d h))

-- A line of a source is suppressed exactly if the source has the directive for the file, or the
-- line or the one above has the directive for a line, or the one above has that for the next line.
pub is_disabled_iff :
    (source : Text) (n : ℕ)
    → (is_disabled (collect_suppressions source) n ≡ true) ↔ (
        (disables_file source ≡ true)
        ⊎ (LinePasses disables_line n (split b'\n' source)
            ⊎ (AbovePasses disables_line n (split b'\n' source)
                ⊎ AbovePasses disables_next_line n (split b'\n' source))))
unfolding is_disabled collect_suppressions
is_disabled_iff source n =
    let raw = split b'\n' source in
    ground (
      arith,
      includes_iff (lines_where disables_line 1 raw) n,
      In-source_lines disables_line n raw,
      has_before_iff disables_line n raw,
      has_before_iff disables_next_line n raw,
    )
