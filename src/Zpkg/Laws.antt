-- ===== src/Zpkg/Laws.antt =====
-- governance/check.mjs: the Maps that `parseZpkg` returns.
use mathlib.Core.List.{append_assoc, append-nil}
use ores_lib_core.Base.{
  ◌≡◌, refl, ap, ◌∙◌, sym, subst, ◌⊎◌, inl, inr, Option, none, some, List, [], ◌∷◌, ◌++◌, Text,
  text, In, NoDup, includes, includes_iff, strip, starts_with, nat_eq, list_eq, ◌==◌, ◌||◌, eq_iff,
  arith, Bool-cases, split,
}
use ores_lib_core.Redaction.{is_space}
use ores_lib_core.Zpkg.{
  Manifest, Parsed, parsed, duplicate_target, map_set, keys, add_dependency, add_target,
  add_content, section_line, dependency_line, dir_line, target_of, parse_line, parse_lines,
  parse_zpkg,
}

abbrev IsManifest : Manifest → Type 0
IsManifest m = NoDup (keys m.targets) × NoDup (keys m.dependencies)

abbrev IsParsed : Parsed → Type 0
IsParsed (parsed m) = IsManifest m
IsParsed (duplicate_target t) = Unit

NoDup-add :
    (k v : Text) (ts : List (Text × Text))
    → ¬ In k (keys ts)
    → NoDup (keys ts)
    → NoDup (keys (ts ++ (k, v) ∷ []))
NoDup-add k v [] h n = (λ i. i, tt)
NoDup-add k v ((j, w) ∷ ts) h (m, n) = (
  λ i. elim (In-keys_add k v j ts i) [ inl a ↦ m a | inr e ↦ h (inl (sym e)) ],
  NoDup-add k v ts (λ i. h (inr i)) n,
)
  where
    In-keys_add :
        (k v j : Text) (ts : List (Text × Text))
        → In j (keys (ts ++ (k, v) ∷ []))
        → In j (keys ts) ⊎ (j ≡ k)
    In-keys_add k v j [] (inl e) = inr e
    In-keys_add k v j [] (inr i) = absurd i
    In-keys_add k v j (t ∷ ts) (inl e) = inl (inl e)
    In-keys_add k v j (t ∷ ts) (inr i) = elim (In-keys_add k v j ts i) [
      | inl a ↦ inl (inr a)
      | inr e ↦ inr e
    ]

In-keys-map_set :
    (k v j : Text) (ts : List (Text × Text))
    → In j (keys (map_set k v ts))
    → In j (keys ts) ⊎ (j ≡ k)
unfolding map_set
In-keys-map_set k v j [] (inl e) = inr e
In-keys-map_set k v j [] (inr i) = absurd i
In-keys-map_set k v j ((t, w) ∷ ts) h = ground (arith, In-keys-map_set k v j ts)

NoDup-map_set :
    (k v : Text) (ts : List (Text × Text)) → NoDup (keys ts) → NoDup (keys (map_set k v ts))
unfolding map_set
NoDup-map_set k v [] n = (λ i. i, tt)
NoDup-map_set k v ((t, w) ∷ ts) (m, n) = elim (Bool-cases (t == k)) [
  | inl e ↦ rw e (m, n)
  | inr f ↦ rw f (
    λ i. elim (In-keys-map_set k v t ts i) [ inl a ↦ m a | inr e ↦ ground (arith, eq_iff t k) ],
    NoDup-map_set k v ts n,
  )
]

add_target-IsParsed :
    (target dir : Option Text) (m : Manifest) → IsManifest m → IsParsed (add_target target dir m)
add_target-IsParsed (some target) (some dir) m (a, b) =
    elim (Bool-cases (includes (keys m.targets) target)) [
      | inl t ↦ rw t tt
      | inr f ↦ rw f (
        NoDup-add target dir m.targets (λ i. ground (arith, includes_iff (keys m.targets) target))
            a,
        b,
      )
    ]
add_target-IsParsed (some target) none m h = h
add_target-IsParsed none dir m h = h

add_dependency-IsManifest :
    (d : Option (Text × Text)) (m : Manifest) → IsManifest m → IsManifest (add_dependency d m)
add_dependency-IsManifest none m h = h
add_dependency-IsManifest (some (k, v)) m (a, b) = (a, NoDup-map_set k v m.dependencies b)

add_content-IsParsed :
    (line : Text) (s : Option Text) (m : Manifest) → IsManifest m → IsParsed (add_content line s m)
add_content-IsParsed line (some section) m h = h
add_content-IsParsed line none m h = elim (Bool-cases (m.section == text "dependencies")) [
  | inl t ↦ rw t (add_dependency-IsManifest (dependency_line line) m h)
  | inr f ↦ rw f (add_target-IsParsed (target_of m.section) (dir_line line) m h)
]

parse_line-IsParsed : (line : Text) (m : Manifest) → IsManifest m → IsParsed (parse_line line m)
unfolding parse_line
parse_line-IsParsed line m h = elim (Bool-cases (line == [] || starts_with line (text "#"))) [
  | inl t ↦ rw t h
  | inr f ↦ rw f (add_content-IsParsed line (section_line line) m h)
]

parse_lines-IsParsed :
    (lines : List Text) (p : Parsed) → IsParsed p → IsParsed (parse_lines lines p)
unfolding parse_lines
parse_lines-IsParsed lines (duplicate_target t) h = tt
parse_lines-IsParsed [] (parsed m) h = h
parse_lines-IsParsed (line ∷ lines) (parsed m) h =
    parse_lines-IsParsed lines (parse_line (strip is_space line) m)
      (parse_line-IsParsed (strip is_space line) m h)

-- The targets of a manifest are those of an earlier one, and more behind them.
abbrev pub Extends : Manifest → Manifest → Type 0
Extends m n = (more : List (Text × Text)) × (n.targets ≡ m.targets ++ more)

abbrev IsExtended : Manifest → Parsed → Type 0
IsExtended m (parsed n) = Extends m n
IsExtended m (duplicate_target t) = Unit

same-Extends : (m n : Manifest) → n.targets ≡ m.targets → Extends m n
same-Extends m n e = ([], e ∙ sym (append-nil m.targets))

add_target-IsExtended :
    (target dir : Option Text) (m : Manifest) → IsExtended m (add_target target dir m)
add_target-IsExtended (some target) (some dir) m =
    elim (Bool-cases (includes (keys m.targets) target)) [
      | inl t ↦ rw t tt
      | inr f ↦ rw f ((target, dir) ∷ [], refl)
    ]
add_target-IsExtended (some target) none m = same-Extends m m refl
add_target-IsExtended none dir m = same-Extends m m refl

add_dependency-Extends : (d : Option (Text × Text)) (m : Manifest) → Extends m (add_dependency d m)
add_dependency-Extends none m = same-Extends m m refl
add_dependency-Extends (some (k, v)) m = ([], sym (append-nil m.targets))

add_content-IsExtended :
    (line : Text) (s : Option Text) (m : Manifest) → IsExtended m (add_content line s m)
add_content-IsExtended line (some section) m = ([], sym (append-nil m.targets))
add_content-IsExtended line none m = elim (Bool-cases (m.section == text "dependencies")) [
  | inl t ↦ rw t (add_dependency-Extends (dependency_line line) m)
  | inr f ↦ rw f (add_target-IsExtended (target_of m.section) (dir_line line) m)
]

parse_line-IsExtended : (line : Text) (m : Manifest) → IsExtended m (parse_line line m)
unfolding parse_line
parse_line-IsExtended line m = elim (Bool-cases (line == [] || starts_with line (text "#"))) [
  | inl t ↦ rw t (same-Extends m m refl)
  | inr f ↦ rw f (add_content-IsExtended line (section_line line) m)
]

parse_lines-IsExtended :
    (lines : List Text) (p : Parsed) (m : Manifest)
    → IsExtended m p
    → IsExtended m (parse_lines lines p)
unfolding parse_lines
parse_lines-IsExtended lines (duplicate_target t) m h = tt
parse_lines-IsExtended [] (parsed n) m h = h
parse_lines-IsExtended (line ∷ lines) (parsed n) m h =
    parse_lines-IsExtended lines (parse_line (strip is_space line) n) m
      (further (parse_line (strip is_space line) n) (parse_line-IsExtended (strip is_space line) n))
  where
    further : (p : Parsed) → IsExtended n p → IsExtended m p
    further (duplicate_target t) k = tt
    further (parsed o) (more, e) =
        (h.0 ++ more, e ∙ ap (λ ts. ts ++ more) h.1 ∙ append_assoc m.targets h.0 more)

-- A manifest that is parsed names each target once and each dependency once.
pub parse_zpkg-NoDup :
    (source : Text) (m : Manifest)
    → parse_zpkg source ≡ parsed m
    → NoDup (keys m.targets) × NoDup (keys m.dependencies)
unfolding parse_zpkg
parse_zpkg-NoDup source m h = subst IsParsed h (
    parse_lines-IsParsed (split 10 source)
      (parsed record { section = []; targets = []; dependencies = [] }) (tt, tt))

-- Lines that are parsed on from a manifest add targets behind its own, and neither change nor repeat
-- one: the targets so far stay as they are, and each target and each dependency is named once.
pub parse_lines-Extends :
    (lines : List Text) (m n : Manifest)
    → NoDup (keys m.targets)
    → NoDup (keys m.dependencies)
    → parse_lines lines (parsed m) ≡ parsed n
    → Extends m n × NoDup (keys n.targets) × NoDup (keys n.dependencies)
parse_lines-Extends lines m n targets dependencies h =
    let (a, b) = subst IsParsed h (parse_lines-IsParsed lines (parsed m) (targets, dependencies)) in
    (
      subst (IsExtended m) h (parse_lines-IsExtended lines (parsed m) m (same-Extends m m refl)),
      a,
      b,
    )
