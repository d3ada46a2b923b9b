-- ===== src/Governance/Laws.antt =====
-- governance/check.mjs: what a manifest that is not refused agrees with.
use ores_lib_core.Base.{
  ◌≡◌, refl, ap, not, ◌||◌, ◌↔◌, Bool, true, false, Option, none, some, List, [], ◌∷◌, ◌++◌, map,
  Text, text, includes, includes_iff, In, In-filter, In-map, NoDup, any-eq-false, eq_iff,
  starts_with, lookup, set_size_full, sort, In-sort_by, arith, nat_eq, list_eq,
}
use ores_lib_core.Governance.{
  Refusal, refuse_if, is_filled, is_at, absent, directories, runtime_directories,
  expected_directories, check_targets,
}

pub refuse_if-eq-none :
    (test : Bool) (refusal : Refusal) (rest : Option Refusal)
    → refuse_if test refusal rest ≡ none
    → (test ≡ false) × (rest ≡ none)
refuse_if-eq-none true refusal rest h = absurd (ground arith)
refuse_if-eq-none false refusal rest h = (refl, h)

-- No element is absent.
absent-In : (xs ys : List Text) → is_filled (absent xs ys) ≡ false → (x : Text) → In x xs → In x ys
absent-In xs ys h x i = (includes_iff ys x).0 (empty-filter xs h i)
  where
    empty-filter :
        (zs : List Text) → is_filled (absent zs ys) ≡ false → In x zs → includes ys x ≡ true
    empty-filter [] h i = absurd i
    empty-filter (z ∷ zs) h i = ground (arith, empty-filter zs)

pub is_at-some :
    (found : Option Text) (value : Text) → is_at found value ≡ true → found ≡ some value
is_at-some none value h = absurd (ground arith)
is_at-some (some x) value h = ap some ((eq_iff x value).0 h)

-- The targets below langs/ are the directories of the languages, each of one target; the target
-- postgres has its place, and no target is admin-orm or below languages/.
abbrev pub Agrees : List Text → List (Text × Text) → Type 0
Agrees languages targets =
    ((language : Text)
      → In language languages
      → In (text "langs/" ++ language) (directories targets))
    × ((dir : Text)
        → In dir (directories targets)
        → starts_with dir (text "langs/") ≡ true
        → In dir (map (λ language. text "langs/" ++ language) languages))
    × NoDup (runtime_directories targets)
    × (lookup (text "postgres") targets ≡ some (text "database/postgres"))
    × (includes (directories targets) (text "admin-orm") ≡ false)
    × ((dir : Text) → In dir (directories targets) → starts_with dir (text "languages/") ≡ false)

pub or-eq-false : (a b : Bool) → (a || b) ≡ false → (a ≡ false) × (b ≡ false)
or-eq-false a b h = ground arith

pub not-eq-false : (b : Bool) → not b ≡ false → b ≡ true
not-eq-false b h = ground arith

In-runtime :
    (targets : List (Text × Text)) (dir : Text)
    → In dir (runtime_directories targets)
      ↔ (In dir (directories targets) × (starts_with dir (text "langs/") ≡ true))
unfolding runtime_directories sort
In-runtime targets dir =
    let kept = In-filter (λ dir. starts_with dir (text "langs/")) dir (directories targets) in
    let sorted = In-sort_by (λ x. x) dir _ in (λ i. kept.0 (sorted.0 i), λ h. sorted.1 (kept.1 h))

In-expected :
    (languages : List Text) (dir : Text)
    → In dir (expected_directories languages)
      ↔ In dir (map (λ language. text "langs/" ++ language) languages)
unfolding expected_directories sort
In-expected languages dir = In-sort_by (λ x. x) dir _

-- A manifest whose targets pass the checks agrees with the runtime directories: each directory of a
-- language is the directory of a target, each target below langs/ has the directory of a language,
-- no two of them the same, the target postgres is at database/postgres, and no target is at
-- admin-orm or below languages/.
pub check_targets-Agrees :
    (languages : List Text) (targets : List (Text × Text))
    → check_targets languages targets ≡ none
    → Agrees languages targets
unfolding check_targets
check_targets-Agrees languages targets h =
    let runtime = runtime_directories targets in
    let expected = expected_directories languages in
    let (drift, h1) = refuse_if-eq-none _ _ _ h in
    let (shared, h2) = refuse_if-eq-none _ _ _ h1 in
    let (postgres, h3) = refuse_if-eq-none _ _ _ h2 in
    let (admin, h4) = refuse_if-eq-none _ _ _ h3 in
    let (tooling, _) = refuse_if-eq-none _ _ _ h4 in
    let (missing, stale) = or-eq-false _ _ drift in
    (
      λ language i.
          ((In-runtime targets _).0 (
            absent-In expected runtime missing _ (
              (In-expected languages _).1
                (In-map (λ l. text "langs/" ++ l) language languages i)))).0,
      λ dir i p.
          (In-expected languages dir).0
            (absent-In runtime expected stale dir ((In-runtime targets dir).1 (i, p))),
      set_size_full runtime ((eq_iff _ _).0 (not-eq-false _ shared)),
      is_at-some _ _ (not-eq-false _ postgres),
      admin,
      λ dir i. any-eq-false (λ d. starts_with d (text "languages/")) dir _ tooling i,
    )
