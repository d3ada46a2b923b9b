-- ===== src/Governance/Dependencies.antt =====
-- governance/check.mjs: what the dependencies of a manifest that is not refused agree with.
use ores_lib_core.Base.{
  ◌≡◌, refl, not, Bool, true, false, Option, none, some, List, [], ◌∷◌, map, filter, Text, In,
  arith, nat_eq, list_eq, lookup,
}
use ores_lib_core.Governance.{
  is_filled, is_at, Entry, Contract, contract_deps, unmatched, compare, compare_entries,
  check_dependencies,
}
use ores_lib_core.Governance.Laws.{refuse_if-eq-none, is_at-some, or-eq-false, not-eq-false}

-- Each requirement of one is that of the other.
abbrev pub Matches : List (Text × Text) → List (Text × Text) → Type 0
Matches xs ys = (name value : Text) → In (name, value) xs → lookup name ys ≡ some value

none_left :
    (p : Text × Text → Bool) (x : Text × Text) (xs : List (Text × Text))
    → is_filled (map (λ (key, value). key) (filter (λ (key, value). not (p (key, value))) xs))
      ≡ false
    → In x xs
    → p x ≡ true
none_left p x [] h i = absurd i
none_left p x ((key, value) ∷ xs) h i = ground (arith, none_left p x xs)

unmatched-Matches :
    (xs ys : List (Text × Text)) → is_filled (unmatched xs ys) ≡ false → Matches xs ys
unfolding unmatched
unmatched-Matches xs ys h key value i =
    is_at-some (lookup key ys) value
      (none_left (λ (k, v). is_at (lookup k ys) v) (key, value) xs h i)

compare-Matches :
    (declared contract : List (Text × Text))
    → compare declared (some contract) ≡ none
    → Matches declared contract × Matches contract declared
unfolding compare
compare-Matches declared contract h =
    let (drift, _) = refuse_if-eq-none _ _ _ h in
    let (missing, stale) = or-eq-false _ _ drift in
    (unmatched-Matches declared contract missing, unmatched-Matches contract declared stale)

held-Matches :
    (declared : List (Text × Text)) (held : Option (List (Text × Text)))
    → compare declared held ≡ none
    → (deps : List (Text × Text)) × (held ≡ some deps)
      × Matches declared deps
      × Matches deps declared
unfolding compare
held-Matches declared none h = absurd (ground arith)
held-Matches declared (some deps) h =
    let (left, right) = compare-Matches declared deps h in (deps, refl, left, right)

entries-Matches :
    (read : Option (List Entry)) (declared : List (Text × Text))
    → compare_entries declared read ≡ none
    → (entries : List Entry) × (held : List (Text × Text)) × (read ≡ some entries)
      × (contract_deps [] entries ≡ some held)
      × Matches declared held
      × Matches held declared
entries-Matches none declared h = absurd (ground arith)
entries-Matches (some entries) declared h =
    let (held, e, left, right) = held-Matches declared (contract_deps [] entries) h in
    (entries, held, refl, e, left, right)

-- A manifest whose dependencies pass the checks has those of the contract: the contract sets both
-- policies to false, its entries are read, and each requirement that the manifest or the contract
-- has is that of the other.
pub check_dependencies-Matches :
    (contract : Contract) (declared : List (Text × Text))
    → check_dependencies contract declared ≡ none
    → (contract.no_global_provider ≡ true)
      × (contract.no_raw_biometrics ≡ true)
      × ((entries : List Entry) × (held : List (Text × Text)) × (contract.dependencies
            ≡ some entries)
          × (contract_deps [] entries ≡ some held)
          × Matches declared held
          × Matches held declared)
unfolding check_dependencies
check_dependencies-Matches contract declared h =
    let (form, h1) = refuse_if-eq-none _ _ _ h in
    let (policy, h2) = refuse_if-eq-none _ _ _ h1 in
    let (global, raw) = or-eq-false _ _ policy in
    (not-eq-false _ global, not-eq-false _ raw, entries-Matches contract.dependencies declared h2)
