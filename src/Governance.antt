-- ===== src/Governance.antt =====
-- governance/check.mjs: the comparison of the package manifest with the runtime directories and with
-- the dependency contract. What is read from the file system is an argument.
pub mod Dependencies
pub mod Laws
use ores_lib_core.Base.{
  ℕ, not, ◌||◌, Bool, true, false, Option, none, some, List, [], ◌∷◌, ◌++◌, map, Text, text, length,
  any, includes, filter, starts_with, lookup, set_size, sort, nat_eq, list_eq, ◌==◌, if◌then◌else◌,
}

-- The errors thrown, in the order of the code, with the lists that their messages name.
pub data Refusal : Type 0 where
  runtime_drift : List Text → List Text → Refusal
  shared_directory postgres_moved admin_public tooling_public : Refusal
  invalid_contract unsafe_policy invalid_entry : Refusal
  dependency_drift : List Text → List Text → Refusal

-- if (test) throw refusal
abbrev pub refuse_if : Bool → Refusal → Option Refusal → Option Refusal
refuse_if true refusal rest = some refusal
refuse_if false refusal rest = rest

abbrev pub is_filled : List Text → Bool
is_filled [] = false
is_filled (x ∷ xs) = true

abbrev pub is_at : Option Text → Text → Bool
is_at none value = false
is_at (some found) value = found == value

-- xs.filter((dir) => !ys.includes(dir))
abbrev pub absent : List Text → List Text → List Text
absent xs ys = filter (λ x. not (includes ys x)) xs

abbrev pub directories : List (Text × Text) → List Text
directories targets = map (λ (name, dir). dir) targets

-- runtimeTargetDirs
unfoldable pub runtime_directories : List (Text × Text) → List Text
runtime_directories targets =
    sort (filter (λ dir. starts_with dir (text "langs/")) (directories targets))

-- expectedRuntimeDirs
unfoldable pub expected_directories : List Text → List Text
expected_directories languages = sort (map (λ language. text "langs/" ++ language) languages)

-- The checks of the targets of the manifest
unfoldable pub check_targets : List Text → List (Text × Text) → Option Refusal
check_targets languages targets =
    let runtime = runtime_directories targets in
    let expected = expected_directories languages in
    let missing = absent expected runtime in
    let stale = absent runtime expected in
    refuse_if (is_filled missing || is_filled stale) (runtime_drift missing stale) (
      refuse_if (not (set_size runtime == length runtime)) shared_directory (
        refuse_if (not (is_at (lookup (text "postgres") targets) (text "database/postgres")))
          postgres_moved
          (refuse_if (includes (directories targets) (text "admin-orm")) admin_public (
            refuse_if (any (λ dir. starts_with dir (text "languages/")) (directories targets))
              tooling_public none))))

-- A dependency of the contract: its package and its requirement, where they are strings.
abbrev pub Entry : Type 0
Entry = Option Text × Option Text

-- contracts/dependencies.json: the schema if it is a string, the dependencies if they are an array,
-- and whether each policy is present and false.
pub record Contract : Type 0 where
  pub schema : Option Text
  pub dependencies : Option (List Entry)
  pub no_global_provider : Bool
  pub no_raw_biometrics : Bool

-- The loop that fills contractDeps, given what it holds; `none` if it throws.
unfoldable pub contract_deps : List (Text × Text) → List Entry → Option (List (Text × Text))
contract_deps held [] = some held
contract_deps held ((some name, some requirement) ∷ entries) =
    let rest = contract_deps (held ++ (name, requirement) ∷ []) entries in
    if includes (map (λ (key, value). key) held) name then none else rest
contract_deps held ((some name, none) ∷ entries) = none
contract_deps held ((none, requirement) ∷ entries) = none

-- The names of `xs` whose requirement is another one in `ys`
unfoldable pub unmatched : List (Text × Text) → List (Text × Text) → List Text
unmatched xs ys =
    map (λ (name, value). name) (filter (λ (name, value). not (is_at (lookup name ys) value)) xs)

unfoldable pub compare : List (Text × Text) → Option (List (Text × Text)) → Option Refusal
compare declared none = some invalid_entry
compare declared (some contract) =
    let missing = unmatched declared contract in
    let stale = unmatched contract declared in
    refuse_if (is_filled missing || is_filled stale) (dependency_drift missing stale) none

abbrev pub compare_entries : List (Text × Text) → Option (List Entry) → Option Refusal
compare_entries declared none = some invalid_contract
compare_entries declared (some entries) = compare declared (contract_deps [] entries)

abbrev pub is_array : Option (List Entry) → Bool
is_array none = false
is_array (some entries) = true

-- The checks of the dependencies of the manifest
unfoldable pub check_dependencies : Contract → List (Text × Text) → Option Refusal
check_dependencies contract declared =
    refuse_if
      (not (is_at contract.schema (text "ores.lib-core.dependencies/v1"))
        || not (is_array contract.dependencies))
      invalid_contract
      (refuse_if (not contract.no_global_provider || not contract.no_raw_biometrics) unsafe_policy
        (compare_entries declared contract.dependencies))
