-- ===== src/Tests/Governance.antt =====
-- governance/check.mjs, the comparisons, at concrete inputs.
use ores_lib_core.Base.{
  ◌≡◌, refl, true, none, some, List, [], ◌∷◌, Text, text, starts_with, list_beq, sort, sort_by,
  text_leb, lookup, includes, distinct, distinct_from,
}
use ores_lib_core.Governance.{
  runtime_drift, dependency_drift, check_targets, runtime_directories, expected_directories,
  Contract, contract_deps, unmatched, compare, check_dependencies,
}
use ores_lib_core.Governance.Laws.{Agrees, check_targets-Agrees}

abbrev languages : List Text
languages = text "go" ∷ text "rust" ∷ []

abbrev targets : List (Text × Text)
targets =
    (text "rust", text "langs/rust")
    ∷ (text "postgres", text "database/postgres")
    ∷ (text "go", text "langs/go")
    ∷ []

check_targets-pass : check_targets languages targets ≡ none
unfolding check_targets text starts_with list_beq sort sort_by lookup includes distinct
    distinct_from runtime_directories expected_directories text_leb
check_targets-pass = refl

check_targets-Agrees_example : Agrees languages targets
check_targets-Agrees_example = check_targets-Agrees languages targets check_targets-pass

check_targets-drift :
    check_targets (text "go" ∷ text "dart" ∷ []) targets
    ≡ some (runtime_drift (text "langs/dart" ∷ []) (text "langs/rust" ∷ []))
unfolding check_targets text starts_with list_beq sort sort_by lookup includes distinct
    distinct_from runtime_directories expected_directories text_leb
check_targets-drift = refl

abbrev contract : Contract
contract = record {
  schema = some (text "ores.lib-core.dependencies/v1");
  dependencies = some ((some (text "a/b"), some (text "^2")) ∷ []);
  no_global_provider = true;
  no_raw_biometrics = true;
}

check_dependencies-drift :
    check_dependencies contract ((text "a/b", text "^1") ∷ [])
    ≡ some (dependency_drift (text "a/b" ∷ []) (text "a/b" ∷ []))
unfolding check_dependencies text list_beq contract_deps unmatched compare lookup includes
check_dependencies-drift = refl

contract_deps-repeat :
    contract_deps [] ((some (text "a"), some (text "1")) ∷ (some (text "a"), some (text "2")) ∷ [])
    ≡ none
unfolding contract_deps text list_beq includes
contract_deps-repeat = refl
