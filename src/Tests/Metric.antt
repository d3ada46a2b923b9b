-- ===== src/Tests/Metric.antt =====
-- scripts/admit-rate-limit-metric.mjs at a contract with the v1 vocabularies.
use ores_lib_core.Base.{
  ℕ, suc, if◌then◌else◌, ◌==◌, list_eq, nat_eq, ◌≡◌, refl, true, false, inl, Option, none, some,
  List, [], ◌∷◌, length, get_elem?, decimal, Text, text, In, All, includes, list_beq, starts_with,
  distinct,
}
use ores_lib_core.Js.{
  Heap, Value, undefined, num, int, pos, bool, ref, str, Key, name, Slot, data_slot, Object,
  object_proto, array_proto, plain, array, own_props, has_own, get, same, includes_value,
  values_size, array_items, array_present, present_from, get_own, items_from, entries, entries_of,
}
use ores_lib_core.Retry.{object_has}
use ores_lib_core.Metric.Contract.{
  is_record, canonical, layer, algorithm, outcome, source, principal_kind, failure_mode,
  retry_bucket, enum_key, enum_suffix, expected_values, required_decision, allowed_attribute_names,
  must_forbid, trace_only, checked_metrics, same_texts, metric_checked, trusted_v1_contract,
}
use ores_lib_core.Metric.Labels.{
  admitted, rejected, bad_policy_ids, outside_vocabulary, text_value, policy_ids_ok, label_suffix,
  Ids, Inherited, read_ids, own_enum, enum_of, value_error, label_error, labels_error, admit_labels,
  metric_ok, authority_ok, admit_rate_limit_metric_attributes,
}
use ores_lib_core.Metric.Admission.{IsBounded, admit_rate_limit-IsBounded, admit_rate_limit-names}

abbrev own : Text → Value → Key × Slot
own k v = (name k, data_slot v true)

abbrev object_of : List (Key × Slot) → Object
object_of props = record { class = plain; proto = object_proto; size = 0; props = props }

abbrev indexed : ℕ → List Text → List (Key × Slot)
indexed i [] = []
indexed i (t ∷ ts) = own (decimal i) (str t) ∷ indexed (suc i) ts

abbrev array_of : List Text → Object
array_of ts = record { class = array; proto = array_proto; size = length ts; props = indexed 0 ts }

abbrev contract : Object
contract = object_of (
    own (text "schema") (str (text "ores-otel/rate-limit-telemetry/v1"))
    ∷ own (text "cardinality") (ref 1)
    ∷ own (text "attributes") (ref 2)
    ∷ own (text "enums") (ref 3)
    ∷ own (text "metrics") (ref 4)
    ∷ own (text "forbiddenAttributes") (ref 5)
    ∷ [])

abbrev cardinality : Object
cardinality = object_of (
    own (text "policyIdIsStaticConfiguration") (bool true)
    ∷ own (text "dynamicRouteLabelsAllowed") (bool false)
    ∷ own (text "principalFingerprintAllowedInMetrics") (bool false)
    ∷ own (text "policyIdMaxUtf8Bytes") (num (int (pos 128)))
    ∷ [])

abbrev attribute_lists : Object
attribute_lists =
    object_of (own (text "requiredDecision") (ref 6) ∷ own (text "traceOrLogOnly") (ref 7) ∷ [])

abbrev enums : Object
enums = object_of (
    own (text "layer") (ref 8)
    ∷ own (text "algorithm") (ref 9)
    ∷ own (text "outcome") (ref 10)
    ∷ own (text "source") (ref 11)
    ∷ own (text "principalKind") (ref 12)
    ∷ own (text "failureMode") (ref 13)
    ∷ own (text "retryBucket") (ref 14)
    ∷ [])

abbrev metrics : Object
metrics = object_of (
    own (text "decisions") (ref 15)
    ∷ own (text "backendErrors") (ref 16)
    ∷ own (text "cacheEntries") (ref 16)
    ∷ own (text "retryAfter") (ref 16)
    ∷ own (text "custom") (ref 19)
    ∷ own (text "policies") (ref 24)
    ∷ [])

abbrev labels : List (Key × Slot)
labels =
    own (text "ores.rate_limit.policy_id") (str (text "login"))
    ∷ own (text "ores.rate_limit.layer") (str (text "edge"))
    ∷ own (text "ores.rate_limit.algorithm") (str (text "token_bucket"))
    ∷ own (text "ores.rate_limit.outcome") (str (text "deny"))
    ∷ own (text "ores.rate_limit.source") (str (text "local_memory"))
    ∷ own (text "ores.rate_limit.principal_kind") (str (text "tenant"))
    ∷ own (text "ores.rate_limit.observed_only") (bool true)
    ∷ []

abbrev objects : List Object
objects =
    contract
    ∷ cardinality
    ∷ attribute_lists
    ∷ enums
    ∷ metrics
    ∷ array_of must_forbid
    ∷ array_of required_decision
    ∷ array_of trace_only
    ∷ array_of (expected_values layer)
    ∷ array_of (expected_values algorithm)
    ∷ array_of (expected_values outcome)
    ∷ array_of (expected_values source)
    ∷ array_of (expected_values principal_kind)
    ∷ array_of (expected_values failure_mode)
    ∷ array_of (expected_values retry_bucket)
    ∷ object_of (own (text "allowedAttributes") (ref 17) ∷ [])
    ∷ object_of (own (text "allowedAttributes") (ref 18) ∷ [])
    ∷ array_of allowed_attribute_names
    ∷ array_of (text "ores.rate_limit.layer" ∷ [])
    ∷ object_of (own (text "allowedAttributes") (ref 20) ∷ [])
    ∷ array_of (text "layer" ∷ [])
    ∷ object_of labels
    ∷ object_of (own (text "layer") (str (text "edge")) ∷ [])
    ∷ object_of (own (text "ores.rate_limit.layer") (str (text "moon")) ∷ [])
    ∷ object_of (own (text "allowedAttributes") (ref 25) ∷ [])
    ∷ array_of (text "ores.rate_limit.policy_id" ∷ [])
    ∷ object_of (own (text "ores.rate_limit.policy_id") undefined ∷ [])
    ∷ []

abbrev or_contract : Option Object → Object
or_contract none = contract
or_contract (some o) = o

heap : Heap
heap i = or_contract (get_elem? objects i)

ids : Ids
ids = some (str (text "login")) ∷ some (str (text "search-v2")) ∷ []

-- The text that an engine gives for the function `Object`
inherited : Inherited
inherited suffix =
    if suffix == text "constructor" then some (text "function Object() { [native code] }") else none

expected_labels : List (Text × Value)
expected_labels = entries_of labels

runner : Unit {0}
unfolding heap ids inherited read_ids own_enum expected_labels admit_rate_limit_metric_attributes
    authority_ok trusted_v1_contract policy_ids_ok metric_ok admit_labels labels_error label_error
    value_error label_suffix enum_of text_value is_record canonical enum_key enum_suffix
    expected_values required_decision allowed_attribute_names must_forbid trace_only checked_metrics
    same_texts metric_checked object_has own_props has_own get same includes_value values_size
    array_items array_present present_from get_own items_from entries entries_of decimal starts_with
    distinct includes list_beq text
runner = tt

admits :
    admit_rate_limit_metric_attributes inherited heap (ref 0) (text "decisions") (ref 21) (some ids)
    ≡ admitted expected_labels
unfolding runner
admits = refl

refuses :
    (admit_rate_limit_metric_attributes inherited heap
        (ref 0)
        (text "decisions")
        (ref 23)
        (some ids)
      ≡ rejected outside_vocabulary)
    × (admit_rate_limit_metric_attributes inherited heap (ref 0) (text "decisions") (ref 1) none
        ≡ rejected bad_policy_ids)
unfolding runner
refuses = (refl, refl)

-- A hole in the array of policy ids is skipped by the test of the ids, and admits undefined.
hole_admits :
    admit_rate_limit_metric_attributes inherited heap
      (ref 0)
      (text "policies")
      (ref 26)
      (some (some (str (text "login")) ∷ none ∷ []))
    ≡ admitted ((text "ores.rate_limit.policy_id", undefined) ∷ [])
unfolding runner
hole_admits = refl

-- A metric beside the four checked ones may allow a label name outside the nine fixed ones.
unchecked_metric :
    admit_rate_limit_metric_attributes inherited heap (ref 0) (text "custom") (ref 22) (some ids)
    ≡ admitted ((text "layer", str (text "edge")) ∷ [])
unfolding runner
unchecked_metric = refl

admit_rate_limit-IsBounded_example :
    IsBounded inherited heap (ref 0) (text "decisions") (ref 21) ids expected_labels
admit_rate_limit-IsBounded_example =
    admit_rate_limit-IsBounded inherited heap (ref 0) (text "decisions") (ref 21) ids
      expected_labels admits

admit_rate_limit-names_example : All (λ l. In l.0 allowed_attribute_names) expected_labels
unfolding checked_metrics
admit_rate_limit-names_example =
    admit_rate_limit-names inherited heap (ref 0) (text "decisions") (ref 21) ids expected_labels
      admits (inl refl)
