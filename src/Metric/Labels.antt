-- ===== src/Metric/Labels.antt =====
-- `admitRateLimitMetricAttributes`.
use ores_lib_core.Base.{
  Bool, true, false, not, ◌&&◌, ◌||◌, Option, none, some, List, [], ◌∷◌, ◌++◌, map, Text, text,
  every, any, find, length, nat_eq, list_eq, ◌==◌, leb, ltb, starts_with, drop, if◌then◌else◌,
}
use ores_lib_core.Js.{
  Heap, Value, undefined, bool, str, same, includes_value, values_size, array_items, get, entries,
}
use ores_lib_core.Retry.{object_has}
use ores_lib_core.Metric.Contract.{
  is_record, canonical, EnumName, all_enums, enum_key, enum_suffix, trusted_v1_contract,
}

-- The TypeErrors, in the order of the checks.
pub data AdmissionError : Type 0 where
  bad_authority untrusted_contract bad_policy_ids bad_metric too_many_labels forbidden_label
        unknown_policy bad_observed_only outside_vocabulary missing_required :
      AdmissionError

pub data Admission : Type 0 where
  admitted : List (Text × Value) → Admission
  rejected : AdmissionError → Admission

-- if (test) throw …; the rest of the function
abbrev pub unless : Bool → AdmissionError → Admission → Admission
unless true e rest = rejected e
unless false e rest = rest

unfoldable pub text_value : Value → Text
text_value (str s) = s
text_value _ = []

-- An array of policy ids, where `none` is a hole; a hole reads as undefined.
abbrev pub Ids : Type 0
Ids = List (Option Value)

abbrev pub read_id : Option Value → Value
read_id none = undefined
read_id (some id) = id

unfoldable pub read_ids : Ids → List Value
read_ids ids = map read_id ids

-- The callback of `some`, which skips a hole. An id that is canonical is ASCII, so that its UTF-8
-- length is its length; the limit is that of a trusted contract.
abbrev pub id_ok : Option Value → Bool
id_ok none = true
id_ok (some id) = canonical id && leb (length (text_value id)) 128

-- The test of the policy vocabulary
unfoldable pub policy_ids_ok : Ids → Bool
unfolding text_value
policy_ids_ok ids =
    leb 1 (length ids)
    && (leb (length ids) 64 && (every id_ok ids && values_size (read_ids ids) == length ids))

abbrev pub items_or_nil : Option (List Value) → List Value
items_or_nil none = []
items_or_nil (some xs) = xs

-- key.replace(/^ores\.rate_limit\./, "")
unfoldable pub label_suffix : Text → Text
label_suffix key =
    if starts_with key (text "ores.rate_limit.")
    then drop (length (text "ores.rate_limit.")) key
    else key

-- The own property of ENUM_BY_SUFFIX
unfoldable pub own_enum : Text → Option EnumName
own_enum suffix = find (λ e. enum_suffix e == suffix) all_enums

-- What a name inherited from Object.prototype, such as "constructor", is as a property key: the text
-- that the engine gives for the function. It is no code of this repository.
abbrev pub Inherited : Type 0
Inherited = Text → Option Text

abbrev pub key_or : Option Text → Option EnumName → Option Text
key_or other none = other
key_or other (some e) = some (enum_key e)

-- ENUM_BY_SUFFIX[suffix], as the key under which the enum is looked up
unfoldable pub enum_of : Inherited → Text → Option Text
enum_of inherited suffix = key_or (inherited suffix) (own_enum suffix)

abbrev pub enum_admits : Heap → Value → Option Text → Value → Bool
enum_admits heap enums none value = false
enum_admits heap enums (some key) value =
    includes_value (items_or_nil (array_items heap (get heap enums key))) value

abbrev pub is_bool : Value → Bool
is_bool (bool b) = true
is_bool _ = false

-- The tests of the value of an allowed label; `none` goes on to the next label.
unfoldable pub value_error : Inherited → Heap → Value → Ids → Text → Value → Option AdmissionError
value_error inherited heap enums ids key value =
    if key == text "ores.rate_limit.policy_id"
    then (if includes_value (read_ids ids) value then none else some unknown_policy)
    else if key == text "ores.rate_limit.observed_only"
    then (if is_bool value then none else some bad_observed_only)
    else if enum_admits heap enums (enum_of inherited (label_suffix key)) value
    then none
    else some outside_vocabulary

-- The body of the loop over the labels.
unfoldable pub label_error :
    Inherited → Heap → Value → List Value → List Value → Ids → Text × Value → Option AdmissionError
label_error inherited heap enums allowed forbidden ids (key, value) =
    if not (includes_value allowed (str key)) || includes_value forbidden (str key)
    then some forbidden_label
    else value_error inherited heap enums ids key value

abbrev pub or_else : Option AdmissionError → Option AdmissionError → Option AdmissionError
or_else none rest = rest
or_else (some e) rest = some e

-- The loop: the error of the first label that has one.
unfoldable pub labels_error :
    Inherited
    → Heap
    → Value
    → List Value
    → List Value
    → Ids
    → List (Text × Value)
    → Option AdmissionError
labels_error inherited heap enums allowed forbidden ids [] = none
labels_error inherited heap enums allowed forbidden ids (l ∷ ls) =
    or_else (label_error inherited heap enums allowed forbidden ids l)
      (labels_error inherited heap enums allowed forbidden ids ls)

-- `Object.hasOwn(attributes, required)`, for the elements of the contract's list
abbrev pub has_required : Heap → Value → Value → Bool
has_required heap attributes required = object_has heap attributes (text_value required)

abbrev pub continue : Option AdmissionError → Admission → Admission
continue (some e) rest = rejected e
continue none rest = rest

-- The part of the function behind the checks of the contract and of the policy vocabulary.
unfoldable pub admit_labels : Inherited → Heap → Value → Text → Value → Ids → Admission
admit_labels inherited heap contract metric_key attributes ids =
    let metrics = get heap contract (text "metrics") in
    let metric = get heap metrics metric_key in
    let allowed = items_or_nil (array_items heap (get heap metric (text "allowedAttributes"))) in
    let attr = get heap contract (text "attributes") in
    let forbidden =
      items_or_nil (array_items heap (get heap contract (text "forbiddenAttributes")))
      ++ items_or_nil (array_items heap (get heap attr (text "traceOrLogOnly"))) in
    let actual = entries heap attributes in
    let required = items_or_nil (array_items heap (get heap attr (text "requiredDecision"))) in
    unless (ltb (values_size allowed) (length actual) || ltb 12 (length actual)) too_many_labels (
      continue
        (labels_error inherited heap (get heap contract (text "enums")) allowed forbidden ids
          actual)
        (unless
          (metric_key == text "decisions"
            && any (λ r. not (has_required heap attributes r)) required)
          missing_required (admitted actual)))

abbrev pub is_array : Option (List Value) → Bool
is_array none = false
is_array (some xs) = true

unfoldable pub metric_ok : Heap → Value → Text → Value → Bool
metric_ok heap contract metric_key attributes =
    let metrics = get heap contract (text "metrics") in
    object_has heap metrics metric_key
    && (is_record heap (get heap metrics metric_key)
        && (is_array
              (array_items heap (get heap (get heap metrics metric_key) (text "allowedAttributes")))
            && is_record heap attributes))

unfoldable pub authority_ok : Heap → Value → Bool
authority_ok heap contract =
    is_record heap contract
    && (same (get heap contract (text "schema")) (str (text "ores-otel/rate-limit-telemetry/v1"))
        && (is_record heap (get heap contract (text "metrics"))
            && (is_record heap (get heap contract (text "attributes"))
                && (is_record heap (get heap contract (text "enums"))
                    && is_record heap (get heap contract (text "cardinality"))))))

-- `policy_ids` is `none` where the argument is no array.
unfoldable pub admit_rate_limit_metric_attributes :
    Inherited → Heap → Value → Text → Value → Option Ids → Admission
admit_rate_limit_metric_attributes inherited heap contract metric_key attributes none =
    unless (not (authority_ok heap contract)) bad_authority (
      unless (not (trusted_v1_contract heap contract)) untrusted_contract (rejected bad_policy_ids))
admit_rate_limit_metric_attributes inherited heap contract metric_key attributes (some ids) =
    unless (not (authority_ok heap contract)) bad_authority (
      unless (not (trusted_v1_contract heap contract)) untrusted_contract (
        unless (not (policy_ids_ok ids)) bad_policy_ids (
          unless (not (metric_ok heap contract metric_key attributes)) bad_metric
            (admit_labels inherited heap contract metric_key attributes ids))))
