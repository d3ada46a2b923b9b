-- ===== src/Metric/Admission.antt =====
-- What an admitted set of labels is: every name is allowed and not forbidden, and every value comes
-- from a finite vocabulary.
use ores_lib_core.Base.{
  ◌≤◌, ◌≡◌, refl, sym, subst, Bool, true, false, not, inl, inr, none, some, List, [], ◌∷◌, Text,
  text, every-In, any, find-eq-some, length, In, All, All-map, nat_eq, list_eq, ◌==◌, eq_iff, arith,
  Bool-cases, Option-cases,
}
use ores_lib_core.Js.{Heap, Value, undefined, bool, str, includes_value, array_items, get, entries}
use ores_lib_core.Retry.{object_has}
use ores_lib_core.Metric.Contract.{
  canonical, EnumName, all_enums, enum_suffix, expected_values, required_decision,
  allowed_attribute_names, must_forbid, trace_only, checked_metrics, metric_checked,
}
use ores_lib_core.Metric.Labels.{
  admitted, text_value, policy_ids_ok, items_or_nil, label_suffix, Ids, Inherited, read_ids,
  own_enum, enum_of, is_bool, label_error, value_error, labels_error, has_required, admit_labels,
  admit_rate_limit_metric_attributes,
}
use ores_lib_core.Metric.Trust.{
  includes-strs, includes-append, has_all-In, enum_items, forbidden_items, allowed_items, IsTrusted,
  IsTrusted-trusted_v1_contract, array_is-map, ids-IsId, any-str, exact-In, all_allowed-In,
}

-- A value of the finite vocabulary of its label: a configured policy id, undefined where those have
-- a hole, a Boolean, a value of the fixed enum that the label names, or one that an array of the
-- contract's enums has under the text of something in Object.prototype that the label names.
pub data InVocabulary (inherited : Inherited) (heap : Heap) (contract : Value) (ids : Ids)
    (key : Text) (value : Value) : Type 0 where
  policy :
      (s : Text)
      → key ≡ text "ores.rate_limit.policy_id"
      → value ≡ str s
      → canonical (str s) ≡ true
      → includes_value (read_ids ids) (str s) ≡ true
      → InVocabulary inherited heap contract ids key value
  unset :
      key ≡ text "ores.rate_limit.policy_id"
      → value ≡ undefined
      → In none ids
      → InVocabulary inherited heap contract ids key value
  observed :
      (b : Bool)
      → key ≡ text "ores.rate_limit.observed_only"
      → value ≡ bool b
      → InVocabulary inherited heap contract ids key value
  enumerated :
      (e : EnumName) (t : Text)
      → label_suffix key ≡ enum_suffix e
      → value ≡ str t
      → In t (expected_values e)
      → InVocabulary inherited heap contract ids key value
  from_prototype :
      (k : Text)
      → own_enum (label_suffix key) ≡ none
      → inherited (label_suffix key) ≡ some k
      → includes_value
          (items_or_nil (array_items heap (get heap (get heap contract (text "enums")) k)))
          value
        ≡ true
      → InVocabulary inherited heap contract ids key value

-- An admitted label: its name is allowed for the metric and forbidden by neither list of the
-- contract, so that it is not one of the names that are always private, and its value is in the
-- vocabulary.
pub record IsAdmissible (inherited : Inherited) (heap : Heap) (contract : Value) (metric : Text)
    (ids : Ids) (l : Text × Value) : Type 0 where
  pub allowed : includes_value (allowed_items heap contract metric) (str l.0) ≡ true
  pub not_forbidden : includes_value (forbidden_items heap contract) (str l.0) ≡ false
  pub not_private : ¬ In l.0 must_forbid
  pub not_trace : ¬ In l.0 trace_only
  pub in_vocabulary : InVocabulary inherited heap contract ids l.0 l.1

is_bool-eq : (v : Value) → is_bool v ≡ true → (b : Bool) × (v ≡ bool b)
is_bool-eq (bool b) h = (b, refl)
is_bool-eq v h = cc

enum-text :
    (heap : Heap) (contract : Value) (e : EnumName) (v : Value)
    → IsTrusted heap contract
    → includes_value (items_or_nil (enum_items heap contract e)) v ≡ true
    → (t : Text) × (v ≡ str t) × In t (expected_values e)
enum-text heap contract e v t h = includes-strs (expected_values e) v (
    subst (λ xs. includes_value xs v ≡ true)
      (array_is-map (enum_items heap contract e) (expected_values e) (t.enums e)) h)

own_enum-suffix : (suffix : Text) (e : EnumName) → own_enum suffix ≡ some e → enum_suffix e ≡ suffix
unfolding own_enum
own_enum-suffix suffix e h =
    (eq_iff (enum_suffix e) suffix).0 (find-eq-some (λ x. enum_suffix x == suffix) e all_enums h).1

module _ (inherited : Inherited) (heap : Heap) (contract : Value) (metric : Text) (ids : Ids)
    (trusted : IsTrusted heap contract) (ids_ok : policy_ids_ok ids ≡ true) where
  value-InVocabulary :
      (key : Text) (value : Value)
      → value_error inherited heap (get heap contract (text "enums")) ids key value ≡ none
      → InVocabulary inherited heap contract ids key value
  unfolding value_error policy_ids_ok enum_of
  value-InVocabulary key value h = elim (Bool-cases (key == text "ores.rate_limit.policy_id")) [
    | inl is_policy ↦
        let listed : includes_value (read_ids ids) value ≡ true = ground arith in
        elim (ids-IsId ids value (ground arith) listed) [
          | inl (s, e, c) ↦ policy s ((eq_iff key _).0 is_policy) e c (rw e at listed)
          | inr (e, i) ↦ unset ((eq_iff key _).0 is_policy) e i
        ]
    | inr not_policy ↦ elim (Bool-cases (key == text "ores.rate_limit.observed_only")) [
      | inl is_observed ↦
          let (b, e) = is_bool-eq value (ground arith) in
          observed b ((eq_iff key _).0 is_observed) e
      | inr not_observed ↦ elim (Option-cases (own_enum (label_suffix key))) [
        | inl unknown ↦ elim (Option-cases (inherited (label_suffix key))) [
          | inl nothing ↦ cc (rw (not_policy, not_observed, unknown, nothing) at h)
          | inr (k, e) ↦ from_prototype k unknown e (ground arith)
        ]
        | inr (e, found) ↦
            let same_suffix = own_enum-suffix (label_suffix key) e found in
            let (t, is_t, j) = enum-text heap contract e value trusted (ground arith) in
            enumerated e t (sym same_suffix) is_t j
      ]
    ]
  ]

  label-IsAdmissible :
      (l : Text × Value)
      → label_error inherited heap
          (get heap contract (text "enums"))
          (allowed_items heap contract metric)
          (forbidden_items heap contract)
          ids
          l
        ≡ none
      → IsAdmissible inherited heap contract metric ids l
  unfolding label_error
  label-IsAdmissible (key, value) h =
      let not_listed : includes_value (forbidden_items heap contract) (str key) ≡ false =
        ground arith in
      let (no_private, no_trace) =
        includes-append
          (items_or_nil (array_items heap (get heap contract (text "forbiddenAttributes"))))
          (items_or_nil (
            array_items heap
              (get heap (get heap contract (text "attributes")) (text "traceOrLogOnly"))))
          (str key) not_listed in
      record {
        allowed = ground arith;
        not_forbidden = not_listed;
        not_private = λ i. cc (no_private, has_all-In _ must_forbid key trusted.forbids i);
        not_trace = λ i. cc (no_trace, has_all-In _ trace_only key trusted.traces i);
        in_vocabulary = value-InVocabulary key value (ground arith);
      }

  labels-IsAdmissible :
      (ls : List (Text × Value))
      → labels_error inherited heap
          (get heap contract (text "enums"))
          (allowed_items heap contract metric)
          (forbidden_items heap contract)
          ids
          ls
        ≡ none
      → All (IsAdmissible inherited heap contract metric ids) ls
  unfolding labels_error
  labels-IsAdmissible [] h = tt
  labels-IsAdmissible (l ∷ ls) h =
      (label-IsAdmissible l (ground arith), labels-IsAdmissible ls (ground arith))

  has_required-str :
      (attributes : Value) (n : Text)
      → not (has_required heap attributes (str n)) ≡ false
      → object_has heap attributes n ≡ true
  unfolding text_value
  has_required-str attributes n h = ground arith

  required-present :
      (attributes : Value)
      → any
          (λ r. not (has_required heap attributes r))
          (items_or_nil (
            array_items heap
              (get heap (get heap contract (text "attributes")) (text "requiredDecision"))))
        ≡ false
      → (n : Text) → In n required_decision
      → object_has heap attributes n ≡ true
  required-present attributes h n i =
      let absent =
        any-str (λ r. not (has_required heap attributes r))
          (items_or_nil (
            array_items heap
              (get heap (get heap contract (text "attributes")) (text "requiredDecision"))))
          n
          (exact-In
            (array_items heap
              (get heap (get heap contract (text "attributes")) (text "requiredDecision")))
            n trusted.required i)
          h in
      has_required-str attributes n absent

-- What the function admits is the caller's own labels, at most twelve, each admissible; with the
-- metric "decisions" all six required labels are there.
pub record IsBounded (inherited : Inherited) (heap : Heap) (contract : Value) (metric : Text)
    (attributes : Value) (ids : Ids) (labels : List (Text × Value)) : Type 0 where
  pub unchanged : labels ≡ entries heap attributes
  pub few : length labels ≤ 12
  pub each : All (IsAdmissible inherited heap contract metric ids) labels
  pub complete :
      metric ≡ text "decisions"
      → (n : Text) → In n required_decision
      → object_has heap attributes n ≡ true

admit_labels-IsBounded :
    (inherited : Inherited) (heap : Heap) (contract : Value) (metric : Text) (attributes : Value)
    (ids : Ids) (labels : List (Text × Value))
    → IsTrusted heap contract
    → policy_ids_ok ids ≡ true
    → admit_labels inherited heap contract metric attributes ids ≡ admitted labels
    → IsBounded inherited heap contract metric attributes ids labels
unfolding admit_labels
admit_labels-IsBounded inherited heap contract metric attributes ids labels t ok h = record {
  unchanged = ground arith;
  few = ground arith;
  each = subst (All (IsAdmissible inherited heap contract metric ids)) (ground arith) (
      labels-IsAdmissible inherited heap contract metric ids t ok (entries heap attributes)
        (ground arith));
  complete = λ is_decisions.
      required-present inherited heap contract metric ids t ok attributes
        (ground (arith, (eq_iff metric (text "decisions")).1 is_decisions));
}

allowed_name :
    (heap : Heap) (contract : Value) (metric key : Text)
    → metric_checked heap (get heap contract (text "metrics")) metric ≡ true
    → includes_value (allowed_items heap contract metric) (str key) ≡ true
    → In key allowed_attribute_names
unfolding metric_checked
allowed_name heap contract metric key h i =
    all_allowed-In heap
      (get heap (get heap (get heap contract (text "metrics")) metric) (text "allowedAttributes"))
      key (ground arith) i

-- What is admitted is bounded: the labels are the caller's own, at most twelve, every one is allowed,
-- forbidden by neither list of the contract and of a finite vocabulary, and decisions are complete. The vocabulary
-- is that of the policy ids, all canonical, the two Booleans or the v1 enum of the label; beside it
-- there is undefined as a policy id if the ids have a hole, and, for a label named as something in
-- Object.prototype, an array of the contract's enums under the text of that.
pub admit_rate_limit-IsBounded :
    (inherited : Inherited) (heap : Heap) (contract : Value) (metric : Text) (attributes : Value)
    (ids : Ids) (labels : List (Text × Value))
    → admit_rate_limit_metric_attributes inherited heap contract metric attributes (some ids)
      ≡ admitted labels
    → IsBounded inherited heap contract metric attributes ids labels
unfolding admit_rate_limit_metric_attributes
admit_rate_limit-IsBounded inherited heap contract metric attributes ids labels h =
    admit_labels-IsBounded inherited heap contract metric attributes ids labels
      (IsTrusted-trusted_v1_contract heap contract (ground arith)) (ground arith) (ground arith)

-- A label of one of the four metrics of the v1 contract has one of the nine fixed names.
pub admit_rate_limit-names :
    (inherited : Inherited) (heap : Heap) (contract : Value) (metric : Text) (attributes : Value)
    (ids : Ids) (labels : List (Text × Value))
    → admit_rate_limit_metric_attributes inherited heap contract metric attributes (some ids)
      ≡ admitted labels
    → In metric checked_metrics
    → All (λ l. In l.0 allowed_attribute_names) labels
unfolding admit_rate_limit_metric_attributes
admit_rate_limit-names inherited heap contract metric attributes ids labels h i =
    let trusted = IsTrusted-trusted_v1_contract heap contract (ground arith) in
    let bounded =
      admit_rate_limit-IsBounded inherited heap contract metric attributes ids labels h in
    let checked = every-In _ metric checked_metrics trusted.metrics i in
    All-map labels bounded.each (λ l ok. allowed_name heap contract metric l.0 checked ok.allowed)
