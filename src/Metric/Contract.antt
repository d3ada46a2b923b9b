-- ===== src/Metric/Contract.antt =====
-- `record`, `canonical`, the fixed vocabularies and `trustedV1Contract`.
use ores_lib_core.Base.{
  ℕ, Bool, true, false, ◌&&◌, ◌||◌, Option, none, some, List, [], ◌∷◌, ◌++◌, map, Text, text, every,
  length, nat_eq, ◌==◌, is_lower, is_digit,
}
use ores_lib_core.Js.{
  Heap, Value, bool, num, str, ref, int, pos, Class, plain, same, includes_value, array_items,
  array_present, get, is_plain_proto,
}

abbrev is_plain : Class → Bool
is_plain plain = true
is_plain _ = false

-- `record`: an object that is no array and no function, from a literal or without a prototype.
unfoldable pub is_record : Heap → Value → Bool
is_record heap (ref i) = is_plain (heap i).class && is_plain_proto (heap i).proto
is_record heap _ = false

-- [a-z0-9] and [a-z0-9._-]
abbrev pub is_id_start : ℕ → Bool
is_id_start c = is_lower c || is_digit c

abbrev pub is_id_char : ℕ → Bool
is_id_char c = is_id_start c || c == b'.' || c == b'_' || c == b'-'

abbrev pub canonical_text : Text → Bool
canonical_text [] = false
canonical_text (c ∷ s) = is_id_start c && every is_id_char s

unfoldable pub canonical : Value → Bool
canonical (str s) = canonical_text s
canonical _ = false

-- The enums of EXPECTED_ENUMS.
pub data EnumName : Type 0 where
  layer algorithm outcome source principal_kind failure_mode retry_bucket : EnumName

abbrev pub all_enums : List EnumName
all_enums = layer ∷ algorithm ∷ outcome ∷ source ∷ principal_kind ∷ failure_mode ∷ retry_bucket ∷ []

unfoldable pub enum_key : EnumName → Text
unfolding text
enum_key layer = text "layer"
enum_key algorithm = text "algorithm"
enum_key outcome = text "outcome"
enum_key source = text "source"
enum_key principal_kind = text "principalKind"
enum_key failure_mode = text "failureMode"
enum_key retry_bucket = text "retryBucket"

-- ENUM_BY_SUFFIX: the suffix of the label of each enum.
unfoldable pub enum_suffix : EnumName → Text
unfolding text
enum_suffix layer = text "layer"
enum_suffix algorithm = text "algorithm"
enum_suffix outcome = text "outcome"
enum_suffix source = text "source"
enum_suffix principal_kind = text "principal_kind"
enum_suffix failure_mode = text "failure_mode"
enum_suffix retry_bucket = text "retry_bucket"

unfoldable pub expected_values : EnumName → List Text
unfolding text
expected_values layer =
    text "edge"
    ∷ text "load_balancer"
    ∷ text "service"
    ∷ text "authentication"
    ∷ text "data_store"
    ∷ []
expected_values algorithm =
    text "token_bucket" ∷ text "fixed_window" ∷ text "sliding_window" ∷ text "concurrency" ∷ []
expected_values outcome =
    text "allow"
    ∷ text "deny"
    ∷ text "observe_only_overage"
    ∷ text "bypass"
    ∷ text "degraded_allow"
    ∷ []
expected_values source =
    text "cloudflare_binding"
    ∷ text "cloudflare_deny_cache"
    ∷ text "ingress_nginx"
    ∷ text "envoy_local"
    ∷ text "traefik_local"
    ∷ text "local_memory"
    ∷ text "redis_authoritative"
    ∷ text "redis_deny_cache"
    ∷ text "data_store"
    ∷ []
expected_values principal_kind =
    text "anonymous_ip"
    ∷ text "authenticated_subject"
    ∷ text "service_identity"
    ∷ text "tenant"
    ∷ text "composite"
    ∷ []
expected_values failure_mode =
    text "fail_open" ∷ text "fail_closed" ∷ text "local_fallback" ∷ text "not_applicable" ∷ []
expected_values retry_bucket =
    text "none" ∷ text "lt_1s" ∷ text "1s_10s" ∷ text "10s_60s" ∷ text "1m_5m" ∷ text "gt_5m" ∷ []

unfoldable pub required_decision : List Text
unfolding text
required_decision =
    text "ores.rate_limit.policy_id"
    ∷ text "ores.rate_limit.layer"
    ∷ text "ores.rate_limit.algorithm"
    ∷ text "ores.rate_limit.outcome"
    ∷ text "ores.rate_limit.source"
    ∷ text "ores.rate_limit.principal_kind"
    ∷ []

unfoldable pub allowed_attribute_names : List Text
unfolding text required_decision
allowed_attribute_names =
    required_decision
    ++ (text "ores.rate_limit.failure_mode"
        ∷ text "ores.rate_limit.retry_bucket"
        ∷ text "ores.rate_limit.observed_only"
        ∷ [])

-- The names that a trusted contract forbids.
unfoldable pub must_forbid : List Text
unfolding text
must_forbid =
    text "authorization"
    ∷ text "cookie"
    ∷ text "email"
    ∷ text "ip"
    ∷ text "client_ip"
    ∷ text "user_id"
    ∷ text "tenant_id"
    ∷ text "session_id"
    ∷ text "subject"
    ∷ text "token"
    ∷ text "principal"
    ∷ text "principal_digest"
    ∷ text "rate_limit_key"
    ∷ text "redis_key"
    ∷ text "cache_key"
    ∷ []

unfoldable pub trace_only : List Text
unfolding text
trace_only =
    text "ores.rate_limit.principal_fingerprint" ∷ text "trace_id" ∷ text "http.request_id" ∷ []

unfoldable pub checked_metrics : List Text
unfolding text
checked_metrics =
    text "decisions" ∷ text "backendErrors" ∷ text "cacheEntries" ∷ text "retryAfter" ∷ []

-- Array.isArray(v) && names.every((name) => v.includes(name))
abbrev pub array_has_all : Option (List Value) → List Text → Bool
array_has_all none names = false
array_has_all (some xs) names = every (λ n. includes_value xs (str n)) names

-- expected.length === values.length && expected.every((value, index) => values[index] === value)
unfoldable pub same_texts : List Text → List Value → Bool
same_texts [] [] = true
same_texts (t ∷ ts) (v ∷ vs) = same v (str t) && same_texts ts vs
same_texts _ _ = false

abbrev pub array_is : Option (List Value) → List Text → Bool
array_is none ts = false
array_is (some vs) ts = same_texts ts vs

abbrev pub required_exact : Option (List Value) → Bool
required_exact none = false
required_exact (some xs) =
    length required_decision == length xs
    && every (λ n. includes_value xs (str n)) required_decision

-- ALLOWED_ATTRIBUTE_NAMES.has(label), for labels of any type; `every` skips a hole.
abbrev pub all_allowed : Option (List Value) → Bool
all_allowed none = false
all_allowed (some labels) = every (λ l. includes_value (map str allowed_attribute_names) l) labels

unfoldable pub metric_checked : Heap → Value → Text → Bool
metric_checked heap metrics key =
    is_record heap (get heap metrics key)
    && all_allowed (array_present heap (get heap (get heap metrics key) (text "allowedAttributes")))

unfoldable pub trusted_v1_contract : Heap → Value → Bool
trusted_v1_contract heap contract =
    let card = get heap contract (text "cardinality") in
    let attr = get heap contract (text "attributes") in
    same (get heap card (text "policyIdIsStaticConfiguration")) (bool true)
    && (same (get heap card (text "dynamicRouteLabelsAllowed")) (bool false)
        && (same (get heap card (text "principalFingerprintAllowedInMetrics")) (bool false)
            && (same (get heap card (text "policyIdMaxUtf8Bytes")) (num (int (pos 128)))
                && (array_has_all
                      (array_items heap (get heap contract (text "forbiddenAttributes")))
                      must_forbid
                    && (array_has_all (array_items heap (get heap attr (text "traceOrLogOnly")))
                          trace_only
                        && (required_exact
                              (array_items heap (get heap attr (text "requiredDecision")))
                            && (every
                                  (λ e.
                                    array_is
                                      (array_items heap
                                        (get heap (get heap contract (text "enums")) (enum_key e)))
                                      (expected_values e))
                                  all_enums
                                && every (metric_checked heap (get heap contract (text "metrics")))
                                    checked_metrics)))))))
