-- ===== src/Retry.antt =====
-- langs/typescript/src/rpc-retry.js: `record` and `planRpcRetry`.
pub mod Laws
pub mod Records
pub mod Bounds
use Prim.Native.Nat.{min, max}
use ores_lib_core.Base.{
  ℕ, ◌+◌, ◌-◌, ◌*◌, ◌/◌, ◌^◌, Bool, true, false, not, ◌&&◌, ◌||◌, Option, none, some, List, [], ◌∷◌,
  Text, text, every, includes, nat_eq, list_eq, ◌==◌, leb, if◌then◌else◌,
}
use ores_lib_core.Js.{
  Heap, Value, bool, num, ref, int, pos, Key, name, sym_key, Slot, data_slot, accessor, own_props,
  has_own, get, bounded, is_plain_proto, is_callable,
}

pub data Reason : Type 0 where
  retry invalid_input cancelled unsafe_replay attempts_exhausted deadline_exhausted non_retryable :
      Reason

-- RETRY_REASON
unfoldable pub reason_code : Reason → ℕ
reason_code retry = 1
reason_code invalid_input = 2
reason_code cancelled = 3
reason_code unsafe_replay = 4
reason_code attempts_exhausted = 5
reason_code deadline_exhausted = 6
reason_code non_retryable = 7

unfoldable pub policy_keys : List Text
unfolding text
policy_keys =
    text "max_attempts" ∷ text "timeout_ms" ∷ text "initial_backoff_ms" ∷ text "max_backoff_ms" ∷ []

unfoldable pub attempt_keys : List Text
unfolding text
attempt_keys =
    text "attempts_completed"
    ∷ text "elapsed_ms"
    ∷ text "code"
    ∷ text "cancelled"
    ∷ text "replay_safe"
    ∷ text "jitter_permille"
    ∷ []

-- The callback of `every` over the own keys: a listed string key of an enumerable data property.
abbrev pub admits : List Text → List Text → Key × Slot → Bool
admits required optional (name k, data_slot v enumerable) =
    (includes required k || includes optional k) && enumerable
admits required optional _ = false

unfoldable pub is_record : Heap → Value → List Text → List Text → Bool
is_record heap (ref i) required optional =
    let object = heap i in
    not (is_callable object.class)
    && (is_plain_proto object.proto
        && (every (λ key. has_own (own_props object) key) required
            && every (admits required optional) (own_props object)))
is_record heap _ required optional = false

pub record Policy : Type 0 where
  pub max_attempts : ℕ
  pub timeout_ms : ℕ
  pub initial_backoff_ms : ℕ
  pub max_backoff_ms : ℕ

pub record Attempt : Type 0 where
  pub attempts_completed : ℕ
  pub elapsed_ms : ℕ
  pub code : ℕ
  pub cancelled : Bool
  pub replay_safe : Bool
  pub jitter_permille : ℕ
  pub retry_after_ms : Option ℕ

-- A number that passed `bounded`, and a Boolean that passed its test; -0 counts as 0.
unfoldable pub to_nat : Value → ℕ
to_nat (num (int (pos n))) = n
to_nat _ = 0

unfoldable pub to_bool : Value → Bool
to_bool (bool b) = b
to_bool _ = false

unfoldable pub is_boolean : Value → Bool
is_boolean (bool b) = true
is_boolean _ = false

-- The fields that the rest of the function reads.
unfoldable pub policy_of : Heap → Value → Policy
policy_of heap v = record {
  max_attempts = to_nat (get heap v (text "max_attempts"));
  timeout_ms = to_nat (get heap v (text "timeout_ms"));
  initial_backoff_ms = to_nat (get heap v (text "initial_backoff_ms"));
  max_backoff_ms = to_nat (get heap v (text "max_backoff_ms"));
}

-- Object.hasOwn(value, key)
unfoldable pub object_has : Heap → Value → Text → Bool
object_has heap (ref i) k = has_own (own_props (heap i)) k
object_has heap _ k = false

unfoldable pub attempt_of : Heap → Value → Attempt
attempt_of heap v = record {
  attempts_completed = to_nat (get heap v (text "attempts_completed"));
  elapsed_ms = to_nat (get heap v (text "elapsed_ms"));
  code = to_nat (get heap v (text "code"));
  cancelled = to_bool (get heap v (text "cancelled"));
  replay_safe = to_bool (get heap v (text "replay_safe"));
  jitter_permille = to_nat (get heap v (text "jitter_permille"));
  retry_after_ms =
      if object_has heap v (text "retry_after_ms")
      then some (to_nat (get heap v (text "retry_after_ms")))
      else none;
}

unfoldable pub policy_in_range : Heap → Value → Bool
policy_in_range heap v =
    bounded (get heap v (text "max_attempts")) 1 8
    && (bounded (get heap v (text "timeout_ms")) 1 3_600_000
        && (bounded (get heap v (text "initial_backoff_ms")) 1 60_000
            && bounded (get heap v (text "max_backoff_ms"))
                (to_nat (get heap v (text "initial_backoff_ms"))) 60_000))

unfoldable pub attempt_in_range : Heap → Value → Bool
attempt_in_range heap v =
    bounded (get heap v (text "attempts_completed")) 1 8
    && (bounded (get heap v (text "elapsed_ms")) 0 3_600_000
        && (bounded (get heap v (text "code")) 0 16
            && (is_boolean (get heap v (text "cancelled"))
                && (is_boolean (get heap v (text "replay_safe"))
                    && (bounded (get heap v (text "jitter_permille")) 0 1000
                        && not (
                            object_has heap v (text "retry_after_ms")
                            && not (bounded (get heap v (text "retry_after_ms")) 0 3_600_000)))))))

pub record Decision : Type 0 where
  pub retry : Bool
  pub delay_ms : ℕ
  pub reason : Reason

abbrev pub stop : Reason → Decision
stop reason = record { retry = false; delay_ms = 0; reason = reason }

-- `attempt.retry_after_ms ?? 0`
abbrev pub or_zero : Option ℕ → ℕ
or_zero none = 0
or_zero (some n) = n

-- The exponential backoff under its cap.
unfoldable pub backoff_cap : Policy → Attempt → ℕ
backoff_cap policy attempt =
    min policy.max_backoff_ms (policy.initial_backoff_ms * 2 ^ (attempt.attempts_completed - 1))

unfoldable pub retry_delay : Policy → Attempt → ℕ
unfolding backoff_cap
retry_delay policy attempt =
    max (backoff_cap policy attempt * attempt.jitter_permille / 1000)
      (or_zero attempt.retry_after_ms)

-- The steps after validation.
unfoldable pub decide_retry : Policy → Attempt → Decision
decide_retry policy attempt =
    if attempt.cancelled
    then stop cancelled
    else if not attempt.replay_safe
    then stop unsafe_replay
    else if leb policy.max_attempts attempt.attempts_completed
    then stop attempts_exhausted
    else if leb policy.timeout_ms attempt.elapsed_ms
    then stop deadline_exhausted
    else if not (attempt.code == 8) && not (attempt.code == 14)
    then stop non_retryable
    else if leb (policy.timeout_ms - attempt.elapsed_ms) (retry_delay policy attempt)
    then stop deadline_exhausted
    else record { retry = true; delay_ms = retry_delay policy attempt; reason = retry }

unfoldable pub plan_rpc_retry : Heap → Value → Value → Decision
plan_rpc_retry heap policy attempt =
    if not (is_record heap policy policy_keys [])
      || not (is_record heap attempt attempt_keys (text "retry_after_ms" ∷ []))
    then stop invalid_input
    else if not (policy_in_range heap policy) || not (attempt_in_range heap attempt)
    then stop invalid_input
    else decide_retry (policy_of heap policy) (attempt_of heap attempt)
