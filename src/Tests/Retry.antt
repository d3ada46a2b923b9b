-- ===== src/Tests/Retry.antt =====
-- langs/typescript/src/rpc-retry.js at concrete inputs.
use Prim.Native.Nat.{max}
use ores_lib_core.Base.{
  ℕ, zero, suc, ◌+◌, ◌-◌, ◌*◌, ◌^◌, ◌≤◌, ◌<◌, ◌≡◌, refl, true, false, ◌↔◌, List, [], ◌∷◌, Text,
  text, includes, list_beq,
}
use ores_lib_core.Js.{
  Heap, Value, num, int, pos, bool, ref, null, Key, name, Slot, data_slot, accessor, Object,
  object_proto, plain, own_props, has_own, get, bounded, max_safe,
}
use ores_lib_core.Retry.{
  is_record, policy_keys, policy_of, attempt_of, plan_rpc_retry, decide_retry, retry_delay, retry,
  stop, attempts_exhausted, invalid_input, policy_in_range, attempt_in_range, attempt_keys, to_nat,
  to_bool, is_boolean, object_has, or_zero, backoff_cap,
}
use ores_lib_core.Retry.Records.{IsRecord, is_record_iff}
use ores_lib_core.Retry.Laws.{
  is_valid, IsGranted, Reasons, plan_rpc_retry_iff, plan_rpc_retry-reason,
}
use ores_lib_core.Retry.Bounds.{plan_rpc_retry_bounds, plan_products_safe}

abbrev own : Text → Value → Key × Slot
own k v = (name k, data_slot v true)

abbrev nat : ℕ → Value
nat n = num (int (pos n))

abbrev object_of : List (Key × Slot) → Object
object_of props = record { class = plain; proto = object_proto; size = 0; props = props }

abbrev policy : Object
policy = object_of (
    own (text "max_attempts") (nat 3)
    ∷ own (text "timeout_ms") (nat 5000)
    ∷ own (text "initial_backoff_ms") (nat 100)
    ∷ own (text "max_backoff_ms") (nat 1000)
    ∷ [])

abbrev attempt_with : ℕ → Object
attempt_with completed = object_of (
    own (text "attempts_completed") (nat completed)
    ∷ own (text "elapsed_ms") (nat 40)
    ∷ own (text "code") (nat 14)
    ∷ own (text "cancelled") (bool false)
    ∷ own (text "replay_safe") (bool true)
    ∷ own (text "jitter_permille") (nat 500)
    ∷ own (text "retry_after_ms") (nat 60)
    ∷ [])

abbrev odd_policy : Object
odd_policy = object_of ((name (text "max_attempts"), accessor true) ∷ policy.props)

-- 0 is the policy; the attempts have the references 1 and 2; 3 is a policy with an accessor.
abbrev heap : Heap
heap zero = policy
heap (suc zero) = attempt_with 2
heap (suc (suc zero)) = attempt_with 3
heap _ = odd_policy

runner : Unit {0}
unfolding plan_rpc_retry decide_retry is_record policy_in_range attempt_in_range policy_of
    attempt_of retry_delay to_nat to_bool is_boolean object_has policy_keys attempt_keys text
    includes list_beq own_props has_own get bounded
runner = tt

runs :
    (plan_rpc_retry heap (ref 0) (ref 1) ≡ record { retry = true; delay_ms = 100; reason = retry })
    × (plan_rpc_retry heap (ref 0) (ref 2) ≡ stop attempts_exhausted)
    × (plan_rpc_retry heap (ref 3) (ref 1) ≡ stop invalid_input)
    × (plan_rpc_retry heap null (ref 1) ≡ stop invalid_input)
unfolding runner
runs = (refl, refl, refl, refl)

valid : is_valid heap (ref 0) (ref 1) ≡ true
unfolding runner
valid = refl

plans : (plan_rpc_retry heap (ref 0) (ref 1)).retry ≡ true
unfolding runner
plans = refl

is_record_iff_example :
    (is_record heap (ref 0) policy_keys [] ≡ true) ↔ IsRecord heap (ref 0) policy_keys []
is_record_iff_example = is_record_iff heap policy_keys [] (ref 0)

plan_rpc_retry_iff_example : ((plan_rpc_retry heap (ref 0) (ref 1)).retry ≡ true) ↔ (
    (is_valid heap (ref 0) (ref 1) ≡ true)
    × IsGranted
        (policy_of heap (ref 0))
        (attempt_of heap (ref 1))
        (plan_rpc_retry heap (ref 0) (ref 1)).delay_ms)
plan_rpc_retry_iff_example = plan_rpc_retry_iff heap (ref 0) (ref 1)

plan_rpc_retry-reason_example :
    ((is_valid heap (ref 0) (ref 2) ≡ true)
      → Reasons
          (policy_of heap (ref 0))
          (attempt_of heap (ref 2))
          (plan_rpc_retry heap (ref 0) (ref 2)).reason)
    × ((is_valid heap (ref 0) (ref 2) ≡ false)
        → (plan_rpc_retry heap (ref 0) (ref 2)).reason ≡ invalid_input)
plan_rpc_retry-reason_example = plan_rpc_retry-reason heap (ref 0) (ref 2)

plan_rpc_retry_bounds_example :
    (or_zero (attempt_of heap (ref 1)).retry_after_ms
      ≤ (plan_rpc_retry heap (ref 0) (ref 1)).delay_ms)
    × ((plan_rpc_retry heap (ref 0) (ref 1)).delay_ms
        ≤ max
            (policy_of heap (ref 0)).max_backoff_ms
            (or_zero (attempt_of heap (ref 1)).retry_after_ms))
    × ((attempt_of heap (ref 1)).elapsed_ms + (plan_rpc_retry heap (ref 0) (ref 1)).delay_ms
        < (policy_of heap (ref 0)).timeout_ms)
plan_rpc_retry_bounds_example = plan_rpc_retry_bounds heap (ref 0) (ref 1) plans

plan_products_safe_example :
    ((policy_of heap (ref 0)).initial_backoff_ms
        * 2 ^ ((attempt_of heap (ref 1)).attempts_completed - 1)
      ≤ max_safe)
    × (backoff_cap (policy_of heap (ref 0)) (attempt_of heap (ref 1))
          * (attempt_of heap (ref 1)).jitter_permille
        ≤ max_safe)
plan_products_safe_example = plan_products_safe heap (ref 0) (ref 1) valid
