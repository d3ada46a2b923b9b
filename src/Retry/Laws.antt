-- ===== src/Retry/Laws.antt =====
-- When a retry is planned, how long it waits, and the reason for every other answer.
use ores_lib_core.Base.{
  ℕ, ◌+◌, ◌≤◌, ◌<◌, ◌≡◌, ◌≢◌, Bool, true, false, ◌&&◌, ◌↔◌, ◌⊎◌, inl, inr, [], ◌∷◌, text, nat_eq,
  arith, Bool-cases,
}
use ores_lib_core.Js.{Heap, Value}
use ores_lib_core.Retry.{
  Reason, invalid_input, cancelled, unsafe_replay, attempts_exhausted, deadline_exhausted,
  non_retryable, policy_keys, attempt_keys, is_record, Policy, Attempt, policy_of, attempt_of,
  policy_in_range, attempt_in_range, stop, retry_delay, decide_retry, plan_rpc_retry,
}

-- The input passes both checks.
abbrev pub is_valid : Heap → Value → Value → Bool
is_valid heap policy attempt =
    (is_record heap policy policy_keys []
      && is_record heap attempt attempt_keys (text "retry_after_ms" ∷ []))
    && (policy_in_range heap policy && attempt_in_range heap attempt)

-- What a planned retry guarantees.
pub record IsGranted (p : Policy) (a : Attempt) (delay : ℕ) : Type 0 where
  pub not_cancelled : a.cancelled ≡ false
  pub safe : a.replay_safe ≡ true
  pub attempts_left : a.attempts_completed < p.max_attempts
  pub transient : (a.code ≡ 8) ⊎ (a.code ≡ 14)
  pub in_time : a.elapsed_ms + delay < p.timeout_ms
  pub planned : delay ≡ retry_delay p a

decide_retry_iff :
    (p : Policy) (a : Attempt)
    → ((decide_retry p a).retry ≡ true) ↔ IsGranted p a (decide_retry p a).delay_ms
unfolding decide_retry
decide_retry_iff p a = ground arith

plan_valid :
    (heap : Heap) (policy attempt : Value)
    → is_valid heap policy attempt ≡ true
    → plan_rpc_retry heap policy attempt
      ≡ decide_retry (policy_of heap policy) (attempt_of heap attempt)
unfolding plan_rpc_retry
plan_valid heap policy attempt h = ground arith

plan_invalid :
    (heap : Heap) (policy attempt : Value)
    → is_valid heap policy attempt ≡ false
    → plan_rpc_retry heap policy attempt ≡ stop invalid_input
unfolding plan_rpc_retry
plan_invalid heap policy attempt h = ground arith

-- A retry is planned exactly if the input is valid and the planned delay is granted: not cancelled,
-- replay-safe, attempts left, a transient code, and time left after the delay.
pub plan_rpc_retry_iff :
    (heap : Heap) (policy attempt : Value)
    → ((plan_rpc_retry heap policy attempt).retry ≡ true) ↔ (
        (is_valid heap policy attempt ≡ true)
        × IsGranted
            (policy_of heap policy)
            (attempt_of heap attempt)
            (plan_rpc_retry heap policy attempt).delay_ms)
plan_rpc_retry_iff heap policy attempt = elim (Bool-cases (is_valid heap policy attempt)) [
  | inl valid ↦
      rw (plan_valid heap policy attempt valid)
        ((λ h. (valid, (decide_retry_iff _ _).0 h)), (λ (v, g). (decide_retry_iff _ _).1 g))
  | inr bad ↦ rw (plan_invalid heap policy attempt bad) ((λ h. cc), (λ (v, g). cc))
]

-- Why a call is not retried, for a valid input: the first of the tests that fails.
pub record Reasons (p : Policy) (a : Attempt) (r : Reason) : Type 0 where
  pub on_cancelled : (r ≡ cancelled) ↔ (a.cancelled ≡ true)
  pub on_unsafe : (r ≡ unsafe_replay) ↔ ((a.cancelled ≡ false) × (a.replay_safe ≡ false))
  pub on_attempts :
      (r ≡ attempts_exhausted)
      ↔ ((a.cancelled ≡ false) × (a.replay_safe ≡ true) × (p.max_attempts ≤ a.attempts_completed))
  pub on_code : (r ≡ non_retryable) ↔ (
      (a.cancelled ≡ false)
      × (a.replay_safe ≡ true)
      × (a.attempts_completed < p.max_attempts)
      × (a.elapsed_ms < p.timeout_ms)
      × (a.code ≢ 8)
      × (a.code ≢ 14))
  pub on_deadline : (r ≡ deadline_exhausted) ↔ (
      (a.cancelled ≡ false)
      × (a.replay_safe ≡ true)
      × (a.attempts_completed < p.max_attempts)
      × ((p.timeout_ms ≤ a.elapsed_ms)
          ⊎ (((a.code ≡ 8) ⊎ (a.code ≡ 14)) × (p.timeout_ms ≤ a.elapsed_ms + retry_delay p a))))
  pub never_invalid : r ≢ invalid_input

decide_retry-Reasons : (p : Policy) (a : Attempt) → Reasons p a (decide_retry p a).reason
unfolding decide_retry
decide_retry-Reasons p a = record {
  on_cancelled = ground arith;
  on_unsafe = ground arith;
  on_attempts = ground arith;
  on_code = ground arith;
  on_deadline = ground arith;
  never_invalid = ground arith;
}

-- For a valid input the reason names the first test that fails; for any other it is invalid_input.
pub plan_rpc_retry-reason :
    (heap : Heap) (policy attempt : Value)
    → ((is_valid heap policy attempt ≡ true)
        → Reasons
            (policy_of heap policy)
            (attempt_of heap attempt)
            (plan_rpc_retry heap policy attempt).reason)
      × ((is_valid heap policy attempt ≡ false)
          → (plan_rpc_retry heap policy attempt).reason ≡ invalid_input)
plan_rpc_retry-reason heap policy attempt = (
  (λ v. rw (plan_valid heap policy attempt v) (decide_retry-Reasons _ _)),
  (λ b. rw (plan_invalid heap policy attempt b)),
)
