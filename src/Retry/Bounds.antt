-- ===== src/Retry/Bounds.antt =====
-- The ranges of a valid input, the range of a planned delay, and that every product is exact.
use Prim.Native.Nat.{max}
use native.Mathlib.Nat.{mul-le-mul}
use ores_lib_core.Base.{
  ℕ, zero, suc, ◌+◌, ◌-◌, ◌*◌, ◌/◌, ◌^◌, ◌≤◌, ◌<◌, ◌≡◌, true, text, nat_eq, arith, Bool-cases, inl,
  inr,
}
use ores_lib_core.Js.{Heap, Value, num, int, neg_zero, pos, bounded, get, max_safe}
use ores_lib_core.Retry.{
  Policy, Attempt, to_nat, policy_of, attempt_of, policy_in_range, attempt_in_range, or_zero,
  backoff_cap, retry_delay, plan_rpc_retry, object_has,
}
use ores_lib_core.Retry.Laws.{is_valid, plan_rpc_retry_iff}

pub record PolicyInRange (p : Policy) : Type 0 where
  pub attempts : (1 ≤ p.max_attempts) × (p.max_attempts ≤ 8)
  pub timeout : (1 ≤ p.timeout_ms) × (p.timeout_ms ≤ 3_600_000)
  pub initial : (1 ≤ p.initial_backoff_ms) × (p.initial_backoff_ms ≤ p.max_backoff_ms)
  pub largest : p.max_backoff_ms ≤ 60_000

pub record AttemptInRange (a : Attempt) : Type 0 where
  pub completed : (1 ≤ a.attempts_completed) × (a.attempts_completed ≤ 8)
  pub elapsed : a.elapsed_ms ≤ 3_600_000
  pub code : a.code ≤ 16
  pub jitter : a.jitter_permille ≤ 1000
  pub server : or_zero a.retry_after_ms ≤ 3_600_000

bounded_range : (v : Value) (lo hi : ℕ) → bounded v lo hi ≡ true → (lo ≤ to_nat v) × (to_nat v ≤ hi)
unfolding bounded to_nat
bounded_range (num (int (pos n))) lo hi h = ground arith
bounded_range (num neg_zero) zero hi h = ground arith
bounded_range v lo hi h = cc

pub PolicyInRange-policy_of :
    (heap : Heap) (v : Value) → policy_in_range heap v ≡ true → PolicyInRange (policy_of heap v)
unfolding policy_in_range policy_of
PolicyInRange-policy_of heap v h = record {
  attempts = bounded_range (get heap v (text "max_attempts")) 1 8 (ground arith);
  timeout = bounded_range (get heap v (text "timeout_ms")) 1 3_600_000 (ground arith);
  initial = (
    (bounded_range (get heap v (text "initial_backoff_ms")) 1 60_000 (ground arith)).0,
    (bounded_range (get heap v (text "max_backoff_ms"))
        (to_nat (get heap v (text "initial_backoff_ms"))) 60_000 (ground arith)).0,
  );
  largest =
      (bounded_range (get heap v (text "max_backoff_ms"))
        (to_nat (get heap v (text "initial_backoff_ms"))) 60_000 (ground arith)).1;
}

server_range :
    (heap : Heap) (v : Value)
    → attempt_in_range heap v ≡ true
    → or_zero (attempt_of heap v).retry_after_ms ≤ 3_600_000
unfolding attempt_in_range attempt_of
server_range heap v h = elim (Bool-cases (object_has heap v (text "retry_after_ms"))) [
  | inl given ↦
      rw given (bounded_range (get heap v (text "retry_after_ms")) 0 3_600_000 (ground arith)).1
  | inr absent ↦ rw absent (omega arith)
]

pub AttemptInRange-attempt_of :
    (heap : Heap) (v : Value) → attempt_in_range heap v ≡ true → AttemptInRange (attempt_of heap v)
unfolding attempt_in_range attempt_of
AttemptInRange-attempt_of heap v h = record {
  completed = bounded_range (get heap v (text "attempts_completed")) 1 8 (ground arith);
  elapsed = (bounded_range (get heap v (text "elapsed_ms")) 0 3_600_000 (ground arith)).1;
  code = (bounded_range (get heap v (text "code")) 0 16 (ground arith)).1;
  jitter = (bounded_range (get heap v (text "jitter_permille")) 0 1000 (ground arith)).1;
  server = server_range heap v h;
}

pow-le : (k : ℕ) → k ≤ 7 → 2 ^ k ≤ 128
pow-le zero h = omega arith
pow-le (suc zero) h = omega arith
pow-le (suc (suc zero)) h = omega arith
pow-le (suc (suc (suc zero))) h = omega arith
pow-le (suc (suc (suc (suc zero)))) h = omega arith
pow-le (suc (suc (suc (suc (suc zero))))) h = omega arith
pow-le (suc (suc (suc (suc (suc (suc zero)))))) h = omega arith
pow-le (suc (suc (suc (suc (suc (suc (suc zero))))))) h = omega arith
pow-le (suc (suc (suc (suc (suc (suc (suc (suc k)))))))) h = absurd (omega arith)

mul_le : (a b m n : ℕ) → a ≤ m → b ≤ n → a * b ≤ m * n
mul_le a b m n h k = mul-le-mul h k

jitter_le : (c j : ℕ) → j ≤ 1000 → c * j / 1000 ≤ c
jitter_le c j h = grind arith

-- Every product that the code forms is a safe integer, so that floating-point arithmetic is exact.
products_safe :
    (p : Policy) (a : Attempt)
    → PolicyInRange p
    → AttemptInRange a
    → (p.initial_backoff_ms * 2 ^ (a.attempts_completed - 1) ≤ max_safe)
      × (backoff_cap p a * a.jitter_permille ≤ max_safe)
unfolding backoff_cap
products_safe p a hp ha = (
  omega (
    arith,
    mul_le p.initial_backoff_ms (2 ^ (a.attempts_completed - 1)) 60_000 128 (omega arith)
        (pow-le (a.attempts_completed - 1) (omega arith)),
  ),
  omega (arith, mul_le (backoff_cap p a) a.jitter_permille 60_000 1000 (omega arith) (omega arith)),
)

retry_delay_range :
    (p : Policy) (a : Attempt)
    → AttemptInRange a
    → (or_zero a.retry_after_ms ≤ retry_delay p a)
      × (retry_delay p a ≤ max p.max_backoff_ms (or_zero a.retry_after_ms))
unfolding retry_delay backoff_cap
retry_delay_range p a ha = ground (arith, jitter_le (backoff_cap p a) a.jitter_permille)

valid_parts :
    (heap : Heap) (policy attempt : Value)
    → is_valid heap policy attempt ≡ true
    → PolicyInRange (policy_of heap policy) × AttemptInRange (attempt_of heap attempt)
valid_parts heap policy attempt h = (
  PolicyInRange-policy_of heap policy (ground arith),
  AttemptInRange-attempt_of heap attempt (ground arith),
)

-- A planned delay is never below the server's minimum and never above the larger of that and the
-- backoff cap, and it ends before the deadline.
pub plan_rpc_retry_bounds :
    (heap : Heap) (policy attempt : Value)
    → (plan_rpc_retry heap policy attempt).retry ≡ true
    → (or_zero (attempt_of heap attempt).retry_after_ms
        ≤ (plan_rpc_retry heap policy attempt).delay_ms)
      × ((plan_rpc_retry heap policy attempt).delay_ms
          ≤ max
              (policy_of heap policy).max_backoff_ms
              (or_zero (attempt_of heap attempt).retry_after_ms))
      × ((attempt_of heap attempt).elapsed_ms + (plan_rpc_retry heap policy attempt).delay_ms
          < (policy_of heap policy).timeout_ms)
plan_rpc_retry_bounds heap policy attempt h =
    let (valid, granted) = (plan_rpc_retry_iff heap policy attempt).0 h in
    let (in_policy, in_attempt) = valid_parts heap policy attempt valid in
    let (low, high) =
      retry_delay_range (policy_of heap policy) (attempt_of heap attempt) in_attempt in
    (rw granted.planned low, rw granted.planned high, granted.in_time)

-- For a valid input the products of the backoff and of the jitter are safe integers, so that the
-- floating-point arithmetic of the source is exact.
pub plan_products_safe :
    (heap : Heap) (policy attempt : Value)
    → is_valid heap policy attempt ≡ true
    → ((policy_of heap policy).initial_backoff_ms
          * 2 ^ ((attempt_of heap attempt).attempts_completed - 1)
        ≤ max_safe)
      × (backoff_cap (policy_of heap policy) (attempt_of heap attempt)
            * (attempt_of heap attempt).jitter_permille
          ≤ max_safe)
plan_products_safe heap policy attempt h =
    let (in_policy, in_attempt) = valid_parts heap policy attempt h in
    products_safe (policy_of heap policy) (attempt_of heap attempt) in_policy in_attempt
