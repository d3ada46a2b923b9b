-- ===== src/Idempotency.antt =====
-- langs/typescript/src/index.js: `classifyIdempotency`.
mod Bytes
pub mod Laws
use Prim.Native.Nat.{bit_or, bit_xor}
use ores_lib_core.Base.{
  ℕ, zero, suc, ◌≤◌, ◌<◌, ◌/◌, ◌≡◌, ◌≢◌, refl, ap, Bool, true, false, ◌&&◌, not, ◌↔◌, List, [], ◌∷◌,
  All, length, nat_eq, ◌==◌, if◌then◌else◌, arith, and_iff, Bool-cases, inl, inr,
}

-- An argument: undefined, a Uint8Array with its bytes, or any other value.
pub data Argument : Type 0 where
  undefined : Argument
  bytes : List ℕ → Argument
  other : Argument

pub data Disposition : Type 0 where
  new replay conflict : Disposition

-- `bad_incoming` and `bad_existing` are the two TypeErrors.
pub data Outcome : Type 0 where
  returns : Disposition → Outcome
  bad_incoming bad_existing : Outcome

-- incomingRequestDigest[index]; outside the array it is undefined, which `^` reads as 0.
abbrev byte_at : List ℕ → ℕ → ℕ
byte_at [] i = 0
byte_at (x ∷ xs) zero = x
byte_at (x ∷ xs) (suc i) = byte_at xs i

-- The fold over the bytes of the existing digest from `index` on.
reduce_from : List ℕ → ℕ → ℕ → List ℕ → ℕ
reduce_from incoming index acc [] = acc
reduce_from incoming index acc (byte ∷ rest) =
    reduce_from incoming (suc index) (bit_or acc (bit_xor byte (byte_at incoming index))) rest

unfoldable pub compare_digests : List ℕ → List ℕ → Disposition
unfolding reduce_from
compare_digests existing incoming =
    if not (length existing == length incoming)
    then conflict
    else if reduce_from incoming 0 0 existing == 0
    then replay
    else conflict

-- The tests of the existing digest, for a valid incoming one.
classify_existing : Argument → List ℕ → Outcome
unfolding compare_digests
classify_existing undefined incoming = returns new
classify_existing (bytes existing) incoming =
    if not (length existing == 32)
    then bad_existing
    else returns (compare_digests existing incoming)
classify_existing other incoming = bad_existing

unfoldable pub classify_idempotency : Argument → Argument → Outcome
unfolding classify_existing
classify_idempotency existing (bytes incoming) =
    if not (length incoming == 32) then bad_incoming else classify_existing existing incoming
classify_idempotency existing _ = bad_incoming
