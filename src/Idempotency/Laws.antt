-- ===== src/Idempotency/Laws.antt =====
-- The comparison without an early exit decides equality, and every outcome of the classification.
use Prim.Native.Nat.{bit_or, bit_xor}
use mathlib.Core.Path.{ap₂}
use ores_lib_core.Base.{ℕ, suc, ◌<◌, ◌≡◌, ◌≢◌, refl, ◌↔◌, List, [], ◌∷◌, All, length, nat_eq, arith}
use ores_lib_core.Idempotency.{
  Argument, undefined, bytes, other, new, replay, conflict, returns, bad_incoming, bad_existing,
  reduce_from, classify_idempotency,
}
use ores_lib_core.Idempotency.Bytes.{xor-eq-zero_iff, or-eq-zero_iff, or-lt, xor-lt}

abbrev pub Bytes : List ℕ → Type 0
Bytes = All (λ b. b < 256)

reduce_from-tail :
    (x : ℕ) (xs : List ℕ) (i acc : ℕ) (rest : List ℕ)
    → reduce_from (x ∷ xs) (suc i) acc rest ≡ reduce_from xs i acc rest
unfolding reduce_from
reduce_from-tail x xs i acc [] = refl
reduce_from-tail x xs i acc (b ∷ rest) = reduce_from-tail x xs (suc i) _ rest

-- The fold gives 0 exactly if it starts from 0 and the two lists are equal.
reduce_from_zero :
    (xs ys : List ℕ) (acc : ℕ)
    → length xs ≡ length ys
    → Bytes xs
    → Bytes ys
    → acc < 256
    → (reduce_from ys 0 acc xs ≡ 0) ↔ ((acc ≡ 0) × (xs ≡ ys))
unfolding reduce_from
reduce_from_zero [] [] acc n bx by h = ((λ e. (e, refl)), (λ (e, k). e))
reduce_from_zero [] (y ∷ ys) acc n bx by h = absurd (omega arith)
reduce_from_zero (x ∷ xs) [] acc n bx by h = absurd (omega arith)
reduce_from_zero (x ∷ xs) (y ∷ ys) acc n (hx, bx) (hy, by) h =
    let x_lt = xor-lt x y hx hy in
    let rest =
      reduce_from_zero xs ys (bit_or acc (bit_xor x y)) (omega arith) bx by
        (or-lt acc (bit_xor x y) h x_lt) in
    let split = or-eq-zero_iff acc (bit_xor x y) h x_lt in
    let same = xor-eq-zero_iff x y hx hy in
    rw (reduce_from-tail y ys 0 (bit_or acc (bit_xor x y)) xs) (
      (λ e.
          let (z, tails) = rest.0 e in
          let (z', z'') = split.0 z in (z', ap₂ ◌∷◌ (same.0 z'') tails)),
      (λ (z, e). rest.1 (split.1 (z, same.1 (ground arith)), ground arith)),
    )

-- A digest: 32 bytes.
pub record IsDigest (xs : List ℕ) : Type 0 where
  pub size : length xs ≡ 32
  pub in_range : Bytes xs

-- For two digests the answer is a replay exactly if they are equal, and a conflict exactly if not.
pub classify-digests :
    (existing incoming : List ℕ)
    → IsDigest existing
    → IsDigest incoming
    → ((classify_idempotency (bytes existing) (bytes incoming) ≡ returns replay)
        ↔ (existing ≡ incoming))
      × ((classify_idempotency (bytes existing) (bytes incoming) ≡ returns conflict)
          ↔ (existing ≢ incoming))
unfolding classify_idempotency
classify-digests existing incoming e i =
    let decides =
      reduce_from_zero existing incoming 0 (omega arith) e.in_range i.in_range (omega arith) in
    (
      ((λ h. (decides.0 (ground arith)).1), (λ same. ground (arith, decides.1 (refl, same)))),
      ((λ h same. ground (arith, decides.1 (refl, same))), (λ other. ground (arith, decides.0))),
    )

abbrev pub Is32 : Argument → Type 0
Is32 (bytes xs) = length xs ≡ 32
Is32 _ = ⊥

-- The incoming digest is checked first; a request is new exactly if there is no existing digest.
pub classify-cases :
    (existing incoming : Argument)
    → ((classify_idempotency existing incoming ≡ bad_incoming) ↔ (¬ Is32 incoming))
      × ((classify_idempotency existing incoming ≡ returns new)
          ↔ (Is32 incoming × (existing ≡ undefined)))
      × ((classify_idempotency existing incoming ≡ bad_existing)
          ↔ (Is32 incoming × (existing ≢ undefined) × (¬ Is32 existing)))
unfolding classify_idempotency
classify-cases undefined (bytes ys) = ground arith
classify-cases (bytes xs) (bytes ys) = ground arith
classify-cases other (bytes ys) = ground arith
classify-cases existing incoming = ground arith
