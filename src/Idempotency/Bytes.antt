-- ===== src/Idempotency/Bytes.antt =====
-- Exclusive and inclusive or on bytes: both stay in a byte, and when they are 0.
use Prim.Native.Nat.{bit_or, bit_xor}
use ores_lib_core.Base.{
  ℕ, zero, suc, ◌<◌, ◌/◌, ◌≡◌, refl, Bool, true, false, ◌&&◌, not, ◌↔◌, nat_eq, ◌==◌, arith,
}

-- Facts on all pairs of bytes, by evaluation.
holds_under : (ℕ → Bool) → ℕ → Bool
holds_under test zero = true
holds_under test (suc n) = elim (test n) [ true ↦ holds_under test n | false ↦ false ]

holds_under-at :
    (test : ℕ → Bool) (bound b : ℕ) → b < bound → holds_under test bound ≡ true → test b ≡ true
unfolding holds_under
holds_under-at test zero b less table = elim less [ ]
holds_under-at test (suc n) b less table = ground (arith, holds_under-at test n b)

bool_eq : Bool → Bool → Bool
bool_eq true b = b
bool_eq false b = not b

-- The two operations stay in a byte, and are 0 together with their parts.
pair_ok : ℕ → ℕ → Bool
pair_ok a b =
    bool_eq (bit_xor a b == 0) (a == b)
    && (bool_eq (bit_or a b == 0) (a == 0 && b == 0)
        && ((bit_or a b / 256 == 0) && (bit_xor a b / 256 == 0)))

row_ok : ℕ → Bool
row_ok a = holds_under (pair_ok a) 256

byte_table : holds_under row_ok 256 ≡ true
unfolding holds_under row_ok pair_ok bool_eq
byte_table = refl

pair_table : (a b : ℕ) → a < 256 → b < 256 → pair_ok a b ≡ true
unfolding row_ok
pair_table a b ha hb =
    holds_under-at (pair_ok a) 256 b hb (holds_under-at row_ok 256 a ha byte_table)

pub xor-eq-zero_iff : (a b : ℕ) → a < 256 → b < 256 → (bit_xor a b ≡ 0) ↔ (a ≡ b)
unfolding pair_ok bool_eq
xor-eq-zero_iff a b ha hb = let ok = pair_table a b ha hb in ground (arith)

pub or-eq-zero_iff : (a b : ℕ) → a < 256 → b < 256 → (bit_or a b ≡ 0) ↔ ((a ≡ 0) × (b ≡ 0))
unfolding pair_ok bool_eq
or-eq-zero_iff a b ha hb = let ok = pair_table a b ha hb in ground (arith)

pub or-lt : (a b : ℕ) → a < 256 → b < 256 → bit_or a b < 256
unfolding pair_ok bool_eq
or-lt a b ha hb = let ok = pair_table a b ha hb in ground (arith)

pub xor-lt : (a b : ℕ) → a < 256 → b < 256 → bit_xor a b < 256
unfolding pair_ok bool_eq
xor-lt a b ha hb = let ok = pair_table a b ha hb in ground (arith)
