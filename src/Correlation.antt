-- ===== src/Correlation.antt =====
-- langs/typescript/src/index.js: `validCorrelationId`.
use ores_lib_core.Base.{
  ℕ, ◌≤◌, Bool, true, false, ◌&&◌, ◌||◌, Text, every, All, length, nat_eq, ◌==◌, leb, is_lower,
  is_upper, is_digit, arith, ◌≡◌, refl, every_iff, ◌↔◌, ◌⊎◌,
}
use ores_lib_core.Js.{Value, str_injective, str}

-- [A-Za-z0-9._:-]
abbrev portable : ℕ → Bool
portable c =
    is_upper c || is_lower c || is_digit c || c == b'.' || c == b'_' || c == b':' || c == b'-'

-- The text that passes: the class repeated at least once, from the start to the end.
valid_text : Text → Bool
valid_text s = leb 8 (length s) && (leb (length s) 128 && (leb 1 (length s) && every portable s))

unfoldable pub valid_correlation_id : Value → Bool
unfolding valid_text
valid_correlation_id (str s) = valid_text s
valid_correlation_id _ = false

-- The characters that an identifier may hold, as ranges of code units.
abbrev pub IsPortable : ℕ → Type 0
IsPortable c =
    ((b'A' ≤ c) × (c ≤ b'Z'))
    ⊎ ((b'a' ≤ c) × (c ≤ b'z'))
    ⊎ ((b'0' ≤ c) × (c ≤ b'9'))
    ⊎ (c ≡ b'.')
    ⊎ (c ≡ b'_')
    ⊎ (c ≡ b':')
    ⊎ (c ≡ b'-')

portable_iff : (c : ℕ) → (portable c ≡ true) ↔ IsPortable c
portable_iff c = ground arith

valid_text_iff :
    (s : Text) → (valid_text s ≡ true) ↔ ((8 ≤ length s) × (length s ≤ 128) × All IsPortable s)
unfolding valid_text
valid_text_iff s =
    let (to, from) = every_iff portable IsPortable s portable_iff in
    (
      (λ h. (ground arith, ground arith, to (ground arith))),
      (λ (low, high, all). let ok = from all in ground arith),
    )

-- A value is a correlation identifier exactly if it is a string of 8 to 128 code units, each of
-- them portable.
pub valid_correlation_id_iff :
    (v : Value)
    → (valid_correlation_id v ≡ true)
      ↔ ((s : Text) × (v ≡ str s) × (8 ≤ length s) × (length s ≤ 128) × All IsPortable s)
unfolding valid_correlation_id
valid_correlation_id_iff (str s) = (
  (λ h. let (low, high, all) = (valid_text_iff s).0 h in (s, refl, low, high, all)),
  (λ (t, e, low, high, all). rw (str_injective e) ((valid_text_iff t).1 (low, high, all))),
)
valid_correlation_id_iff v = ground arith
