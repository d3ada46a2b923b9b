-- ===== src/Email.antt =====
-- langs/typescript/src/index.js: `normalizeEmailForRevocation`.
pub mod Form
pub mod Laws
use ores_lib_core.Base.{
  ℕ, ◌+◌, ◌≤◌, Bool, true, false, not, ◌&&◌, ◌||◌, List, [], ◌∷◌, ◌++◌, map, Text, text, every, any,
  length, nat_eq, ◌==◌, leb, ltb, is_lower, is_upper, is_digit, starts_with, ends_with,
  includes_text, split, strip, if◌then◌else◌,
}
use ores_lib_core.Js.{Value, str}

-- The messages of the TypeErrors.
pub data EmailError : Type 0 where
  not_a_string empty too_long not_ascii bad_structure bad_local bad_domain : EmailError

pub data Result (A : Type 0) : Type 0 where
  ok : A → Result A
  err : EmailError → Result A

infixl 5 ◌>>=◌ ◌>>◌
abbrev pub ◌>>=◌ : {A B : Type 0} → Result A → (A → Result B) → Result B
ok a >>= f = f a
err e >>= f = err e

abbrev pub ◌>>◌ : {B : Type 0} → Result (Unit {0}) → Result B → Result B
m >> k = m >>= λ _. k

-- if (test) throw new TypeError(…)
abbrev pub throw_if : Bool → EmailError → Result (Unit {0})
throw_if true e = err e
throw_if false e = ok tt

-- [ \t\r\n]
abbrev pub is_blank : ℕ → Bool
is_blank c = c == 32 || c == 9 || c == 13 || c == 10

abbrev pub is_ascii : ℕ → Bool
is_ascii c = leb c 0x7f

-- `toLowerCase` on an ASCII character
abbrev pub lower_ascii : ℕ → ℕ
lower_ascii c = if is_upper c then c + 32 else c

-- [a-z0-9.!#$%&'*+/=?^_`{|}~-]
abbrev pub is_local_char : ℕ → Bool
is_local_char c =
    is_lower c
    || is_digit c
    || c == b'.'
    || c == b'!'
    || (leb b'#' c && leb c 0x27)
    || c == b'*'
    || c == b'+'
    || c == b'/'
    || c == b'='
    || c == b'?'
    || (leb b'^' c && leb c b'`')
    || (leb b'{' c && leb c b'~')
    || c == b'-'

-- [a-z0-9-]
abbrev pub is_label_char : ℕ → Bool
is_label_char c = is_lower c || is_digit c || c == b'-'

-- /^[…]+$/
abbrev pub matches : (ℕ → Bool) → Text → Bool
matches p s = leb 1 (length s) && every p s

unfoldable pub local_invalid : Text → Bool
unfolding text
local_invalid local =
    ltb 64 (length local)
    || starts_with local (text ".")
    || ends_with local (text ".")
    || includes_text local (text "..")
    || not (matches is_local_char local)

unfoldable pub label_invalid : Text → Bool
unfolding text
label_invalid label =
    length label == 0
    || ltb 63 (length label)
    || starts_with label (text "-")
    || ends_with label (text "-")
    || not (matches is_label_char label)

unfoldable pub domain_invalid : Text → Bool
unfolding label_invalid
domain_invalid domain =
    let labels = split b'.' domain in
    ltb 255 (length domain) || ltb (length labels) 2 || any label_invalid labels

-- The rest of the function for the two parts, and for any other number of parts.
unfoldable pub check_parts : Text → List Text → Result Text
unfolding local_invalid domain_invalid
check_parts normalized (local ∷ domain ∷ []) = do
  throw_if (length local == 0 || length domain == 0) bad_structure
  throw_if (local_invalid local) bad_local
  throw_if (domain_invalid domain) bad_domain
  ok normalized
check_parts normalized _ = err bad_structure

unfoldable pub normalize_text : Text → Result Text
unfolding check_parts
normalize_text value = do
  let trimmed = strip is_blank value
  throw_if (length trimmed == 0) empty
  throw_if (ltb 320 (length trimmed)) too_long
  throw_if (not (matches is_ascii trimmed)) not_ascii
  let normalized = map lower_ascii trimmed
  check_parts normalized (split b'@' normalized)

unfoldable pub normalize_email_for_revocation : Value → Result Text
unfolding normalize_text
normalize_email_for_revocation (str value) = normalize_text value
normalize_email_for_revocation _ = err not_a_string
