-- ===== src/Redaction.antt =====
-- langs/typescript/src/index.js: `isSensitiveField`, `redactRecord` and the class `Secret`.
pub mod Laws
use ores_lib_core.Base.{
  ℕ, ◌+◌, ◌≤◌, Bool, true, false, ◌&&◌, ◌||◌, List, [], ◌∷◌, ◌++◌, map, Text, text, strip,
  ends_with, filter, any, nat_eq, list_eq, ◌==◌, leb, if◌then◌else◌, is_lower, is_upper, is_digit,
}

pub redacted : Text
redacted = text "[REDACTED]"

-- SENSITIVE
unfoldable pub sensitive : List Text
unfolding text
sensitive =
    text "authorization"
    ∷ text "cookie"
    ∷ text "password"
    ∷ text "secret"
    ∷ text "token"
    ∷ text "email"
    ∷ text "normalized_email"
    ∷ text "email_lookup_hmac"
    ∷ text "access_token"
    ∷ text "refresh_token"
    ∷ text "id_token"
    ∷ text "client_secret"
    ∷ text "private_key"
    ∷ text "totp_seed"
    ∷ text "webauthn_challenge"
    ∷ text "face_image"
    ∷ text "face_template"
    ∷ text "fingerprint_image"
    ∷ text "fingerprint_template"
    ∷ text "biometric_template"
    ∷ text "voiceprint"
    ∷ []

-- The white space and line terminators that `trim` removes.
abbrev pub is_space : ℕ → Bool
is_space c =
    (leb 9 c && leb c 13)
    || c == 32
    || c == 160
    || c == 0x1680
    || (leb 0x2000 c && leb c 0x200a)
    || c == 0x2028
    || c == 0x2029
    || c == 0x202f
    || c == 0x205f
    || c == 0x3000
    || c == 0xfeff

-- `toLowerCase` on one code unit. Besides A to Z two characters have an ASCII letter in their lower
-- case: U+212A is "k", and U+0130 is "i" with U+0307. Every other character stands for its lower
-- case, which holds no ASCII character either.
unfoldable pub lower_unit : ℕ → Text
lower_unit c =
    if is_upper c
    then (c + 32) ∷ []
    else if c == 0x212a
    then b'k' ∷ []
    else if c == 0x130
    then b'i' ∷ 0x307 ∷ []
    else c ∷ []

unfoldable pub to_lower_case : Text → Text
to_lower_case [] = []
to_lower_case (c ∷ s) = lower_unit c ++ to_lower_case s

-- .replace(/[^a-z0-9]/g, "")
abbrev pub is_alnum : ℕ → Bool
is_alnum c = is_lower c || is_digit c

abbrev pub alnum : Text → Text
alnum s = filter is_alnum s

unfoldable pub compact : Text → Text
unfolding to_lower_case lower_unit
compact key = alnum (to_lower_case (strip is_space key))

-- The test of one field in the callback of `some`.
unfoldable pub field_matches : Text → Text → Bool
field_matches found field =
    let expected = alnum field in found == expected || ends_with found expected

unfoldable pub is_sensitive_field : Text → Bool
unfolding compact sensitive field_matches
is_sensitive_field key = any (field_matches (compact key)) sensitive

-- The values of a record are of any type that holds the strings.
module _ {V : Type 0} (string : Text → V) where
  abbrev redact_entry : Text × V → Text × V
  redact_entry (key, value) = (key, if is_sensitive_field key then string redacted else value)

  -- A record is its list of own enumerable string-keyed entries.
  unfoldable pub redact_record : List (Text × V) → List (Text × V)
  redact_record record_entries = map redact_entry record_entries

-- The private field can be read by `expose` alone.
pub record Secret (V : Type 0) : Type 0 where
  hidden : V

module _ {V : Type 0} where
  unfoldable pub new_secret : V → Secret V
  new_secret value = record { hidden = value }

  unfoldable pub expose : {R : Type 0} → Secret V → (V → R) → R
  expose secret action = action secret.hidden

  unfoldable pub to_string : Secret V → Text
  to_string secret = redacted

  unfoldable pub to_json : Secret V → Text
  to_json secret = redacted
