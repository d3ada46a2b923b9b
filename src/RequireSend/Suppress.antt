-- ===== src/RequireSend/Suppress.antt =====
-- require-send.mjs: collectSuppressions and isDisabled.
pub mod Laws
use ores_lib_core.Base.{
  ℕ, zero, suc, ◌||◌, ◌&&◌, Bool, false, List, [], ◌∷◌, Text, text, nat_eq, starts_with, drop,
  drop_while, includes, split, length, if◌then◌else◌,
}
use ores_lib_core.Redaction.{is_space}

pub record Suppressions : Type 0 where
  pub file : Bool
  pub lines : List ℕ
  pub next : List ℕ

-- /\s+rule/ at the start of a text
unfoldable pub followed_by : Text → Text → Bool
followed_by rule [] = false
followed_by rule (c ∷ s) = is_space c && starts_with (drop_while is_space s) rule

-- /directive\s+rule/.test(s)
unfoldable pub has_directive : Text → Text → Text → Bool
has_directive directive rule [] = false
has_directive directive rule (c ∷ s) =
    (starts_with (c ∷ s) directive && followed_by rule (drop (length directive) (c ∷ s)))
    || has_directive directive rule s

unfoldable pub disables_file : Text → Bool
disables_file source = has_directive (text "ores-lint-disable-file") (text "require-send") source

unfoldable pub disables_line : Text → Bool
disables_line line =
    has_directive (text "ores-lint-disable-line") (text "require-send") line
    || has_directive (text "eslint-disable-line") (text "ores/require-send") line

unfoldable pub disables_next_line : Text → Bool
disables_next_line line =
    has_directive (text "ores-lint-disable-next-line") (text "require-send") line
    || has_directive (text "eslint-disable-next-line") (text "ores/require-send") line

-- The numbers of the lines that satisfy a test, from the number of the first one.
unfoldable pub lines_where : (Text → Bool) → ℕ → List Text → List ℕ
lines_where test n [] = []
lines_where test n (line ∷ raw) =
    let rest = lines_where test (suc n) raw in if test line then n ∷ rest else rest

unfoldable pub collect_suppressions : Text → Suppressions
collect_suppressions source = record {
  file = disables_file source;
  lines = lines_where disables_line 1 (split b'\n' source);
  next = lines_where disables_next_line 1 (split b'\n' source);
}

-- set.has(line - 1)
abbrev pub has_before : List ℕ → ℕ → Bool
has_before lines zero = false
has_before lines (suc n) = includes lines n

unfoldable pub is_disabled : Suppressions → ℕ → Bool
is_disabled suppressions line =
    suppressions.file
    || (includes suppressions.lines line || has_before suppressions.lines line)
    || has_before suppressions.next line
