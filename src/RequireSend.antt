-- ===== src/RequireSend.antt =====
-- .ores-lint/require-send.mjs: the linter of Rust, Dart and Gleam sources that looks for logging
-- chains that are never delivered. Its names and settings; the tokens, the chain walks, the analysis
-- and the report are the modules below.
pub mod Token
pub mod Suppress
pub mod Chain
pub mod Scopes
pub mod Analyze
pub mod Report
use ores_lib_core.Base.{
  ℕ, ◌+◌, ◌||◌, Bool, true, false, List, [], ◌∷◌, map, Text, text, list_eq, nat_eq, ◌==◌, is_upper,
  includes, ends_with, split, if◌then◌else◌,
}

-- LEVEL
unfoldable pub levels : List Text
unfolding text
levels =
    text "trace"
    ∷ text "debug"
    ∷ text "info"
    ∷ text "log"
    ∷ text "warn"
    ∷ text "error"
    ∷ text "fatal"
    ∷ []

-- TERMINAL
unfoldable pub terminals : List Text
unfolding text
terminals = text "send" ∷ text "send_with_store" ∷ []

unfoldable pub is_level : Text → Bool
unfolding levels includes
is_level name = includes levels name

unfoldable pub is_terminal : Text → Bool
unfolding terminals includes
is_terminal name = includes terminals name

-- What the flag `i` compares: no character outside ASCII stands for an ASCII letter.
abbrev pub fold : Text → Text
fold s = map (λ c. if is_upper c then c + 32 else c) s

-- name.split('.').pop()
unfoldable pub last_part : List Text → Text
last_part [] = []
last_part (x ∷ []) = x
last_part (x ∷ y ∷ xs) = last_part (y ∷ xs)

unfoldable pub base_name : Text → Text
unfolding last_part split
base_name name = last_part (split b'.' name)

unfoldable pub logger_names : List Text
unfolding text
logger_names =
    text "log"
    ∷ text "logger"
    ∷ text "ddlog"
    ∷ text "telemetry"
    ∷ text "audit"
    ∷ text "self"
    ∷ text "this"
    ∷ []

-- The three regular expressions, on the base with its case folded.
unfoldable pub is_logger_base : Text → Bool
unfolding logger_names text ends_with includes
is_logger_base base =
    includes logger_names base
    || ends_with base (text "logger")
    || base == text "log"
    || ends_with base (text "_log")

unfoldable pub looks_like_logger : Text → Bool
unfolding is_logger_base base_name
looks_like_logger [] = false
looks_like_logger (c ∷ s) = is_logger_base (fold (base_name (c ∷ s)))
