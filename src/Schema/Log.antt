-- ===== src/Schema/Log.antt =====
-- validate.js: the diagnostics and the closure `error`, which keeps the first hundred of them. A
-- check is a function from the diagnostics so far to those behind it.
pub mod Laws
pub mod Bounds
use ores_lib_core.Base.{
  ℕ, suc, Bool, true, false, List, [], ◌∷◌, ◌++◌, Text, length, ltb, if◌then◌else◌,
}

pub record Diagnostic : Type 0 where
  pub code : Text
  pub path : Text
  pub message : Text

abbrev pub Log : Type 0
Log = List Diagnostic

unfoldable pub error : Text → Text → Text → Log → Log
error code path message log =
    if ltb (length log) 100
    then log ++ record { code = code; path = path; message = message } ∷ []
    else log

-- if (test) error(…)
abbrev pub error_if : Bool → Text → Text → Text → Log → Log
error_if true code path message log = error code path message log
error_if false code path message log = log

-- if (!check(…)) return; the rest of the function
abbrev pub if_passed : Bool × Log → (Log → Log) → Log
if_passed (true, log) rest = rest log
if_passed (false, log) rest = log

-- xs.forEach((x, index) => …), from an index on
unfoldable pub each_from : {A : Type 0} → ℕ → (ℕ → A → Log → Log) → List A → Log → Log
each_from i check [] log = log
each_from i check (x ∷ xs) log = each_from (suc i) check xs (check i x log)

abbrev pub each : {A : Type 0} → (ℕ → A → Log → Log) → List A → Log → Log
each check xs log = each_from 0 check xs log

-- A loop that keeps a set beside the diagnostics.
unfoldable pub each_with :
    {S A : Type 0} → ℕ → (ℕ → A → S → Log → S × Log) → List A → S → Log → S × Log
each_with i check [] s log = (s, log)
each_with i check (x ∷ xs) s log =
    let (s, log) = check i x s log in each_with (suc i) check xs s log
