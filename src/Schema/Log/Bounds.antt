-- ===== src/Schema/Log/Bounds.antt =====
-- validate.js: the checks keep at most a hundred diagnostics.
use ores_lib_core.Base.{
  ℕ, suc, ◌≤◌, Bool, true, false, inl, inr, List, [], ◌∷◌, Text, length, length-append, ltb, arith,
  Bool-cases,
}
use ores_lib_core.Schema.Log.{Log, error, error_if, if_passed, each_from, each_with}

unfoldable pub IsBounded : Log → Type 0
IsBounded log = length log ≤ 100

pub error-IsBounded :
    (code path message : Text) (log : Log) → IsBounded log → IsBounded (error code path message log)
unfolding error IsBounded
error-IsBounded code path message log h = elim (Bool-cases (ltb (length log) 100)) [
  | inl t ↦ rw t (
      ground
        (arith, length-append log (record { code = code; path = path; message = message } ∷ [])))
  | inr f ↦ rw f h
]

pub error_if-IsBounded :
    (b : Bool) (code path message : Text) (log : Log)
    → IsBounded log
    → IsBounded (error_if b code path message log)
error_if-IsBounded true code path message log h = error-IsBounded code path message log h
error_if-IsBounded false code path message log h = h

pub if_passed-IsBounded :
    (r : Bool × Log) (rest : Log → Log)
    → IsBounded r.1
    → ((log : Log) → IsBounded log → IsBounded (rest log))
    → IsBounded (if_passed r rest)
if_passed-IsBounded (true, log) rest h f = f log h
if_passed-IsBounded (false, log) rest h f = h

module _ {A : Type 0} where
  pub each_from-IsBounded :
      (check : ℕ → A → Log → Log) (i : ℕ) (xs : List A) (log : Log)
      → ((i : ℕ) (x : A) (log : Log) → IsBounded log → IsBounded (check i x log))
      → IsBounded log
      → IsBounded (each_from i check xs log)
  unfolding each_from
  each_from-IsBounded check i [] log f h = h
  each_from-IsBounded check i (x ∷ xs) log f h =
      each_from-IsBounded check (suc i) xs (check i x log) f (f i x log h)

  pub each_with-IsBounded :
      {S : Type 0} (check : ℕ → A → S → Log → S × Log) (i : ℕ) (xs : List A) (s : S) (log : Log)
      → ((i : ℕ) (x : A) (s : S) (log : Log) → IsBounded log → IsBounded (check i x s log).1)
      → IsBounded log
      → IsBounded (each_with i check xs s log).1
  unfolding each_with
  each_with-IsBounded check i [] s log f h = h
  each_with-IsBounded check i (x ∷ xs) s log f h =
      each_with-IsBounded check (suc i) xs (check i x s log).0 (check i x s log).1 f (f i x s log h)
