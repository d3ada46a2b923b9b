-- ===== src/SchemaIr/Ensures.antt =====
-- What a check ensures of the value that it returns, by rules that follow the code.
use ores_lib_core.Base.{◌≡◌, refl, Bool, true, false, Text, subst}
use ores_lib_core.SchemaIr.{Outcome, returned, thrown, unfollowed, ◌>>=◌, ◌>>◌, fail, fail_if}

unfoldable pub Ensures : {A : Type 0} → (A → Type 0) → Outcome A → Type 0
Ensures P (returned a) = P a
Ensures P (thrown d) = Unit
Ensures P unfollowed = Unit

module _ {A : Type 0} (P : A → Type 0) where
  pub returned-Ensures : (a : A) → P a → Ensures P (returned a)
  unfolding Ensures
  returned-Ensures a p = p

  pub fail-Ensures : (code path message : Text) → Ensures P (fail code path message)
  unfolding Ensures fail
  fail-Ensures code path message = tt

  pub bind-Ensures :
      {B : Type 0} (Q : B → Type 0) (m : Outcome B) (f : B → Outcome A)
      → Ensures Q m
      → ((b : B) → Q b → Ensures P (f b))
      → Ensures P (m >>= f)
  unfolding Ensures ◌>>=◌
  bind-Ensures Q (returned b) f q h = h b q
  bind-Ensures Q (thrown d) f q h = tt
  bind-Ensures Q unfollowed f q h = tt

  -- A value of which nothing is asked
  pub any-Ensures :
      {B : Type 0} (m : Outcome B) (f : B → Outcome A)
      → ((b : B) → Ensures P (f b))
      → Ensures P (m >>= f)
  unfolding Ensures ◌>>=◌
  any-Ensures (returned b) f h = h b
  any-Ensures (thrown d) f h = tt
  any-Ensures unfollowed f h = tt

  pub then-Ensures : (m : Outcome (Unit {0})) (k : Outcome A) → Ensures P k → Ensures P (m >> k)
  unfolding Ensures ◌>>◌
  then-Ensures (returned u) k h = h
  then-Ensures (thrown d) k h = tt
  then-Ensures unfollowed k h = tt

  pub with-Ensures :
      (Q : Type 0) (m : Outcome (Unit {0})) (k : Outcome A)
      → Ensures (λ u. Q) m
      → (Q → Ensures P k)
      → Ensures P (m >> k)
  unfolding Ensures ◌>>◌
  with-Ensures Q (returned u) k q h = h q
  with-Ensures Q (thrown d) k q h = tt
  with-Ensures Q unfollowed k q h = tt

  -- What is ensured holds of every value that is returned.
  pub Ensures-returned : (m : Outcome A) (a : A) → Ensures P m → m ≡ returned a → P a
  unfolding Ensures
  Ensures-returned m a h e = subst (Ensures P) e h

-- After a guard its test is false.
pub fail_if-Ensures :
    (b : Bool) (code path message : Text)
    → Ensures (λ (u : Unit {0}). b ≡ false) (fail_if b code path message)
unfolding Ensures fail_if fail
fail_if-Ensures true code path message = tt
fail_if-Ensures false code path message = refl

pub Ensures-mono :
    {A : Type 0} (P Q : A → Type 0) (m : Outcome A)
    → Ensures P m
    → ((a : A) → P a → Q a)
    → Ensures Q m
unfolding Ensures
Ensures-mono P Q (returned a) h f = f a h
Ensures-mono P Q (thrown d) h f = tt
Ensures-mono P Q unfollowed h f = tt

pub Ensures-self : {A : Type 0} (m : Outcome A) → Ensures (λ a. m ≡ returned a) m
unfolding Ensures
Ensures-self (returned a) = refl
Ensures-self (thrown d) = tt
Ensures-self unfollowed = tt
