-- ===== src/Email/Form.antt =====
-- The form of an address that `normalizeEmailForRevocation` returns, stated without its steps.
use ores_lib_core.Base.{
  ℕ, ◌≤◌, ◌≡◌, sym, ap, ◌∙◌, Bool, true, false, List, [], ◌∷◌, ◌++◌, Text, text, every, every_iff,
  any, All, length, split, join, join-split, starts_with, ends_with, includes_text, arith, nat_eq,
}
use ores_lib_core.Email.{
  ok, is_local_char, is_label_char, local_invalid, label_invalid, domain_invalid, check_parts,
}

abbrev pub LocalChars : Text → Type 0
LocalChars = All (λ c. is_local_char c ≡ true)

-- 1 to 64 characters of the class, no dot at either end and no two dots together.
pub record IsLocal (s : Text) : Type 0 where
  pub filled : 1 ≤ length s
  pub short : length s ≤ 64
  pub chars : LocalChars s
  pub no_first_dot : starts_with s (text ".") ≡ false
  pub no_last_dot : ends_with s (text ".") ≡ false
  pub no_two_dots : includes_text s (text "..") ≡ false

-- 1 to 63 letters, digits and dashes, with no dash at either end.
pub record IsLabel (s : Text) : Type 0 where
  pub filled : 1 ≤ length s
  pub short : length s ≤ 63
  pub chars : All (λ c. is_label_char c ≡ true) s
  pub no_first_dash : starts_with s (text "-") ≡ false
  pub no_last_dash : ends_with s (text "-") ≡ false

-- At most 255 characters: two labels or more, joined by dots.
pub record IsDomain (s : Text) : Type 0 where
  pub short : length s ≤ 255
  pub labels : List Text
  pub joined : join (b'.' ∷ []) labels ≡ s
  pub several : 2 ≤ length labels
  pub each : All IsLabel labels

-- A local part and a domain round one "@".
pub record IsAddress (s : Text) : Type 0 where
  pub local : Text
  pub domain : Text
  pub whole : s ≡ local ++ b'@' ∷ domain
  pub local_ok : IsLocal local
  pub domain_ok : IsDomain domain

every-All : (p : ℕ → Bool) (s : Text) → every p s ≡ true → All (λ c. p c ≡ true) s
every-All p s h = (every_iff p (λ c. p c ≡ true) s (λ c. ((λ e. e), (λ e. e)))).0 h

IsLocal-local_invalid : (s : Text) → local_invalid s ≡ false → IsLocal s
unfolding local_invalid
IsLocal-local_invalid s h = record {
  filled = ground arith;
  short = ground arith;
  chars = every-All is_local_char s (ground arith);
  no_first_dot = ground arith;
  no_last_dot = ground arith;
  no_two_dots = ground arith;
}

IsLabel-label_invalid : (s : Text) → label_invalid s ≡ false → IsLabel s
unfolding label_invalid
IsLabel-label_invalid s h = record {
  filled = ground arith;
  short = ground arith;
  chars = every-All is_label_char s (ground arith);
  no_first_dash = ground arith;
  no_last_dash = ground arith;
}

labels-IsLabel : (xs : List Text) → any label_invalid xs ≡ false → All IsLabel xs
labels-IsLabel [] h = tt
labels-IsLabel (x ∷ xs) h =
    (IsLabel-label_invalid x (ground arith), labels-IsLabel xs (ground arith))

IsDomain-domain_invalid : (s : Text) → domain_invalid s ≡ false → IsDomain s
unfolding domain_invalid
IsDomain-domain_invalid s h = record {
  short = ground arith;
  labels = split b'.' s;
  joined = join-split b'.' s;
  several = ground arith;
  each = labels-IsLabel (split b'.' s) (ground arith);
}

two_parts :
    (s l d r : Text)
    → check_parts s (l ∷ d ∷ []) ≡ ok r
    → (s ≡ r) × (local_invalid l ≡ false) × (domain_invalid d ≡ false)
unfolding check_parts
two_parts s l d r h = (ground arith, ground arith, ground arith)

-- What passes the checks on its parts is an address, and is returned as it is.
pub check_parts-IsAddress :
    (s : Text) (parts : List Text) (r : Text)
    → split b'@' s ≡ parts
    → check_parts s parts ≡ ok r
    → (s ≡ r) × IsAddress s
unfolding check_parts join
check_parts-IsAddress s (l ∷ d ∷ []) r e h =
    let (same, local_ok, domain_ok) = two_parts s l d r h in
    (
      same,
      record {
        local = l;
        domain = d;
        whole = sym (join-split b'@' s) ∙ ap (join (b'@' ∷ [])) e;
        local_ok = IsLocal-local_invalid l local_ok;
        domain_ok = IsDomain-domain_invalid d domain_ok;
      },
    )
check_parts-IsAddress s [] r e h = ground arith
check_parts-IsAddress s (l ∷ []) r e h = ground arith
check_parts-IsAddress s (l ∷ d ∷ x ∷ xs) r e h = ground arith
