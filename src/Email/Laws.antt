-- ===== src/Email/Laws.antt =====
-- What `normalizeEmailForRevocation` promises: the form of its result, and that it is a normal form.
use ores_lib_core.Base.{
  ℕ, ◌≤◌, ◌≡◌, refl, subst, ap, ◌∙◌, true, [], ◌∷◌, map, Text, every, length, split, strip,
  strip_idem, strip-map, arith, nat_eq, length-map,
}
use ores_lib_core.Js.{Value, str}
use ores_lib_core.Email.{
  ok, is_ascii, check_parts, lower_ascii, is_blank, normalize_text, normalize_email_for_revocation,
}
use ores_lib_core.Email.Form.{IsAddress, check_parts-IsAddress}

lower_blank : (c : ℕ) → is_blank (lower_ascii c) ≡ is_blank c
lower_blank c = ground arith

lower_idem : (c : ℕ) → lower_ascii (lower_ascii c) ≡ lower_ascii c
lower_idem c = ground arith

map-lower_idem : (s : Text) → map lower_ascii (map lower_ascii s) ≡ map lower_ascii s
map-lower_idem [] = refl
map-lower_idem (c ∷ s) = rw (lower_idem c, map-lower_idem s)

every-lower : (s : Text) → every is_ascii s ≡ true → every is_ascii (map lower_ascii s) ≡ true
every-lower [] h = refl
every-lower (c ∷ s) h = ground (arith, every-lower s)

-- The checks on the trimmed text.
pub record IsTrimmed (s : Text) : Type 0 where
  pub filled : 1 ≤ length s
  pub short : length s ≤ 320
  pub ascii : every is_ascii s ≡ true

-- Success means that the trimmed text passed, and that its lower case passed the check of parts.
normalize_text-eq-ok :
    (s r : Text)
    → normalize_text s ≡ ok r
    → IsTrimmed (strip is_blank s)
      × (check_parts
            (map lower_ascii (strip is_blank s))
            (split b'@' (map lower_ascii (strip is_blank s)))
          ≡ ok r)
unfolding normalize_text
normalize_text-eq-ok s r h =
    (record { filled = ground arith; short = ground arith; ascii = ground arith }, ground arith)

normalize_text_of :
    (s r : Text)
    → IsTrimmed (strip is_blank s)
    → check_parts
        (map lower_ascii (strip is_blank s))
        (split b'@' (map lower_ascii (strip is_blank s)))
      ≡ ok r
    → normalize_text s ≡ ok r
unfolding normalize_text
normalize_text_of s r t h = ground arith

-- The result is the trimmed text in lower case.
pub normalize_text-value :
    (s r : Text) → normalize_text s ≡ ok r → map lower_ascii (strip is_blank s) ≡ r
normalize_text-value s r h = (check_parts-IsAddress _ _ r refl (normalize_text-eq-ok s r h).1).0

strip-lower :
    (s : Text)
    → strip is_blank (map lower_ascii (strip is_blank s)) ≡ map lower_ascii (strip is_blank s)
strip-lower s =
    strip-map is_blank lower_ascii lower_blank (strip is_blank s)
    ∙ ap (map lower_ascii) (strip_idem is_blank s)

lower-IsTrimmed : (s : Text) → IsTrimmed s → IsTrimmed (map lower_ascii s)
lower-IsTrimmed s t = record {
  filled = omega (arith, length-map lower_ascii s);
  short = omega (arith, length-map lower_ascii s);
  ascii = every-lower s t.ascii;
}

normalize_text-lower :
    (s r : Text)
    → normalize_text s ≡ ok r
    → normalize_text (map lower_ascii (strip is_blank s)) ≡ ok r
normalize_text-lower s r h =
    let (trimmed, checked) = normalize_text-eq-ok s r h in
    normalize_text_of (map lower_ascii (strip is_blank s)) r
      (rw (strip-lower s) (lower-IsTrimmed (strip is_blank s) trimmed))
      (rw (strip-lower s, map-lower_idem (strip is_blank s)) checked)

normalize_text_idem : (s r : Text) → normalize_text s ≡ ok r → normalize_text r ≡ ok r
normalize_text_idem s r h =
    subst (λ x. normalize_text x ≡ ok r) (normalize_text-value s r h) (normalize_text-lower s r h)

normalize_text-IsAddress : (s r : Text) → normalize_text s ≡ ok r → (length r ≤ 320) × IsAddress r
normalize_text-IsAddress s r h =
    let (trimmed, checked) = normalize_text-eq-ok s r h in
    let (same, form) = check_parts-IsAddress _ _ r refl checked in
    let low = lower-IsTrimmed (strip is_blank s) trimmed in
    (rw (← same) low.short, subst IsAddress same form)

-- Whatever is returned is an address: of at most 320 characters, with a valid local part and domain.
pub normalize_email-IsAddress :
    (v : Value) (r : Text)
    → normalize_email_for_revocation v ≡ ok r
    → (length r ≤ 320) × IsAddress r
unfolding normalize_email_for_revocation
normalize_email-IsAddress (str s) r h = normalize_text-IsAddress s r h
normalize_email-IsAddress v r h = cc

-- A returned address is returned as it is when it is normalised again.
pub normalize_email_idempotent :
    (v : Value) (r : Text)
    → normalize_email_for_revocation v ≡ ok r
    → normalize_email_for_revocation (str r) ≡ ok r
unfolding normalize_email_for_revocation
normalize_email_idempotent (str s) r h = normalize_text_idem s r h
normalize_email_idempotent v r h = cc
