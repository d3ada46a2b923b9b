-- ===== src/Redaction/Laws.antt =====
-- Which keys are sensitive, and what a redacted record reveals.
use ores_lib_core.Base.{
  ℕ, true, false, List, [], ◌∷◌, ◌++◌, Text, strip, drop_while, drop_end, keep_unless, ends_with,
  filter-append, nat_eq, list_eq, ◌==◌, if◌then◌else◌, arith, ◌≡◌, refl, ap, lookup, any_mono, ◌∙◌,
  sym, Bool-cases, inl, inr, eq_iff,
}
use mathlib.Core.List.{append_assoc}
use mathlib.Core.Option
use ores_lib_core.Redaction.{
  redacted, sensitive, is_space, lower_unit, to_lower_case, is_alnum, alnum, compact, field_matches,
  is_sensitive_field, redact_record,
}

squash : Text → Text
squash s = alnum (to_lower_case s)

to_lower_case-append : (s t : Text) → to_lower_case (s ++ t) ≡ to_lower_case s ++ to_lower_case t
unfolding to_lower_case
to_lower_case-append [] t = refl
to_lower_case-append (c ∷ s) t = simp (to_lower_case-append s t, append_assoc)

squash-append : (s t : Text) → squash (s ++ t) ≡ squash s ++ squash t
unfolding squash
squash-append s t =
    ap alnum (to_lower_case-append s t) ∙ filter-append is_alnum (to_lower_case s) (to_lower_case t)

-- White space leaves nothing behind.
squash_space : (c : ℕ) → is_space c ≡ true → alnum (lower_unit c) ≡ []
unfolding lower_unit
squash_space c h = ground arith

squash-cons : (c : ℕ) (s : Text) → squash (c ∷ s) ≡ alnum (lower_unit c) ++ squash s
unfolding squash to_lower_case
squash-cons c s = filter-append is_alnum (lower_unit c) (to_lower_case s)

squash-drop_while : (s : Text) → squash (drop_while is_space s) ≡ squash s
unfolding drop_while
squash-drop_while [] = refl
squash-drop_while (c ∷ s) = elim (Bool-cases (is_space c)) [
  | inl t ↦ rw (t, squash-cons, squash_space c t) (squash-drop_while s)
  | inr f ↦ rw f
]

squash-keep_unless :
    (c : ℕ) (s : Text) → squash (keep_unless (is_space c) c s) ≡ alnum (lower_unit c) ++ squash s
unfolding squash to_lower_case
squash-keep_unless c [] = elim (Bool-cases (is_space c)) [
  | inl t ↦ rw (t, squash_space c t)
  | inr f ↦ rw f (squash-cons c [])
]
squash-keep_unless c (d ∷ s) = elim (Bool-cases (is_space c)) [
  | inl t ↦ rw t (squash-cons c (d ∷ s))
  | inr f ↦ rw f (squash-cons c (d ∷ s))
]

squash-drop_end : (s : Text) → squash (drop_end is_space s) ≡ squash s
unfolding drop_end
squash-drop_end [] = refl
squash-drop_end (c ∷ s) =
    squash-keep_unless c (drop_end is_space s)
    ∙ ap (λ t. alnum (lower_unit c) ++ t) (squash-drop_end s)
    ∙ sym (squash-cons c s)

compact-squash : (s : Text) → compact s ≡ squash s
unfolding compact strip squash
compact-squash s = squash-drop_end (drop_while is_space s) ∙ squash-drop_while s

ends_with-append : (p s e : Text) → ends_with s e ≡ true → ends_with (p ++ s) e ≡ true
unfolding ends_with
ends_with-append [] s e h = h
ends_with-append (c ∷ p) s e h = ground (arith, ends_with-append p s e h)

ends_with_self : (s e : Text) → (s == e) ≡ true → ends_with s e ≡ true
unfolding ends_with
ends_with_self [] e h = h
ends_with_self (c ∷ s) e h = rw h

field_matches-append :
    (p s field : Text) → field_matches s field ≡ true → field_matches (p ++ s) field ≡ true
unfolding field_matches
field_matches-append p s field h =
    let found : ends_with s (alnum field) ≡ true = ground (arith, ends_with_self s (alnum field)) in
    ground (arith, ends_with-append p s (alnum field) found)

-- A sensitive name stays sensitive behind any prefix, whatever separators, white space or capitals
-- either part has.
pub is_sensitive_field-append :
    (prefix key : Text) → is_sensitive_field key ≡ true → is_sensitive_field (prefix ++ key) ≡ true
unfolding is_sensitive_field
is_sensitive_field-append prefix key h =
    rw (compact-squash (prefix ++ key), squash-append prefix key)
      (any_mono (field_matches (squash key)) (field_matches (squash prefix ++ squash key)) sensitive
        (field_matches-append (squash prefix) (squash key)) (rw (compact-squash key) at h))

module _ {V : Type 0} (string : Text → V) where
  -- What a caller finds under a key.
  abbrev pub redacted_value : Text → V → V
  redacted_value key value = if is_sensitive_field key then string redacted else value

  -- Reading a key of a redacted record gives the marker if the key is sensitive and the record has
  -- it, and what the record has otherwise.
  pub lookup-redact_record :
      (key : Text) (r : List (Text × V))
      → lookup key (redact_record string r) ≡ Option.map (redacted_value key) (lookup key r)
  unfolding lookup redact_record
  lookup-redact_record key [] = refl
  lookup-redact_record key ((j, v) ∷ r) = elim (Bool-cases (j == key)) [
    | inl t ↦ rw (t, (eq_iff j key).0 t)
    | inr f ↦ rw f (lookup-redact_record key r)
  ]

  -- Two records with the same keys in the same order, sensitive ones included, that have the same
  -- value under every key that is not sensitive.
  abbrev pub Agree : List (Text × V) → List (Text × V) → Type 0
  Agree [] [] = Unit
  Agree ((k, v) ∷ r) ((j, w) ∷ s) = (k ≡ j) × (is_sensitive_field k ≡ false → v ≡ w) × Agree r s
  Agree _ _ = ⊥

  -- Records with the same keys in the same order, sensitive ones included, that have the same values
  -- under the keys that are not sensitive become the same record: it does not depend on the values
  -- under sensitive keys.
  pub redact_record_hides :
      (r s : List (Text × V)) → Agree r s → redact_record string r ≡ redact_record string s
  unfolding redact_record
  redact_record_hides [] [] h = refl
  redact_record_hides [] (y ∷ s) h = absurd h
  redact_record_hides (x ∷ r) [] h = absurd h
  redact_record_hides ((k, v) ∷ r) ((j, w) ∷ s) (e, same, rest) =
      let tails = redact_record_hides r s rest in
      elim (Bool-cases (is_sensitive_field k)) [
        | inl t ↦ ground arith
        | inr f ↦ ground (arith, same f)
      ]

  -- Redacting twice is redacting once.
  pub redact_record_idempotent :
      (r : List (Text × V)) → redact_record string (redact_record string r) ≡ redact_record string r
  unfolding redact_record
  redact_record_idempotent [] = refl
  redact_record_idempotent ((k, v) ∷ r) = ground (arith, redact_record_idempotent r)
