-- ===== src/Tests/Index.antt =====
-- langs/typescript/src/index.js at concrete inputs.
use ores_lib_core.Base.{
  ℕ, ◌≤◌, ◌≡◌, refl, true, false, ◌↔◌, ◌≢◌, none, some, List, [], ◌∷◌, ◌++◌, Text, text, In, NoDup,
  Ascending, length, All, arith, nat_eq, list_eq, includes, includes_text, list_beq, split, strip,
  starts_with, ends_with, distinct, sort, text_leb,
}
use ores_lib_core.Js.{Value, str, null}
use ores_lib_core.Redaction.{is_sensitive_field, redact_record}
use ores_lib_core.Redaction.Laws.{redact_record_hides}
use ores_lib_core.Correlation.{valid_correlation_id, valid_correlation_id_iff, IsPortable}
use ores_lib_core.Email.{ok, err, normalize_email_for_revocation, not_ascii, bad_domain}
use ores_lib_core.Email.Form.{IsAddress}
use ores_lib_core.Email.Laws.{normalize_email-IsAddress, normalize_email_idempotent}
use ores_lib_core.Grants.{
  RevocationGrant, authorized_organizations, DirectoryAdminGrant, directory_organizations,
  authorized_directory_organizations, directory_admin_role,
}
use ores_lib_core.Grants.Laws.{
  Requested, In-authorized_organizations, authorized_organizations-canonical,
  authorized_organizations_order,
}
use ores_lib_core.Grants.Directory.{Permits, In-authorized_directory}
use ores_lib_core.Idempotency.{
  bytes, undefined as missing, other, returns, replay, conflict, new, bad_incoming, bad_existing,
  classify_idempotency,
}
use ores_lib_core.Idempotency.Laws.{IsDigest, Is32, classify-digests, classify-cases}

sensitive_header : is_sensitive_field (text " X-Api-Token ") ≡ true
unfolding is_sensitive_field text strip list_beq ends_with
sensitive_header = refl

plain_header : is_sensitive_field (text "token_count") ≡ false
unfolding is_sensitive_field text strip list_beq ends_with
plain_header = refl

abbrev login : List (Text × Value)
login = (text "user", str (text "ann")) ∷ (text "password", str (text "hunter2")) ∷ []

abbrev other_login : List (Text × Value)
other_login = (text "user", str (text "ann")) ∷ (text "password", null) ∷ []

user_plain : is_sensitive_field (text "password") ≡ true
unfolding is_sensitive_field text strip list_beq ends_with
user_plain = refl

redact_record_hides_example : redact_record str login ≡ redact_record str other_login
redact_record_hides_example =
    redact_record_hides str login other_login (refl, (λ h. refl), (refl, (λ h. cc user_plain), tt))

valid_correlation_id_iff_example : (valid_correlation_id (str (text "req-12:34")) ≡ true) ↔ (
    (s : Text) × (str (text "req-12:34") ≡ str s)
    × (8 ≤ length s)
    × (length s ≤ 128)
    × All IsPortable s)
valid_correlation_id_iff_example = valid_correlation_id_iff (str (text "req-12:34"))

correlation_runs :
    (valid_correlation_id (str (text "req-12:34")) ≡ true)
    × (valid_correlation_id (str (text "short")) ≡ false)
    × (valid_correlation_id (str (text "has space")) ≡ false)
unfolding valid_correlation_id text
correlation_runs = (refl, refl, refl)

email_runs :
    (normalize_email_for_revocation (str (text " Ann.Lee@Example.COM "))
      ≡ ok (text "ann.lee@example.com"))
    × (normalize_email_for_revocation (str (text "a@b")) ≡ err bad_domain)
    × (normalize_email_for_revocation (str (text "a@-b.c")) ≡ err bad_domain)
    × (normalize_email_for_revocation (str (text "a@b.c" ++ 0x212a ∷ [])) ≡ err not_ascii)
unfolding normalize_email_for_revocation text strip split starts_with ends_with includes_text
    list_beq
email_runs = (refl, refl, refl, refl)

normalize_email-IsAddress_example :
    (length (text "ann.lee@example.com") ≤ 320) × IsAddress (text "ann.lee@example.com")
normalize_email-IsAddress_example =
    normalize_email-IsAddress (str (text " Ann.Lee@Example.COM ")) (text "ann.lee@example.com")
      email_runs.0

normalize_email_idempotent_example :
    normalize_email_for_revocation (str (text "ann.lee@example.com"))
    ≡ ok (text "ann.lee@example.com")
normalize_email_idempotent_example =
    normalize_email_idempotent (str (text " Ann.Lee@Example.COM ")) (text "ann.lee@example.com")
      email_runs.0

abbrev grants : List RevocationGrant
grants =
    record { organization_id = text "org-b"; sessions_revoke = true }
    ∷ record { organization_id = text "org-a"; sessions_revoke = true }
    ∷ record { organization_id = text "org-c"; sessions_revoke = false }
    ∷ record { organization_id = text "org-b"; sessions_revoke = true }
    ∷ []

grants_run : authorized_organizations none grants ≡ text "org-a" ∷ text "org-b" ∷ []
unfolding authorized_organizations text includes list_beq distinct sort text_leb
grants_run = refl

In-authorized_organizations_example : In (text "org-a") (authorized_organizations none grants) ↔ (
    Requested none (text "org-a")
    × ((g : RevocationGrant) × In g grants
        × (g.sessions_revoke ≡ true)
        × (text "org-a" ≡ g.organization_id)))
In-authorized_organizations_example = In-authorized_organizations (text "org-a") none grants

authorized_organizations-canonical_example :
    Ascending (authorized_organizations none grants) × NoDup (authorized_organizations none grants)
authorized_organizations-canonical_example = authorized_organizations-canonical none grants

authorized_organizations_order_example :
    authorized_organizations none grants ≡ authorized_organizations none grants
authorized_organizations_order_example =
    authorized_organizations_order none none grants grants (λ id. ((λ h. h), (λ h. h)))
      (λ g. ((λ h. h), (λ h. h)))

abbrev directory_grants : List DirectoryAdminGrant
directory_grants =
    record {
      organization_id = text "org-a";
      project_ids = none;
      scopes = some (text "directory.revocations.execute" ∷ []);
      roles = some (text "directory_admin" ∷ []);
    }
    ∷ record {
      organization_id = text "org-b";
      project_ids = some (text "p" ∷ []);
      scopes = some (text "directory.revocations.execute" ∷ []);
      roles = some (text "directory_admin" ∷ []);
    }
    ∷ []

abbrev execute_scope : Value
execute_scope = str (text "directory.revocations.execute")

directory_run :
    (authorized_directory_organizations none execute_scope directory_grants ≡ text "org-a" ∷ [])
    × (authorized_directory_organizations none (str (text "directory.*")) directory_grants ≡ [])
    × (authorized_directory_organizations (some (text "org-b" ∷ [])) execute_scope directory_grants
        ≡ [])
unfolding authorized_directory_organizations directory_organizations directory_admin_role text
    includes list_beq distinct sort includes_text starts_with
directory_run = (refl, refl, refl)

In-authorized_directory_example :
    In (text "org-a") (authorized_directory_organizations none execute_scope directory_grants) ↔ (
      (s : Text) × (execute_scope ≡ str s)
      × (includes_text s (text "*") ≡ false)
      × Requested none (text "org-a")
      × ((g : DirectoryAdminGrant) × In g directory_grants
          × Permits s g
          × (text "org-a" ≡ g.organization_id)))
In-authorized_directory_example =
    In-authorized_directory (text "org-a") none execute_scope directory_grants

abbrev zeros : List ℕ
zeros =
    0 ∷ 0 ∷ 0 ∷ 0 ∷ 0 ∷ 0 ∷ 0 ∷ 0 ∷ 0 ∷ 0 ∷ 0 ∷ 0 ∷ 0 ∷ 0 ∷ 0 ∷ 0 ∷ 0 ∷ 0 ∷ 0 ∷ 0 ∷ 0 ∷ 0 ∷ 0 ∷ 0
    ∷ 0 ∷ 0 ∷ 0 ∷ 0 ∷ 0 ∷ 0 ∷ 0 ∷ 7 ∷ []

zeros-IsDigest : IsDigest zeros
zeros-IsDigest = omega arith

digest_runs :
    (classify_idempotency (bytes zeros) (bytes zeros) ≡ returns replay)
    × (classify_idempotency missing (bytes zeros) ≡ returns new)
    × (classify_idempotency missing (bytes []) ≡ bad_incoming)
    × (classify_idempotency other (bytes zeros) ≡ bad_existing)
unfolding classify_idempotency
digest_runs = (refl, refl, refl, refl)

classify-digests_example :
    ((classify_idempotency (bytes zeros) (bytes zeros) ≡ returns replay) ↔ (zeros ≡ zeros))
    × ((classify_idempotency (bytes zeros) (bytes zeros) ≡ returns conflict) ↔ (zeros ≢ zeros))
classify-digests_example = classify-digests zeros zeros zeros-IsDigest zeros-IsDigest

classify-cases_example :
    ((classify_idempotency missing (bytes zeros) ≡ bad_incoming) ↔ (¬ Is32 (bytes zeros)))
    × ((classify_idempotency missing (bytes zeros) ≡ returns new)
        ↔ (Is32 (bytes zeros) × (missing ≡ missing)))
    × ((classify_idempotency missing (bytes zeros) ≡ bad_existing)
        ↔ (Is32 (bytes zeros) × (missing ≢ missing) × (¬ Is32 missing)))
classify-cases_example = classify-cases missing (bytes zeros)
