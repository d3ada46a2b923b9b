-- ===== src/Grants/Directory.antt =====
-- Directory revocation: the grants that count, and the organizations that are listed.
use mathlib.Core.Option.{some-injective}
use ores_lib_core.Base.{
  ◌≡◌, refl, sym, subst, true, false, ◌↔◌, inl, inr, Bool-cases, Option, none, some, List, [], Text,
  text, includes_iff, includes_text, In, filter, In-filter, nat_eq, list_eq, if◌then◌else◌,
}
use ores_lib_core.Js.{Value, str_injective, str}
use ores_lib_core.Grants.{
  is_requested, DirectoryAdminGrant, directory_admin_role, array_includes, is_undefined,
  directory_organizations, authorized_directory_organizations,
}
use ores_lib_core.Grants.Laws.{Requested, Requested-iff, collect, In-collect}

-- A grant that lets its organization's administrators revoke under a scope.
pub record Permits (scope : Text) (g : DirectoryAdminGrant) : Type 0 where
  pub admin : (roles : List Text) × (g.roles ≡ some roles) × In directory_admin_role roles
  pub scoped : (scopes : List Text) × (g.scopes ≡ some scopes) × In scope scopes
  pub whole : g.project_ids ≡ none

array_includes_iff :
    (o : Option (List Text)) (x : Text)
    → (array_includes o x ≡ true) ↔ ((xs : List Text) × (o ≡ some xs) × In x xs)
array_includes_iff none x = ((λ e. cc), (λ (xs, e, i). cc))
array_includes_iff (some ys) x =
    let (to, from) = includes_iff ys x in
    ((λ e. (ys, refl, to e)), (λ (xs, e, i). from (subst (In x) (sym (some-injective _ _ e)) i)))

is_undefined_iff : {A : Type 0} (o : Option A) → (is_undefined o ≡ true) ↔ (o ≡ none)
is_undefined_iff none = ((λ e. refl), (λ e. refl))
is_undefined_iff (some a) = ((λ e. cc), (λ e. cc))

In-directory_organizations :
    (id : Text) (requested : Option (List Text)) (s : Text) (grants : List DirectoryAdminGrant)
    → In id (directory_organizations requested s grants) ↔ (
        Requested requested id
        × ((g : DirectoryAdminGrant) × In g grants × Permits s g × (id ≡ g.organization_id)))
unfolding directory_organizations collect
In-directory_organizations id requested s grants =
    let admin_test = λ (g : DirectoryAdminGrant). array_includes g.roles directory_admin_role in
    let scope_test = λ (g : DirectoryAdminGrant). array_includes g.scopes s in
    let whole_test = λ (g : DirectoryAdminGrant). is_undefined g.project_ids in
    let asked_test = λ (g : DirectoryAdminGrant). is_requested requested g.organization_id in
    let admins = filter admin_test grants in
    let scoped = filter scope_test admins in
    let whole = filter whole_test scoped in
    let (to, from) =
      In-collect (λ (g : DirectoryAdminGrant). g.organization_id) id (filter asked_test whole) in
    (
      (λ h.
          let (g, i, e) = to h in
          let (i3, asked) = (In-filter asked_test g whole).0 i in
          let (i2, is_whole) = (In-filter whole_test g scoped).0 i3 in
          let (i1, is_scoped) = (In-filter scope_test g admins).0 i2 in
          let (i0, is_admin) = (In-filter admin_test g grants).0 i1 in
          (
            rw e ((Requested-iff requested g.organization_id).0 asked),
            (
              g,
              i0,
              record {
                admin = (array_includes_iff g.roles directory_admin_role).0 is_admin;
                scoped = (array_includes_iff g.scopes s).0 is_scoped;
                whole = (is_undefined_iff g.project_ids).0 is_whole;
              },
              e,
            ),
          )),
      (λ (asked, (g, i0, permits, e)).
          let here : Requested requested g.organization_id = rw (← e) asked in
          let i1 =
            (In-filter admin_test g grants).1
              (i0, (array_includes_iff g.roles directory_admin_role).1 permits.admin) in
          let i2 =
            (In-filter scope_test g admins).1
              (i1, (array_includes_iff g.scopes s).1 permits.scoped) in
          let i3 =
            (In-filter whole_test g scoped).1
              (i2, (is_undefined_iff g.project_ids).1 permits.whole) in
          from (
            g,
            (In-filter asked_test g whole).1
                (i3, (Requested-iff requested g.organization_id).1 here),
            e,
          )),
    )

directory_str :
    (requested : Option (List Text)) (s : Text) (grants : List DirectoryAdminGrant)
    → authorized_directory_organizations requested (str s) grants
      ≡ (if includes_text s (text "*") then [] else directory_organizations requested s grants)
unfolding authorized_directory_organizations
directory_str requested s grants = refl

-- An organization is listed exactly if the required scope is a string without "*", the organization
-- is requested, and a grant for all of it names the administrator's role and that very scope.
pub In-authorized_directory :
    (id : Text) (requested : Option (List Text)) (scope : Value) (grants : List DirectoryAdminGrant)
    → In id (authorized_directory_organizations requested scope grants) ↔ (
        (s : Text) × (scope ≡ str s)
        × (includes_text s (text "*") ≡ false)
        × Requested requested id
        × ((g : DirectoryAdminGrant) × In g grants × Permits s g × (id ≡ g.organization_id)))
unfolding authorized_directory_organizations
In-authorized_directory id requested (str s) grants =
    elim (Bool-cases (includes_text s (text "*"))) [
      | inl star ↦ (
        (λ h. absurd (rw (directory_str, star) at h)),
        (λ (t, e, plain, asked, found). cc (str_injective e)),
      )
      | inr plain ↦
          let (to, from) = In-directory_organizations id requested s grants in
          rw (directory_str, plain)
            (
              (λ h. let (asked, found) = to h in (s, refl, plain, asked, found)),
              (λ (t, e, plain', asked, (g, i, permits, k)).
                  from
                    (asked, (g, i, subst (λ x. Permits x g) (sym (str_injective e)) permits, k))),
            )
    ]
In-authorized_directory id requested scope grants =
    ((λ h. absurd h), (λ (t, e, plain, asked, found). cc))
