-- ===== src/Grants.antt =====
-- langs/typescript/src/index.js: `authorizedOrganizations` and `authorizedDirectoryOrganizations`.
pub mod Laws
pub mod Directory
use ores_lib_core.Base.{
  ℕ, Bool, true, false, ◌&&◌, not, Option, none, some, List, [], ◌∷◌, map, Text, text, includes,
  includes_text, distinct, filter, sort, nat_eq, list_eq, if◌then◌else◌,
}
use ores_lib_core.Js.{Value, str}

pub record RevocationGrant : Type 0 where
  pub organization_id : Text
  pub sessions_revoke : Bool

-- requestedSet === undefined || requestedSet.has(id)
abbrev pub is_requested : Option (List Text) → Text → Bool
is_requested none id = true
is_requested (some ids) id = includes ids id

unfoldable pub authorized_organizations : Option (List Text) → List RevocationGrant → List Text
authorized_organizations requested grants = sort (
    distinct (
      map (λ grant. grant.organization_id)
        (filter (λ grant. grant.sessions_revoke && is_requested requested grant.organization_id)
          grants)))

-- `roles` and `scopes` are `none` where they are no array; `project_ids` is `none` where it is
-- undefined.
pub record DirectoryAdminGrant : Type 0 where
  pub organization_id : Text
  pub project_ids : Option (List Text)
  pub scopes : Option (List Text)
  pub roles : Option (List Text)

unfoldable pub directory_admin_role : Text
unfolding text
directory_admin_role = text "directory_admin"

-- Array.isArray(xs) && xs.includes(x)
abbrev pub array_includes : Option (List Text) → Text → Bool
array_includes none x = false
array_includes (some xs) x = includes xs x

abbrev pub is_undefined : {A : Type 0} → Option A → Bool
is_undefined none = true
is_undefined (some a) = false

unfoldable pub directory_organizations :
    Option (List Text) → Text → List DirectoryAdminGrant → List Text
directory_organizations requested required_scope grants =
    let admins = filter (λ grant. array_includes grant.roles directory_admin_role) grants in
    let scoped = filter (λ grant. array_includes grant.scopes required_scope) admins in
    let whole = filter (λ grant. is_undefined grant.project_ids) scoped in
    let asked = filter (λ grant. is_requested requested grant.organization_id) whole in
    sort (distinct (map (λ grant. grant.organization_id) asked))

unfoldable pub authorized_directory_organizations :
    Option (List Text) → Value → List DirectoryAdminGrant → List Text
authorized_directory_organizations requested (str required_scope) grants =
    if includes_text required_scope (text "*")
    then []
    else directory_organizations requested required_scope grants
authorized_directory_organizations requested _ grants = []
