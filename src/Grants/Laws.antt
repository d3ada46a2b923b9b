-- ===== src/Grants/Laws.antt =====
-- Who may revoke: exactly the organizations of the grants that allow it, in a canonical order.
use ores_lib_core.Base.{
  ◌≡◌, refl, true, ◌&&◌, ◌↔◌, Option, none, some, List, map, Text, includes_iff, distinct, In,
  NoDup, In-distinct, NoDup-distinct, filter, In-filter, In-map, In-map_inv, sort, In-sort_by,
  NoDup-sort_by, sort_by-IsSorted, Ascending, Ascending-unique, nat_eq, list_eq, and_iff,
}
use ores_lib_core.Grants.{RevocationGrant, is_requested, authorized_organizations}

-- Without a list of requests every organization is asked for.
abbrev pub Requested : Option (List Text) → Text → Type 0
Requested none id = Unit
Requested (some ids) id = In id ids

pub Requested-iff :
    (r : Option (List Text)) (id : Text) → (is_requested r id ≡ true) ↔ Requested r id
Requested-iff none id = ((λ e. tt), (λ e. refl))
Requested-iff (some ids) id = includes_iff ids id

-- The organizations of the grants that pass a test, as the functions collect them.
module _ {G : Type 0} (org : G → Text) where
  unfoldable pub collect : List G → List Text
  collect grants = sort (distinct (map org grants))

  pub In-collect :
      (id : Text) (gs : List G) → In id (collect gs) ↔ ((g : G) × In g gs × (id ≡ org g))
  unfolding collect sort
  In-collect id gs =
      let (to, from) = In-sort_by (λ x. x) id (distinct (map org gs)) in
      let (down, up) = In-distinct id (map org gs) in
      (
        (λ h. In-map_inv org id gs (down (to h))),
        (λ (g, i, e). from (up (rw e (In-map org g gs i)))),
      )

  pub collect-canonical : (gs : List G) → Ascending (collect gs) × NoDup (collect gs)
  unfolding collect sort
  collect-canonical gs = (
    sort_by-IsSorted (λ x. x) (distinct (map org gs)),
    NoDup-sort_by (λ x. x) (distinct (map org gs)) (NoDup-distinct (map org gs)),
  )

-- An organization is authorized exactly if it is requested and some grant for it allows revoking.
pub In-authorized_organizations :
    (id : Text) (requested : Option (List Text)) (grants : List RevocationGrant)
    → In id (authorized_organizations requested grants) ↔ (
        Requested requested id
        × ((g : RevocationGrant) × In g grants
            × (g.sessions_revoke ≡ true)
            × (id ≡ g.organization_id)))
unfolding authorized_organizations collect
In-authorized_organizations id requested grants =
    let test =
      λ (g : RevocationGrant). g.sessions_revoke && is_requested requested g.organization_id in
    let (to, from) =
      In-collect (λ (g : RevocationGrant). g.organization_id) id (filter test grants) in
    (
      (λ h.
          let (g, i, e) = to h in
          let (listed, passed) = (In-filter test g grants).0 i in
          let (revokes, asked) = (and_iff _ _).0 passed in
          (rw e ((Requested-iff requested g.organization_id).0 asked), (g, listed, revokes, e))),
      (λ (asked, (g, i, revokes, e)).
          let here : Requested requested g.organization_id = rw (← e) asked in
          from (
            g,
            (In-filter test g grants).1
                (i, (and_iff _ _).1 (revokes, (Requested-iff requested g.organization_id).1 here)),
            e,
          )),
    )

-- The result is in ascending order and has no repetition.
pub authorized_organizations-canonical :
    (requested : Option (List Text)) (grants : List RevocationGrant)
    → Ascending (authorized_organizations requested grants)
      × NoDup (authorized_organizations requested grants)
unfolding authorized_organizations collect
authorized_organizations-canonical requested grants = collect-canonical (λ g. g.organization_id) _

-- Order and repetition of the grants and of the requests do not matter: the result is determined by
-- the grants that occur and the requests that occur.
pub authorized_organizations_order :
    (r s : Option (List Text)) (gs hs : List RevocationGrant)
    → ((id : Text) → Requested r id ↔ Requested s id)
    → ((g : RevocationGrant) → In g gs ↔ In g hs)
    → authorized_organizations r gs ≡ authorized_organizations s hs
authorized_organizations_order r s gs hs same_requests same_grants =
    let (up, nodup) = authorized_organizations-canonical r gs in
    let (up', nodup') = authorized_organizations-canonical s hs in
    Ascending-unique _ _ up nodup up' nodup' (λ id. (
      (λ h.
          let (asked, (g, i, p, e)) = (In-authorized_organizations id r gs).0 h in
          (In-authorized_organizations id s hs).1
            ((same_requests id).0 asked, (g, (same_grants g).0 i, p, e))),
      (λ h.
          let (asked, (g, i, p, e)) = (In-authorized_organizations id s hs).0 h in
          (In-authorized_organizations id r gs).1
            ((same_requests id).1 asked, (g, (same_grants g).1 i, p, e))),
    ))
