-- ===== src/Service/Org.antt =====
-- service/org.service.go: organizations of a tenant and their members.
pub mod Coherence
pub mod Membership
pub mod Steps
pub mod Changes
use passport.Base.{
  ℕ, Bool, true, false, Option, none, some, List, [], ◌∷◌, not, ◌&&◌, ◌||◌, ltb, ◌==◌,
  if◌then◌else◌, exists,
}
use passport.Text.{Text, text_eq, codes, trim_space}
use passport.Errors.{Error, Result, ok, err, panic}
use passport.Protos.{Tenant, Organization}
use passport.World.{World, Exec, pure, raise, ◌>>=◌, ◌>>◌, or_error, require, when, attempt}
use passport.Access.{
  Enforcer, domain, legacy_tenant_domain, add_role_for_user, delete_roles_for_user,
  get_role_for_user, copy_policies, remove_domain,
}
use passport.DefaultCache.{
  get_org_cache, set_org_cache, del_org_cache, get_org_member_cache, set_org_member_cache,
  del_org_member_cache,
}
use passport.Dao.Org.{
  org_insert, org_get_by_tenant_name, org_get_by_id, org_list_by_tenant, org_list_by_user,
  org_member_insert, org_member_delete, org_member_delete_by_org, org_delete, org_member_exists,
  org_member_uids,
}
use passport.Dao.Department.{department_delete_by_org}
use passport.Service.Tenant.{tenant_get_by_id_service}

-- MapPostgresOrgInsertError
map_org_insert_error : Error → Error
map_org_insert_error Error.duplicate = Error.org_name_dup
map_org_insert_error e = Error.service

org_insert_result : Result ℕ → Result ℕ
unfolding map_org_insert_error
org_insert_result (ok id) = if id == 0 then err Error.service else ok id
org_insert_result (err e) = err (map_org_insert_error e)
org_insert_result panic = panic

-- The domain that OrgCreate copies the policies from: the first organization that has an id.
from_domain : ℕ → List Organization → Text
from_domain tenant_id [] = legacy_tenant_domain tenant_id
from_domain tenant_id (o ∷ os) =
    if ltb 0 o.id then domain tenant_id o.id else from_domain tenant_id os

is_named : Option Organization → Bool
is_named none = false
is_named (some o) = ltb 0 o.id

has_role : Text → List Text → Bool
has_role role [] = false
has_role role (r ∷ rs) = text_eq r role || has_role role rs

module _ {P : Type 0} where
  cache_org : Option Organization → Exec P Organization
  unfolding set_org_cache
  cache_org none = raise Error.org_not_found
  cache_org (some o) = if o.id == 0 then raise Error.org_not_found else do set_org_cache o; pure o

  org_or_query : ℕ → Option Organization → Exec P Organization
  unfolding org_get_by_id cache_org
  org_or_query org_id (some o) = pure o
  org_or_query org_id none = do
    found ← or_error (org_get_by_id org_id) Error.service
    cache_org found

  -- OrgGet
  unfoldable pub org_get : ℕ → Exec P Organization
  unfolding get_org_cache org_or_query
  org_get org_id =
      if org_id == 0
      then raise Error.org_required
      else do hit ← get_org_cache org_id; org_or_query org_id hit

  -- RequireOrg
  unfoldable pub require_org : ℕ → ℕ → Exec P Organization
  unfolding org_get
  require_org tenant_id org_id =
      if tenant_id == 0 || org_id == 0
      then raise Error.org_required
      else do o ← org_get org_id; require (o.tenant_id == tenant_id) Error.no_auth; pure o

  member_or_query : ℕ → ℕ → Option Bool → Exec P (Unit {0})
  unfolding org_member_exists set_org_member_cache
  member_or_query org_id uid (some is_in) = require is_in Error.no_auth
  member_or_query org_id uid none = do
    is_in ← or_error (org_member_exists org_id uid) Error.service
    require is_in Error.no_auth
    set_org_member_cache org_id uid true

  -- UserInOrg
  unfoldable pub user_in_org : ℕ → ℕ → ℕ → Exec P (Unit {0})
  unfolding require_org get_org_member_cache member_or_query
  user_in_org uid tenant_id org_id = if uid == 0 then raise Error.no_auth else do
    require_org tenant_id org_id
    hit ← get_org_member_cache org_id uid
    member_or_query org_id uid hit

  -- OrgAddMember
  unfoldable pub org_add_member : ℕ → ℕ → ℕ → Exec P (Unit {0})
  unfolding require_org org_member_insert del_org_member_cache
  org_add_member org_id uid tenant_id =
      if org_id == 0 || uid == 0 || tenant_id == 0 then raise Error.param else do
        require_org tenant_id org_id
        or_error (org_member_insert org_id uid tenant_id) Error.service
        del_org_member_cache org_id uid

  del_members_cache : ℕ → List ℕ → Exec P (Unit {0})
  unfolding del_org_member_cache
  del_members_cache org_id [] = pure tt
  del_members_cache org_id (uid ∷ uids) =
      del_org_member_cache org_id uid >> del_members_cache org_id uids

  module _ (c : Enforcer P) where
    -- OrgRemoveMember
    unfoldable pub org_remove_member : ℕ → ℕ → ℕ → Exec P (Unit {0})
    unfolding require_org delete_roles_for_user org_member_delete del_org_member_cache
    org_remove_member org_id uid tenant_id =
        if org_id == 0 || uid == 0 || tenant_id == 0 then raise Error.param else do
          require_org tenant_id org_id
          or_error (delete_roles_for_user c uid tenant_id org_id) Error.service
          or_error (org_member_delete org_id uid) Error.service
          del_org_member_cache org_id uid

    -- OrgDelete
    unfoldable pub org_delete_service : ℕ → ℕ → Exec P (Unit {0})
    unfolding require_org org_member_uids remove_domain department_delete_by_org
        org_member_delete_by_org org_delete del_org_cache del_members_cache
    org_delete_service tenant_id org_id = do
      require_org tenant_id org_id
      uids ← or_error (org_member_uids org_id) Error.service
      or_error (remove_domain c (domain tenant_id org_id)) Error.service
      or_error (department_delete_by_org tenant_id org_id) Error.service
      or_error (org_member_delete_by_org org_id) Error.service
      or_error (org_delete org_id tenant_id) Error.service
      del_org_cache org_id
      del_members_cache org_id uids

    -- The membership and the root role that OrgCreate gives to the tenant's owner.
    add_owner : ℕ → Tenant → ℕ → Exec P (Unit {0})
    unfolding org_member_insert del_org_member_cache add_role_for_user
    add_owner tenant_id t id =
        if ltb 0 t.uid
        then (do
          or_error (org_member_insert id t.uid tenant_id) Error.service
          del_org_member_cache id t.uid
          or_error (add_role_for_user c t.uid tenant_id id (codes "root")) Error.service)
        else pure tt

    -- OrgCreate
    unfoldable pub org_create : ℕ → Text → Exec P ℕ
    unfolding tenant_get_by_id_service org_get_by_tenant_name org_list_by_tenant org_insert
        add_owner copy_policies from_domain is_named org_insert_result
    org_create tenant_id name =
        if tenant_id == 0 || text_eq (trim_space name) [] then raise Error.param else do
          t ← tenant_get_by_id_service tenant_id
          got ← or_error (org_get_by_tenant_name tenant_id (trim_space name)) Error.service
          require (not (is_named got)) Error.org_name_dup
          existing ← or_error (org_list_by_tenant tenant_id) Error.service
          inserted ← attempt (org_insert tenant_id (trim_space name))
          id ← (λ w. (org_insert_result inserted, w))
          add_owner tenant_id t id
          attempt (copy_policies c (from_domain tenant_id existing) (domain tenant_id id))
          pure id

    -- AddRoleForUserInAllOrgs, the loop
    add_role_in : ℕ → ℕ → Text → List Organization → Exec P (Unit {0})
    unfolding org_member_insert del_org_member_cache add_role_for_user
    add_role_in uid tenant_id role [] = pure tt
    add_role_in uid tenant_id role (o ∷ os) =
        let rest = add_role_in uid tenant_id role os in
        or_error (org_member_insert o.id uid tenant_id) Error.service
        >> del_org_member_cache o.id uid
        >> or_error (add_role_for_user c uid tenant_id o.id role) Error.service
        >> rest

    -- AddRoleForUserInAllOrgs
    unfoldable pub add_role_for_user_in_all_orgs : ℕ → ℕ → Text → Exec P (Unit {0})
    unfolding org_list_by_tenant add_role_in
    add_role_for_user_in_all_orgs uid tenant_id role = do
      orgs ← or_error (org_list_by_tenant tenant_id) Error.service
      add_role_in uid tenant_id role orgs

    -- UserHasRoleInTenant, the loop
    has_role_in : ℕ → ℕ → Text → List Organization → Exec P Bool
    unfolding get_role_for_user has_role
    has_role_in uid tenant_id role [] = pure false
    has_role_in uid tenant_id role (o ∷ os) =
        let rest = has_role_in uid tenant_id role os in
        get_role_for_user c uid tenant_id o.id >>= λ roles.
        if has_role role roles then pure true else rest

    -- UserHasRoleInTenant; a failed query counts as no organization
    unfoldable pub user_has_role_in_tenant : ℕ → ℕ → Text → Exec P Bool
    unfolding org_list_by_user has_role_in
    user_has_role_in_tenant uid tenant_id role w =
        if uid == 0 || tenant_id == 0 || text_eq role []
        then (ok false, w)
        else let (orgs, w') = org_list_by_user uid tenant_id w in
          elim orgs [
            | err e ↦ (ok false, w')
            | panic ↦ (panic, w')
            | ok os ↦ has_role_in uid tenant_id role os w'
          ]
