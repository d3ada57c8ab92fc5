-- ===== src/Service/TenantConfig.antt =====
-- service/tenant.service.go: the configuration of a tenant, and the roles of a user with the titles
-- that it gives them; TenantUserGet of service/tenant.user.service.go.
use passport.Base.{
  ℕ, Bool, true, false, Option, none, some, List, [], ◌∷◌, ◌++◌, ◌||◌, ltb, ◌==◌, if◌then◌else◌,
  length, exists,
}
use passport.Text.{Text, text_eq, codes}
use passport.Errors.{Error, Result, ok, err, panic}
use passport.Protos.{Tenant, TenantConfiguration, RoleStruct, Value, MapStruct, User, Department}
use passport.World.{Exec, pure, raise, ◌>>=◌, ◌>>◌, or_error, attempt}
use passport.Access.{Enforcer, get_role_for_user, delete_role_for_user}
use passport.Dao.Tenant.{tenant_update_configuration}
use passport.Dao.Listing.{user_query_by_org, user_count_by_org}
use passport.Service.Tenant.{get_tenant_by_id_cached, then_evict}
use passport.Service.Org.{require_org}
use passport.Service.Department.{department_search}
use passport.Service.UserExt.{is_nil, drop_key, set_key, value_of, parse_uint64_slice}

-- What TenantLoadConfiguration returns: the value of a key, or all of them. A nil map counts as an
-- empty one.
pub data Loaded : Type 0 where
  one : Value → Loaded
  whole : MapStruct → Loaded

-- One key of TenantUpdateConfiguration; `none` is too many keys.
merge_key : Text → Value → Option MapStruct → Option MapStruct
unfolding is_nil drop_key set_key
merge_key k v none = none
merge_key k v (some more) =
    if is_nil v
    then some (drop_key k more)
    else if ltb 100 (length more)
    then none
    else some (set_key k v more)

-- Its loop, in the order of the list: Go's order is any. That matters only near the limit.
merge_keys : MapStruct → Option MapStruct → Option MapStruct
unfolding merge_key
merge_keys [] more = more
merge_keys ((k, v) ∷ rest) more = merge_keys rest (merge_key k v more)

configuration_of : Tenant → TenantConfiguration
configuration_of t = elim t.configuration [ none ↦ record { roles = []; more = [] } | some c ↦ c ]

-- The last role of the value.
role_of : Text → List RoleStruct → Option RoleStruct → Option RoleStruct
unfolding text_eq
role_of value [] found = found
role_of value (r ∷ rs) found = role_of value rs (
    if text_eq r.role_value value
    then some (record { role_title = r.role_title; role_value = value })
    else found)

-- A user of TenantUserGet, with roles and departments.
pub record ListedUser : Type 0 where
  pub user : User
  pub roles : List RoleStruct
  pub departments : List Department

pub record UserPage : Type 0 where
  pub list : List ListedUser
  pub total : ℕ

-- The department that `depSet` has for an id: the last one.
department_of : ℕ → List Department → Option Department → Option Department
department_of id [] found = found
department_of id (d ∷ ds) found = department_of id ds (if d.id == id then some d else found)

departments_named : List ℕ → List Department → List Department
unfolding department_of
departments_named [] ds = []
departments_named (id ∷ ids) ds = elim (department_of id ds none) [
  | none ↦ departments_named ids ds
  | some d ↦ d ∷ departments_named ids ds
]

module _ {P : Type 0} where
  -- A nil tenant has no roles; a nil configuration is dereferenced.
  roles_or_none : Result (Option Tenant) → Exec P (List RoleStruct)
  roles_or_none (ok none) = pure []
  roles_or_none (ok (some t)) = elim t.configuration [
    | none ↦ λ w. (panic, w)
    | some c ↦ pure c.roles
  ]
  roles_or_none (err e) = pure []
  roles_or_none panic = λ w. (panic, w)

  -- TenantGetRole
  unfoldable pub tenant_get_role : ℕ → Exec P (List RoleStruct)
  unfolding get_tenant_by_id_cached roles_or_none
  tenant_get_role tenant_id = do
    found ← attempt (get_tenant_by_id_cached tenant_id)
    roles_or_none found

  loaded_of : Text → Option Tenant → Exec P Loaded
  unfolding value_of text_eq
  loaded_of key none = raise Error.tenant_not_found
  loaded_of key (some t) = elim t.configuration [
    | none ↦ λ w. (panic, w)
    | some c ↦
        pure (if text_eq key [] then Loaded.whole c.more else Loaded.one (value_of key c.more))
  ]

  -- TenantLoadConfiguration
  unfoldable pub tenant_load_configuration : ℕ → Text → Exec P Loaded
  unfolding get_tenant_by_id_cached loaded_of
  tenant_load_configuration tenant_id key = do
    found ← or_error (get_tenant_by_id_cached tenant_id) Error.service
    loaded_of key found

  update_more : Tenant → Option MapStruct → Exec P (Unit {0})
  unfolding tenant_update_configuration configuration_of
  update_more t none = raise Error.service
  update_more t (some more) =
      tenant_update_configuration
        (record t { configuration = some (record (configuration_of t) { more = more }) })

  merge_into : MapStruct → Option Tenant → Exec P (Unit {0})
  unfolding update_more merge_keys configuration_of
  merge_into entries none = raise Error.tenant_not_found
  merge_into entries (some t) = update_more t (merge_keys entries (some (configuration_of t).more))

  find_and_merge : ℕ → MapStruct → Exec P (Unit {0})
  unfolding get_tenant_by_id_cached merge_into
  find_and_merge tenant_id entries =
      if length entries == 0
        || ltb 100 (length entries)
        || exists (λ e. ltb 64 (length e.0)) entries
      then raise Error.param
      else do
        found ← or_error (get_tenant_by_id_cached tenant_id) Error.service
        merge_into entries found

  -- TenantUpdateConfiguration (service)
  unfoldable pub tenant_update_configuration_service : ℕ → MapStruct → Exec P (Unit {0})
  unfolding then_evict find_and_merge
  tenant_update_configuration_service tenant_id entries =
      then_evict tenant_id (find_and_merge tenant_id entries)

  module _ (c : Enforcer P) where
    -- A role that the tenant no longer defines is taken from the user; an error of that is dropped.
    keep_role : ℕ → ℕ → ℕ → Text → Option RoleStruct → Exec P (List RoleStruct)
    unfolding delete_role_for_user
    keep_role uid tenant_id org_id value (some r) = pure (r ∷ [])
    keep_role uid tenant_id org_id value none = do
      attempt (delete_role_for_user c uid tenant_id org_id value)
      pure []

    titled_roles : ℕ → ℕ → ℕ → List RoleStruct → List Text → Exec P (List RoleStruct)
    unfolding keep_role role_of
    titled_roles uid tenant_id org_id defined [] = pure []
    titled_roles uid tenant_id org_id defined (value ∷ values) = do
      kept ← keep_role uid tenant_id org_id value (role_of value defined none)
      rest ← titled_roles uid tenant_id org_id defined values
      pure (kept ++ rest)

    roles_defined_by : ℕ → ℕ → ℕ → Tenant → List Text → Exec P (List RoleStruct)
    unfolding titled_roles
    roles_defined_by uid tenant_id org_id t [] = pure []
    roles_defined_by uid tenant_id org_id t (value ∷ values) = elim t.configuration [
      | none ↦ λ w. (panic, w)
      | some defined ↦ titled_roles uid tenant_id org_id defined.roles (value ∷ values)
    ]

    user_roles_in : ℕ → ℕ → ℕ → Option Tenant → Exec P (List RoleStruct)
    unfolding get_role_for_user roles_defined_by
    user_roles_in uid tenant_id org_id none = raise Error.tenant_not_found
    user_roles_in uid tenant_id org_id (some t) = do
      values ← get_role_for_user c uid tenant_id org_id
      roles_defined_by uid tenant_id org_id t values

    -- getTenantUserRoles
    unfoldable pub get_tenant_user_roles : ℕ → ℕ → ℕ → Exec P (List RoleStruct)
    unfolding get_tenant_by_id_cached user_roles_in
    get_tenant_user_roles uid tenant_id org_id = do
      found ← or_error (get_tenant_by_id_cached tenant_id) Error.service
      user_roles_in uid tenant_id org_id found

    described :
        List Department → User → Result (List RoleStruct) → Exec P (ListedUser × Option Error)
    unfolding departments_named parse_uint64_slice value_of codes
    described ds u (ok roles) = pure (
      record {
        user = u;
        roles = roles;
        departments = departments_named (parse_uint64_slice (value_of (codes "deps") u.ext)) ds;
      },
      none,
    )
    described ds u (err e) = pure (
      record {
        user = u;
        roles = [];
        departments = departments_named (parse_uint64_slice (value_of (codes "deps") u.ext)) ds;
      },
      some e,
    )
    described ds u panic = λ w. (panic, w)

    -- The users with what belongs to them, and the error that the last one's roles left in `e`.
    describe_users :
        ℕ → List Department → List User → Option Error → Exec P (List ListedUser × Option Error)
    unfolding get_tenant_user_roles described
    describe_users org_id ds [] e = pure ([], e)
    describe_users org_id ds (u ∷ us) e = do
      roles ← attempt (get_tenant_user_roles u.uid u.tenant_id org_id)
      first ← described ds u roles
      others ← describe_users org_id ds us first.1
      pure (first.0 ∷ others.0, others.1)

    -- Without the total, the error in `e` is returned.
    with_total : ℕ → ℕ → Text → List ℕ → Bool → List ListedUser × Option Error → Exec P UserPage
    unfolding user_count_by_org
    with_total tenant_id org_id nickname uids true list = do
      total ← or_error (user_count_by_org tenant_id org_id nickname uids) Error.service
      pure (record { list = list.0; total = total })
    with_total tenant_id org_id nickname uids false (list, none) =
        pure (record { list = list; total = 0 })
    with_total tenant_id org_id nickname uids false (list, some e) = raise e

    -- TenantUserGet
    unfoldable pub tenant_user_get : ℕ → ℕ → ℕ → ℕ → Text → List ℕ → Bool → Exec P UserPage
    unfolding require_org user_query_by_org department_search describe_users with_total
    tenant_user_get tenant_id org_id page page_size nickname uids has_total =
        if org_id == 0 then raise Error.org_required else do
          require_org tenant_id org_id
          rr ←
              or_error (user_query_by_org tenant_id org_id page page_size nickname uids)
                Error.service
          if length rr == 0 then raise Error.null else do
            ds ← or_error (department_search 0 tenant_id org_id 0 0) Error.service
            list ← describe_users org_id ds rr none
            with_total tenant_id org_id nickname uids has_total list
