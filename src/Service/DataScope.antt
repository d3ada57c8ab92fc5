-- ===== src/Service/DataScope.antt =====
-- service/datascope.go: whose data a user sees in an organization.
pub mod Members
pub mod Ends
pub mod Own
pub mod Scope
use passport.Base.{
  ℕ, Bool, true, false, Option, none, some, List, [], ◌∷◌, ◌++◌, ◌||◌, ◌==◌, if◌then◌else◌,
  contains, exists,
}
use passport.Text.{Text, text_eq, codes}
use passport.Errors.{Error, Result, ok, err, panic}
use passport.Protos.{User, Department}
use passport.World.{Exec, pure, raise, ◌>>=◌, or_error, attempt}
use passport.Paging.{pages}
use passport.Access.{Enforcer, enforce, get_role_for_user}
use passport.Dao.User.{user_query_by_id}
use passport.Dao.Closure.{add_new}
use passport.Dao.Listing.{user_query_by_org}
use passport.Service.Department.{department_search}
use passport.Service.UserExt.{parse_uint64_slice, value_of}

pub data Level : Type 0 where
  all dept self : Level

pub record DataScope : Type 0 where
  pub level : Level
  pub dep_ids : List ℕ
  pub uids : List ℕ

-- DataScopeLevelAll, …
level_name : Level → Text
unfolding codes
level_name Level.all = codes "all"
level_name Level.dept = codes "dept"
level_name Level.self = codes "self"

-- The object that a role needs for a level.
unfoldable pub scope_object : Text → Level → Text
unfolding level_name codes
scope_object mod_name level = codes "data-scope/" ++ (mod_name ++ (codes "/" ++ level_name level))

unfoldable pub or_default_module : Text → Text
unfolding text_eq codes
or_default_module mod_name = if text_eq mod_name [] then codes "default" else mod_name

-- containsUint64
unfoldable pub contains_uint64 : List ℕ → ℕ → Bool
contains_uint64 [] target = false
contains_uint64 (v ∷ list) target = v == target || contains_uint64 list target

-- The departments that a user's `ext` names.
unfoldable pub departments_in_ext : User → List ℕ
unfolding parse_uint64_slice value_of codes
departments_in_ext u = parse_uint64_slice (value_of (codes "deps") u.ext)

-- The departments that name the user as a leader.
unfoldable pub is_leader : ℕ → Department → Bool
unfolding parse_uint64_slice value_of codes contains_uint64
is_leader uid d = contains_uint64 (parse_uint64_slice (value_of (codes "leaderUids") d.config)) uid

-- `add` of resolveUserDeptIDs: without 0, and once each
unfoldable pub add_id : ℕ → List ℕ → List ℕ
unfolding add_new
add_id id ids = if id == 0 then ids else add_new id ids

unfoldable pub add_own : List Department → List ℕ → List ℕ → List ℕ
unfolding add_id
add_own deps [] ids = ids
add_own deps (id ∷ rest) ids =
    add_own deps rest (if exists (λ d. d.id == id) deps then add_id id ids else ids)

unfoldable pub add_led : ℕ → List Department → List ℕ → List ℕ
unfolding add_id is_leader
add_led uid [] ids = ids
add_led uid (d ∷ deps) ids = add_led uid deps (if is_leader uid d then add_id d.id ids else ids)

-- The departments of a user's own: none for a user of another tenant.
unfoldable pub own_departments : ℕ → Option User → List ℕ
unfolding departments_in_ext
own_departments tenant_id none = []
own_departments tenant_id (some u) = if u.tenant_id == tenant_id then departments_in_ext u else []

-- The inner loop of memberUIDsInDeps over the departments of one user.
unfoldable pub note_user : List ℕ → ℕ → List ℕ → List ℕ → List ℕ
unfolding add_new
note_user dep_ids uid [] out = out
note_user dep_ids uid (d ∷ ds) out =
    let rest = note_user dep_ids uid ds out in if contains d dep_ids then add_new uid out else rest

unfoldable pub note_users : List ℕ → List User → List ℕ → List ℕ
unfolding note_user departments_in_ext
note_users dep_ids [] out = out
note_users dep_ids (u ∷ us) out =
    note_users dep_ids us (note_user dep_ids u.uid (departments_in_ext u) out)

unfoldable pub is_root : List Text → Bool
unfolding text_eq codes
is_root roles = exists (λ r. text_eq r (codes "root")) roles

-- `append(members, uid)`, unless it is there
unfoldable pub with_self : ℕ → List ℕ → List ℕ
unfolding contains_uint64
with_self uid members = if contains_uint64 members uid then members else members ++ uid ∷ []

-- An error of Enforce counts as a refusal.
unfoldable pub is_granted : Result Bool → Bool
is_granted (ok b) = b
is_granted (err e) = false
is_granted panic = false

module _ {P : Type 0} where
  -- memberUIDsInDeps, on fuel for the pages
  unfoldable pub member_uids_in_deps : ℕ → ℕ → ℕ → List ℕ → Exec P (Option (List ℕ))
  unfolding pages user_query_by_org note_users
  member_uids_in_deps fuel tenant_id org_id [] = pure (some [])
  member_uids_in_deps fuel tenant_id org_id (d ∷ ds) =
      pages (λ page. or_error (user_query_by_org tenant_id org_id page 200 [] []) Error.service) 200
        (note_users (d ∷ ds)) fuel 1 []

  -- resolveUserDeptIDs
  unfoldable pub resolve_user_dept_ids : ℕ → ℕ → ℕ → Exec P (List ℕ)
  unfolding user_query_by_id department_search add_own own_departments add_led
  resolve_user_dept_ids uid tenant_id org_id = do
    user ← or_error (user_query_by_id uid) Error.service
    deps ← or_error (department_search 0 tenant_id org_id 0 0) Error.service
    pure (add_led uid deps (add_own deps (own_departments tenant_id user) []))

  dept_scope : ℕ → List ℕ → Option (List ℕ) → Exec P (Option DataScope)
  unfolding with_self
  dept_scope uid dep_ids none = pure none
  dept_scope uid dep_ids (some members) =
      pure (some (record { level = Level.dept; dep_ids = dep_ids; uids = with_self uid members }))

  -- The `switch` of ResolveDataScope.
  scope_of_level : ℕ → ℕ → ℕ → ℕ → Level → Exec P (Option DataScope)
  unfolding resolve_user_dept_ids member_uids_in_deps dept_scope
  scope_of_level fuel uid tenant_id org_id Level.all =
      pure (some (record { level = Level.all; dep_ids = []; uids = [] }))
  scope_of_level fuel uid tenant_id org_id Level.self =
      pure (some (record { level = Level.self; dep_ids = []; uids = uid ∷ [] }))
  scope_of_level fuel uid tenant_id org_id Level.dept = do
    dep_ids ← resolve_user_dept_ids uid tenant_id org_id
    members ← member_uids_in_deps fuel tenant_id org_id dep_ids
    dept_scope uid dep_ids members

  module _ (c : Enforcer P) where
    -- The loop of resolveConfiguredLevel.
    first_level : ℕ → ℕ → ℕ → Text → List Level → Exec P Level
    unfolding enforce scope_object is_granted
    first_level uid tenant_id org_id mod_name [] = pure Level.self
    first_level uid tenant_id org_id mod_name (l ∷ ls) = do
      answer ← attempt (enforce c uid tenant_id org_id (scope_object mod_name l) (codes "GET"))
      if is_granted answer then pure l else first_level uid tenant_id org_id mod_name ls

    -- resolveConfiguredLevel
    unfoldable pub resolve_configured_level : ℕ → ℕ → ℕ → Text → Exec P Level
    unfolding first_level
    resolve_configured_level uid tenant_id org_id mod_name =
        first_level uid tenant_id org_id mod_name (Level.all ∷ Level.dept ∷ Level.self ∷ [])

    -- isDataScopeRoot
    unfoldable pub is_data_scope_root : ℕ → ℕ → ℕ → Exec P Bool
    unfolding get_role_for_user is_root
    is_data_scope_root uid tenant_id org_id = do
      roles ← get_role_for_user c uid tenant_id org_id
      pure (is_root roles)

    scope_of : ℕ → ℕ → ℕ → ℕ → Text → Bool → Exec P (Option DataScope)
    unfolding resolve_configured_level scope_of_level
    scope_of fuel uid tenant_id org_id mod_name true =
        scope_of_level fuel uid tenant_id org_id Level.all
    scope_of fuel uid tenant_id org_id mod_name false = do
      level ← resolve_configured_level uid tenant_id org_id mod_name
      scope_of_level fuel uid tenant_id org_id level

    -- ResolveDataScope
    unfoldable pub resolve_data_scope : ℕ → ℕ → ℕ → ℕ → Text → Exec P (Option DataScope)
    unfolding is_data_scope_root scope_of or_default_module
    resolve_data_scope fuel uid tenant_id org_id mod_name =
        if uid == 0 || (tenant_id == 0 || org_id == 0) then raise Error.param else do
          root ← is_data_scope_root uid tenant_id org_id
          scope_of fuel uid tenant_id org_id (or_default_module mod_name) root
