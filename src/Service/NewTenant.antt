-- ===== src/Service/NewTenant.antt =====
-- AdminTenantNew and addUserServiceWithTx (service/admin.service.go), and TenantAdd
-- (service/tenant.service.go).
pub mod Insertion
pub mod Rows
pub mod Created
pub mod Unlisted
use passport.Base.{
  ℕ, Bool, Option, none, some, [], ◌∷◌, not, ◌&&◌, ◌||◌, ltb, ◌==◌, if◌then◌else◌, exists, length,
}
use passport.Text.{Text, text_eq, codes, trim_space}
use passport.Errors.{Error, Result, ok, err, panic}
use passport.Protos.{User, Tenant, TenantConfiguration, RoleStruct, Value, MapStruct}
use passport.Request.{UserReq, no_user_req, NewTenantReq, Checks, encry_pwd}
use passport.World.{World, Exec, pure, raise, gets, ◌>>=◌, ◌>>◌, or_error, attempt, require}
use passport.Transaction.{transacted, commit_dropping, commit_reporting}
use passport.Dao.Account.{user_insert}
use passport.Dao.Closure.{tenant_closure_is_descendant, tenant_closure_insert}
use passport.Dao.Tenant.{tenant_insert, tenant_name_exists}
use passport.Service.Tenant.{evict_tenant_cache}
use passport.Service.Tree.{is_some}
use passport.Service.Parent.{begin}
use passport.Service.User.{user_pre_treat, user_check_duplicates, is_duplicate_key}

-- The default role, in UTF-8.
unfoldable pub root_role : RoleStruct
unfolding codes
root_role = record {
  role_title =
      232 ∷ 182 ∷ 133 ∷ 231 ∷ 186 ∷ 167 ∷ 231 ∷ 174 ∷ 161 ∷ 231 ∷ 144 ∷ 134 ∷ 229 ∷ 145 ∷ 152 ∷ [];
  role_value = codes "root";
}

unfoldable pub or_empty : Option TenantConfiguration → TenantConfiguration
or_empty none = record { roles = []; more = [] }
or_empty (some c) = c

with_root_role : TenantConfiguration → TenantConfiguration
unfolding root_role
with_root_role c = if length c.roles == 0 then record c { roles = root_role ∷ [] } else c

with_cellphone : Text → MapStruct → MapStruct
unfolding text_eq codes
with_cellphone cellphone info =
    if exists (λ e. text_eq e.0 (codes "adminCellphone")) info || text_eq cellphone []
    then info
    else (codes "adminCellphone", Value.text cellphone) ∷ info

-- The request with its names trimmed.
unfoldable pub trimmed : NewTenantReq → NewTenantReq
unfolding trim_space
trimmed m = record m {
  nickname = trim_space m.nickname;
  cellphone = trim_space m.cellphone;
  password = trim_space m.password;
}

unfoldable pub wants_admin : NewTenantReq → Bool
unfolding text_eq
wants_admin m =
    not (text_eq m.nickname []) || not (text_eq m.cellphone []) || not (text_eq m.password [])

unfoldable pub is_incomplete : NewTenantReq → Bool
unfolding text_eq
is_incomplete m = (text_eq m.nickname [] && text_eq m.cellphone []) || text_eq m.password []

unfoldable pub admin_request : NewTenantReq → UserReq
admin_request m = record no_user_req {
  cellphone = m.cellphone;
  nickname = m.nickname;
  password = m.password;
}

-- The tenant that is inserted; the database gives its id and its times.
unfoldable pub requested_tenant : NewTenantReq → ℕ → Tenant
unfolding with_cellphone with_root_role or_empty
requested_tenant m uid = record {
  id = 0;
  uid = uid;
  tenant_name = m.tenant_name;
  tenant_type = m.tenant_type;
  info = with_cellphone m.cellphone m.info;
  update_time = 0;
  configuration = some (with_root_role (or_empty m.configuration));
}

module _ {P : Type 0} where
  -- MapPostgresTenantInsertError; tenant_name is the only column with a constraint to violate
  unfoldable pub tenant_inserted : Result ℕ → Exec P ℕ
  unfolding is_duplicate_key
  tenant_inserted (ok id) = pure id
  tenant_inserted (err e) =
      raise (if is_duplicate_key e then Error.tenant_name_dup else Error.service)
  tenant_inserted panic = λ w. (panic, w)

  -- The tenant to hang the new one under: one below the caller's, or that itself.
  unfoldable pub parent_of : ℕ → ℕ → Exec P ℕ
  unfolding tenant_closure_is_descendant is_some
  parent_of sess_tenant parent_id = if parent_id == 0 then pure sess_tenant else do
    depth ← or_error (tenant_closure_is_descendant sess_tenant parent_id) Error.service
    require (is_some depth) Error.no_auth
    pure parent_id

  module _ (c : Checks) where
    -- addUserServiceWithTx
    unfoldable pub add_user_service_with_tx : UserReq → Exec P ℕ
    unfolding user_pre_treat user_check_duplicates encry_pwd user_insert
    add_user_service_with_tx p =
        if text_eq p.cellphone [] && text_eq p.email [] && text_eq p.nickname []
        then raise Error.user_name
        else if text_eq p.password []
        then raise Error.pwd_nil
        else do
          require (c.is_valid (user_pre_treat p)) Error.param
          q ← user_check_duplicates (user_pre_treat p)
          or_error (user_insert (record q { password = encry_pwd c q.password })) Error.service

    -- The account of the administrator, if the request has one.
    unfoldable pub admin_of : NewTenantReq → Exec P ℕ
    unfolding wants_admin admin_request add_user_service_with_tx
    admin_of m = if not (wants_admin m) then pure 0 else do
      uid ← add_user_service_with_tx (admin_request m)
      require (ltb 0 uid) Error.service
      pure uid

    -- What AdminTenantNew does in its transaction.
    unfoldable pub create_tenant : NewTenantReq → ℕ → Exec P (ℕ × ℕ)
    unfolding admin_of requested_tenant tenant_insert tenant_inserted tenant_closure_insert
    create_tenant m ancestor_id = do
      uid ← admin_of m
      row ← attempt (tenant_insert (requested_tenant m uid))
      tenant_id ← tenant_inserted row
      require (ltb 0 tenant_id) Error.service
      or_error (tenant_closure_insert ancestor_id tenant_id) Error.service
      pure (uid, tenant_id)

    -- From the choice of the parent on.
    unfoldable pub new_tenant_under : ℕ → NewTenantReq → Exec P (ℕ × ℕ)
    unfolding parent_of tenant_name_exists begin transacted commit_dropping create_tenant
        evict_tenant_cache
    new_tenant_under sess_tenant m = do
      ancestor_id ← parent_of sess_tenant m.parent_id
      dup ← or_error (tenant_name_exists m.tenant_name) Error.service
      require (not dup) Error.tenant_name_dup
      or_error begin Error.service
      ids ← transacted commit_dropping (create_tenant m ancestor_id)
      evict_tenant_cache ids.1
      pure ids

    unfoldable pub new_tenant_of : ℕ → NewTenantReq → ℕ → Exec P (ℕ × ℕ)
    unfolding trimmed wants_admin is_incomplete new_tenant_under text_eq
    new_tenant_of sess_tenant m root =
        if not (sess_tenant == root)
        then raise Error.no_auth
        else if text_eq m.tenant_name []
        then raise Error.tenant_name_null
        else if text_eq m.tenant_type []
        then raise Error.tenant_type_null
        else if wants_admin (trimmed m) && is_incomplete (trimmed m)
        then raise Error.user_name
        else new_tenant_under sess_tenant (trimmed m)

    -- AdminTenantNew
    unfoldable pub admin_tenant_new : Option User → NewTenantReq → Exec P (ℕ × ℕ)
    unfolding new_tenant_of
    admin_tenant_new none m = raise Error.service
    admin_tenant_new (some sess) m = do
      root ← gets (λ w. w.root_tenant_id)
      new_tenant_of sess.tenant_id m root

  -- What TenantAdd does in its transaction.
  unfoldable pub insert_added : Tenant → Exec P ℕ
  unfolding tenant_insert
  insert_added m = do
    tenant_id ← or_error (tenant_insert m) Error.service
    require (ltb 0 tenant_id) Error.tenant_add
    pure tenant_id

  -- The COMMIT, and the deferred removal from the cache.
  unfoldable pub commit_and_evict : World P → ℕ → Result (Unit {0}) × World P → Result ℕ × World P
  unfolding commit_reporting evict_tenant_cache
  commit_and_evict before tenant_id p =
      let (r, w) = commit_reporting before tenant_id p in (r, (evict_tenant_cache tenant_id w).1)

  -- Without a transaction, `tx` is nil when TenantInsert uses it.
  unfoldable pub add_when_begun : Tenant → Result (Unit {0}) → Exec P ℕ
  unfolding transacted insert_added commit_and_evict
  add_when_begun m (ok _) = transacted commit_and_evict (insert_added m)
  add_when_begun m (err e) = λ w. (panic, w)
  add_when_begun m panic = λ w. (panic, w)

  -- TenantAdd; its tenant has the root role, and no other
  unfoldable pub tenant_add : Tenant → Exec P ℕ
  unfolding begin add_when_begun or_empty root_role text_eq
  tenant_add m =
      if m.uid == 0
      then raise Error.tenant_add
      else if text_eq m.tenant_name []
      then raise Error.tenant_name_null
      else if text_eq m.tenant_type []
      then raise Error.tenant_type_null
      else if ltb 100 (length (or_empty m.configuration).more)
      then raise Error.service
      else do
        begun ← attempt begin
        add_when_begun
            (record m {
              configuration = some (record (or_empty m.configuration) { roles = root_role ∷ [] });
            })
            begun
