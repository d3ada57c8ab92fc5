-- ===== src/Service/Admin.antt =====
-- service/admin.service.go and service/tenant_tree.service.go: what the administrator of the root
-- tenant lists, changes and deletes.
use passport.Base.{
  ℕ, zero, suc, Bool, true, false, Option, none, some, List, [], ◌∷◌, not, ◌&&◌, ◌||◌, ltb, ◌==◌,
  if◌then◌else◌, keep_if, length,
}
use passport.Text.{Text, text_eq}
use passport.Errors.{Error, Result, ok, err, panic}
use passport.Protos.{User, Tenant, TenantConfiguration, Value, MapStruct}
use passport.Request.{UpdateTenantReq, UpdateTenantConfigReq}
use passport.World.{Exec, pure, raise, gets, ◌>>=◌, ◌>>◌, exec, or_error, attempt}
use passport.Access.{Enforcer}
use passport.Dao.Tree.{TreeRow, tenant_list, tenant_query, tenant_count}
use passport.Dao.Tenant.{tenant_get_by_id, tenant_update_base, tenant_update_configuration}
use passport.Dao.Listing.{user_query_by_tenant}
use passport.Service.Tenant.{tenant_get_by_id_service, then_evict, evict_tenant_cache}
use passport.Service.Tree.{PageResponse, some_rows, collect_tenant_subtree}
use passport.Service.TenantUser.{tenant_user_del}
use passport.Service.Parent.{admin_tenant_set_parent}

-- An error of TenantUpdateConfiguration as AdminTenantUpdateConfig returns it.
config_error : Error → Error
config_error Error.tenant_not_found = Error.tenant_not_found
config_error Error.modify = Error.modify
config_error _ = Error.service

-- An error of TenantUpdateBase as AdminTenantUpdate returns it.
base_error : Error → Error
base_error Error.tenant_not_found = Error.tenant_not_found
base_error _ = Error.service

map_error : {P A : Type 0} → (Error → Error) → Result A → Exec P A
map_error f (ok a) = pure a
map_error f (err e) = raise (f e)
map_error f panic = λ w. (panic, w)

-- `if req.Info != nil { … }`; a nil map counts as an empty one
info_or : MapStruct → Option MapStruct → MapStruct
info_or old none = old
info_or old (some new) = new

module _ {P : Type 0} where
  -- The number of all tenants, whatever has been asked for.
  count_if : Bool → Exec P ℕ
  unfolding tenant_count
  count_if false = pure 0
  count_if true = or_error tenant_count Error.service

  -- AdminTenantList
  unfoldable pub admin_tenant_list : ℕ → ℕ → Bool → Exec P PageResponse
  unfolding tenant_list some_rows count_if
  admin_tenant_list page page_size has_total = do
    rr ← or_error (tenant_list page page_size) Error.service
    list ← some_rows rr
    total ← count_if has_total
    pure (record { list = list; total = total })

  -- AdminTenantQuery
  unfoldable pub admin_tenant_query :
      (Value → Option Text) → Text → Text → ℕ → ℕ → Bool → Exec P PageResponse
  unfolding tenant_query some_rows count_if
  admin_tenant_query json_text tenant_name cellphone page page_size has_total = do
    rr ← or_error (tenant_query json_text tenant_name cellphone page page_size) Error.service
    list ← some_rows rr
    total ← count_if has_total
    pure (record { list = list; total = total })

  update_base_of : UpdateTenantReq → Option Tenant → Exec P (Unit {0})
  unfolding tenant_update_base map_error base_error info_or
  update_base_of req none = raise Error.tenant_not_found
  update_base_of req (some t) = do
    done ← attempt (
        tenant_update_base (record t {
          tenant_name = req.tenant_name;
          tenant_type = req.tenant_type;
          info = info_or t.info req.info;
        }))
    map_error base_error done

  find_and_update : User → UpdateTenantReq → Exec P (Unit {0})
  unfolding tenant_get_by_id update_base_of text_eq
  find_and_update sess req =
      if sess.uid == 0 || sess.tenant_id == 0
      then raise Error.no_auth
      else if req.tenant_id == 0
      then raise Error.param
      else if text_eq req.tenant_name [] || text_eq req.tenant_type []
      then raise Error.param
      else do
        found ← or_error (tenant_get_by_id req.tenant_id) Error.service
        update_base_of req found

  -- AdminTenantUpdate
  unfoldable pub admin_tenant_update : User → UpdateTenantReq → Exec P (Unit {0})
  unfolding then_evict find_and_update
  admin_tenant_update sess req = then_evict req.tenant_id (find_and_update sess req)

  set_configuration : TenantConfiguration → ℕ → Option Tenant → Exec P (Unit {0})
  unfolding tenant_update_configuration map_error config_error
  set_configuration conf version none = raise Error.tenant_not_found
  set_configuration conf version (some t) = do
    done ← attempt (
        tenant_update_configuration (record t { configuration = some conf; update_time = version }))
    map_error config_error done

  -- With the version that the request names, if its time can be parsed.
  configure_version : ℕ → TenantConfiguration → Option ℕ → Exec P (Unit {0})
  unfolding tenant_get_by_id set_configuration
  configure_version tenant_id conf none = raise Error.param
  configure_version tenant_id conf (some version) = do
    found ← or_error (tenant_get_by_id tenant_id) Error.service
    set_configuration conf version found

  configure_if_given :
      (Text → Option ℕ) → UpdateTenantConfigReq → Option TenantConfiguration → Exec P (Unit {0})
  unfolding configure_version text_eq
  configure_if_given parse_time req none = raise Error.param
  configure_if_given parse_time req (some conf) =
      if req.tenant_id == 0 || text_eq req.last_update_time []
      then raise Error.param
      else configure_version req.tenant_id conf (parse_time req.last_update_time)

  configure_for : (Text → Option ℕ) → User → UpdateTenantConfigReq → ℕ → Exec P (Unit {0})
  unfolding configure_if_given
  configure_for parse_time sess req root =
      if not (sess.tenant_id == root) && not (sess.tenant_id == req.tenant_id)
      then raise Error.no_auth
      else configure_if_given parse_time req req.configuration

  -- AdminTenantUpdateConfig; `parse_time` is time.Parse with RFC3339, in seconds
  unfoldable pub admin_tenant_update_config :
      (Text → Option ℕ) → User → UpdateTenantConfigReq → Exec P (Unit {0})
  unfolding then_evict configure_for
  admin_tenant_update_config parse_time sess req =
      then_evict req.tenant_id
        (do root ← gets (λ w. w.root_tenant_id); configure_for parse_time sess req root)

  -- The direct children of the tenant are hung under the tenant of the caller.
  reparent : ℕ → ℕ → List TreeRow → Exec P (Unit {0})
  unfolding admin_tenant_set_parent
  reparent sess_tenant tenant_id [] = pure tt
  reparent sess_tenant tenant_id (child ∷ rows) =
      let others = reparent sess_tenant tenant_id rows in
      if not (child.depth == 1) || child.tenant.id == tenant_id
      then others
      else or_error (admin_tenant_set_parent sess_tenant child.tenant.id sess_tenant) Error.service
        >> others

  -- deleteTenantRelatedData
  unfoldable pub delete_tenant_related_data : ℕ → Exec P (Unit {0})
  unfolding exec
  delete_tenant_related_data tenant_id = do
    exec (λ w. record w {
      departments = keep_if (λ d. not (d.tenant_id == tenant_id)) w.departments;
    })
    exec (λ w. record w {
      permissions = keep_if (λ p. not (p.tenant_id == tenant_id)) w.permissions;
    })

  -- deleteTenantRecord; the rows of tenant_closure that name the tenant go with it
  unfoldable pub delete_tenant_record : ℕ → Exec P (Unit {0})
  unfolding exec
  delete_tenant_record tenant_id = exec (λ w. record w {
    tenants = keep_if (λ t. not (t.id == tenant_id)) w.tenants;
    closure =
        keep_if (λ r. not (r.ancestor == tenant_id) && not (r.descendant == tenant_id)) w.closure;
  })

  module _ (c : Enforcer P) where
    delete_users : ℕ → List User → Exec P (Unit {0})
    unfolding tenant_user_del
    delete_users tenant_id [] = pure tt
    delete_users tenant_id (u ∷ us) = do
      tenant_user_del c u.uid tenant_id
      delete_users tenant_id us

    -- The body of the loop of deleteUsersByTenant.
    after_users : ℕ → List User → Exec P (Option (Unit {0})) → Exec P (Option (Unit {0}))
    unfolding delete_users
    after_users tenant_id users next = if length users == 0 then pure (some tt) else do
      delete_users tenant_id users
      if ltb (length users) 500 then pure (some tt) else next

    -- deleteUsersByTenant, on fuel: it reads the first page again and again.
    unfoldable pub delete_users_by_tenant : ℕ → ℕ → Exec P (Option (Unit {0}))
    unfolding user_query_by_tenant after_users
    delete_users_by_tenant zero tenant_id = pure none
    delete_users_by_tenant (suc n) tenant_id = do
      users ← user_query_by_tenant tenant_id 1 500 [] []
      after_users tenant_id users (delete_users_by_tenant n tenant_id)

    delete_data : ℕ → Option (Unit {0}) → Exec P (Option (Unit {0}))
    unfolding delete_tenant_related_data delete_tenant_record evict_tenant_cache
    delete_data tenant_id none = pure none
    delete_data tenant_id (some _) = do
      or_error (delete_tenant_related_data tenant_id) Error.service
      or_error (delete_tenant_record tenant_id) Error.service
      evict_tenant_cache tenant_id
      pure (some tt)

    delete_with : ℕ → ℕ → ℕ → Option (List TreeRow) → Exec P (Option (Unit {0}))
    unfolding reparent delete_users_by_tenant delete_data
    delete_with fuel sess_tenant tenant_id none = pure none
    delete_with fuel sess_tenant tenant_id (some subtree) = do
      reparent sess_tenant tenant_id subtree
      deleted ← or_error (delete_users_by_tenant fuel tenant_id) Error.service
      delete_data tenant_id deleted

    delete_tenant : ℕ → User → ℕ → ℕ → Exec P (Option (Unit {0}))
    unfolding tenant_get_by_id_service collect_tenant_subtree delete_with
    delete_tenant fuel sess tenant_id root =
        if root == 0 || not (sess.tenant_id == root)
        then raise Error.no_auth
        else if tenant_id == root
        then raise Error.no_auth
        else do
          tenant_get_by_id_service tenant_id
          subtree ← or_error (collect_tenant_subtree fuel tenant_id) Error.service
          delete_with fuel sess.tenant_id tenant_id subtree

    -- AdminTenantDelete, with fuel for its loops over pages. Each step commits on its own.
    unfoldable pub admin_tenant_delete : ℕ → User → ℕ → Exec P (Option (Unit {0}))
    unfolding delete_tenant
    admin_tenant_delete fuel sess tenant_id =
        if sess.uid == 0 || (sess.tenant_id == 0 || tenant_id == 0)
        then raise Error.param
        else do root ← gets (λ w. w.root_tenant_id); delete_tenant fuel sess tenant_id root
