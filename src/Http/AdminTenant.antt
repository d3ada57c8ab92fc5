-- ===== src/Http/AdminTenant.antt =====
-- face/admin/admin_tenant.go: the handlers for the administrator of the root tenant, with their
-- requests as decoded.
pub mod Sessions
pub mod Outsiders
use passport.Base.{
  ℕ, Bool, true, false, Option, none, some, [], not, ◌&&◌, ◌||◌, ltb, ◌==◌, if◌then◌else◌,
}
use passport.Text.{Text, text_eq, codes, trim_space}
use passport.Errors.{Error, Result, ok, err, panic}
use passport.Protos.{User, Tenant, Value, MapStruct}
use passport.Request.{NewTenantReq, UpdateTenantReq, UpdateTenantConfigReq, Checks}
use passport.World.{Exec, pure, raise, gets, ◌>>=◌, attempt, require}
use passport.Access.{Enforcer}
use passport.Http.{Session, get_session_user}
use passport.Service.Org.{user_has_role_in_tenant}
use passport.Service.Tree.{PageResponse, admin_tenant_take}
use passport.Service.Parent.{admin_tenant_set_parent}
use passport.Service.NewTenant.{trimmed, wants_admin, is_incomplete, admin_tenant_new}
use passport.Service.TenantConfig.{tenant_update_configuration_service}
use passport.Service.Admin.{
  admin_tenant_query, admin_tenant_update, admin_tenant_update_config, admin_tenant_delete,
}

-- A handler with its request; `none` is a body that cannot be decoded.
pub data AdminCall : Type 0 where
  new : Option NewTenantReq → AdminCall
  find : (name cellphone : Text) → (has_total page page_size : ℕ) → AdminCall
  set_parent : (tid pid : ℕ) → AdminCall
  delete : (tid : ℕ) → AdminCall
  update_more : Option (ℕ × MapStruct) → AdminCall
  update_config : Option UpdateTenantConfigReq → AdminCall
  update : Option UpdateTenantReq → AdminCall

-- The status 401 with an error, 200 with an error, or 200 with a result. (A delete that is out of
-- fuel has no answer.)
pub data Answer : Type 0 where
  unauthorized refused : Error → Answer
  done unanswered : Answer
  page : PageResponse → Answer

-- The libraries that the handlers reach.
pub record Libraries (P : Type 0) : Type 0 where
  pub enforcer : Enforcer P
  pub checks : Checks
  pub json_text : Value → Option Text
  pub parse_time : Text → Option ℕ

page_or_first : ℕ → ℕ
page_or_first p = if ltb p 1 then 1 else p

page_size_within : ℕ → ℕ
page_size_within n = if ltb n 1 then 100 else if ltb 1000 n then 1000 else n

-- The request of AdminTenantNew, trimmed.
new_request : NewTenantReq → NewTenantReq
unfolding trimmed trim_space
new_request m = record (trimmed m) {
  tenant_name = trim_space m.tenant_name;
  tenant_type = trim_space m.tenant_type;
}

-- The checks of the handlers on a configuration, and on names.
unfoldable pub lacks_config : UpdateTenantConfigReq → Bool
unfolding text_eq
lacks_config req =
    (req.tenant_id == 0 || text_eq req.last_update_time [])
    || elim req.configuration [ none ↦ true | some c ↦ false ]

unfoldable pub lacks_base : UpdateTenantReq → Bool
unfolding trim_space text_eq
lacks_base req =
    req.tenant_id == 0
    || (text_eq (trim_space req.tenant_name) [] || text_eq (trim_space req.tenant_type) [])

deleted_answer : Option (Unit {0}) → Answer
deleted_answer none = Answer.unanswered
deleted_answer (some _) = Answer.done

module _ {P : Type 0} where
  -- The answer of a handler to what a service has returned.
  answer_to : {A : Type 0} → (A → Answer) → Result A → Exec P Answer
  answer_to f (ok a) = pure (f a)
  answer_to f (err e) = pure (Answer.refused e)
  answer_to f panic = λ w. (panic, w)

  -- A call of a service, answered.
  answered : {A : Type 0} → (A → Answer) → Exec P A → Exec P Answer
  unfolding answer_to
  answered f m = do r ← attempt m; answer_to f r

  if_authorized : Result (Unit {0}) → Exec P Answer → Exec P Answer
  if_authorized (ok _) m = m
  if_authorized (err e) m = pure (Answer.unauthorized e)
  if_authorized panic m = λ w. (panic, w)

  module _ (l : Libraries P) where
    -- The tenant's own administrator, or a user with the role root in it. Without the tenant's row,
    -- a nil is dereferenced.
    owner_or_root : User → Option Tenant → Exec P (Unit {0})
    unfolding user_has_role_in_tenant codes
    owner_or_root u none = λ w. (panic, w)
    owner_or_root u (some t) = if t.uid == u.uid then pure tt else do
      has ← user_has_role_in_tenant l.enforcer u.uid u.tenant_id (codes "root")
      require has Error.no_auth

    authorize_for : User → ℕ → Exec P (Unit {0})
    unfolding admin_tenant_take owner_or_root
    authorize_for u root =
        if u.uid == 0 || (u.tenant_id == 0 || not (u.tenant_id == root))
        then raise Error.no_auth
        else do mine ← admin_tenant_take u.tenant_id; owner_or_root u mine

    -- authorizeAdminTenant
    unfoldable pub authorize_admin_tenant : User → Exec P (Unit {0})
    unfolding authorize_for
    authorize_admin_tenant u = do root ← gets (λ w. w.root_tenant_id); authorize_for u root

    authorized : User → Exec P Answer → Exec P Answer
    unfolding authorize_admin_tenant if_authorized
    authorized u m = do r ← attempt (authorize_admin_tenant u); if_authorized r m

    -- AdminTenantNew, after the authorization
    create_for : User → Option NewTenantReq → Exec P Answer
    unfolding new_request wants_admin is_incomplete answered admin_tenant_new text_eq
    create_for u none = pure (Answer.refused Error.param)
    create_for u (some m) =
        let q = new_request m in
        if (text_eq q.tenant_name [] || text_eq q.tenant_type [])
          || (wants_admin q && is_incomplete q)
        then pure (Answer.refused Error.param)
        else answered (λ ids. Answer.done) (admin_tenant_new l.checks (some u) q)

    more_for : User → Option (ℕ × MapStruct) → Exec P Answer
    unfolding authorized answered tenant_update_configuration_service
    more_for u none = pure (Answer.refused Error.param)
    more_for u (some (tenant_id, entries)) =
        authorized u
          (answered (λ _. Answer.done) (tenant_update_configuration_service tenant_id entries))

    config_for : User → Option UpdateTenantConfigReq → Exec P Answer
    unfolding authorized answered admin_tenant_update_config lacks_config
    config_for u none = pure (Answer.refused Error.param)
    config_for u (some req) =
        if lacks_config req
        then pure (Answer.refused Error.param)
        else authorized u
            (answered (λ _. Answer.done) (admin_tenant_update_config l.parse_time u req))

    update_for : User → Option UpdateTenantReq → Exec P Answer
    unfolding authorized answered admin_tenant_update trim_space lacks_base
    update_for u none = pure (Answer.refused Error.param)
    update_for u (some req) =
        if lacks_base req
        then pure (Answer.refused Error.param)
        else authorized u (
            answered (λ _. Answer.done)
              (admin_tenant_update u (record req {
                tenant_name = trim_space req.tenant_name;
                tenant_type = trim_space req.tenant_type;
              })))

    set_parent_for : User → ℕ → ℕ → Exec P Answer
    unfolding authorized answered admin_tenant_set_parent
    set_parent_for u tid pid =
        if tid == 0 || pid == 0
        then pure (Answer.refused Error.param)
        else authorized u
            (answered (λ _. Answer.done) (admin_tenant_set_parent u.tenant_id tid pid))

    delete_for : ℕ → User → ℕ → ℕ → Exec P Answer
    unfolding authorized answered admin_tenant_delete deleted_answer
    delete_for fuel u tid root =
        if tid == 0 || tid == root
        then pure (Answer.refused Error.param)
        else authorized u (answered deleted_answer (admin_tenant_delete l.enforcer fuel u tid))

    -- The handlers, once GetSessionUser has given the user; `fuel` is for the pages that a delete
    -- reads.
    unfoldable pub admin_call : ℕ → User → AdminCall → Exec P Answer
    unfolding create_for more_for config_for update_for set_parent_for delete_for authorized
        answered admin_tenant_query page_or_first page_size_within
    admin_call fuel u (AdminCall.new req) = authorized u (create_for u req)
    admin_call fuel u (AdminCall.find name cellphone has_total page_no page_size) = authorized u (
        answered Answer.page (
          admin_tenant_query l.json_text name cellphone (page_or_first page_no)
            (page_size_within page_size) (has_total == 1)))
    admin_call fuel u (AdminCall.set_parent tid pid) = set_parent_for u tid pid
    admin_call fuel u (AdminCall.delete tid) = do
      root ← gets (λ w. w.root_tenant_id)
      delete_for fuel u tid root
    admin_call fuel u (AdminCall.update_more req) = more_for u req
    admin_call fuel u (AdminCall.update_config req) = config_for u req
    admin_call fuel u (AdminCall.update req) = update_for u req

    -- A handler from its first line on.
    unfoldable pub admin_request : ℕ → Session → AdminCall → Exec P Answer
    unfolding get_session_user admin_call
    admin_request fuel s call = do u ← get_session_user s; admin_call fuel u call
