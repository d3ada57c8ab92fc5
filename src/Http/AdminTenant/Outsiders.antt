-- ===== src/Http/AdminTenant/Outsiders.antt =====
-- The handlers for the administrator, called by others.
use passport.Base.{
  ℕ, ◌≡◌, ◌≢◌, ◌⊎◌, inl, inr, refl, sym, ap, ◌∙◌, subst, Bool, true, false, none, some, not, ◌||◌,
  ◌==◌, if◌then◌else◌, arith,
}
use passport.Errors.{Error, Result, ok}
use passport.Protos.{User}
use passport.World.{World, Exec, pure}
use passport.Hoare.{Outcome, returned, Triple-bind}
use passport.Http.{Session, of_user, get_session_user}
use passport.Http.AdminTenant.Sessions.{IsSame, get_session_user-Triple}
use passport.Http.AdminTenant.{
  admin_request, AdminCall, Answer, lacks_config, lacks_base, Libraries, authorize_for,
  authorize_admin_tenant, if_authorized, authorized, create_for, more_for, config_for, update_for,
  set_parent_for, delete_for, admin_call,
}

-- The request is refused.
unfoldable pub is_refusal : Answer → Bool
is_refusal (Answer.unauthorized e) = true
is_refusal (Answer.refused e) = true
is_refusal Answer.done = false
is_refusal Answer.unanswered = false
is_refusal (Answer.page p) = false

module _ {P : Type 0} (l : Libraries P) (fuel : ℕ) (u : User) (w : World P)
    (outside : (u.uid ≡ 0) ⊎ (u.tenant_id ≢ w.root_tenant_id)) where
  -- It is refused, and nothing has changed.
  abbrev Refuses : Exec P Answer → Type 0
  Refuses m = (a : Answer) × (m w ≡ (ok a, w)) × (is_refusal a ≡ true)

  authorized-Refuses : (m : Exec P Answer) → Refuses (authorized l u m)
  unfolding authorized authorize_admin_tenant authorize_for if_authorized is_refusal
  authorized-Refuses m =
      let no : (u.uid == 0 || (u.tenant_id == 0 || not (u.tenant_id == w.root_tenant_id))) ≡ true =
        ground (arith, outside) in
      (Answer.unauthorized Error.no_auth, rw no refl, refl)

  refused-Refuses : (e : Error) → Refuses (pure (Answer.refused e))
  unfolding is_refusal
  refused-Refuses e = (Answer.refused e, refl, refl)

  if-Refuses :
      (b : Bool) (m n : Exec P Answer) → Refuses m → Refuses n → Refuses (if b then m else n)
  if-Refuses true m n hm hn = hm
  if-Refuses false m n hm hn = hn

  admin_call-Refuses : (call : AdminCall) → Refuses (admin_call l fuel u call)
  unfolding admin_call more_for config_for update_for set_parent_for delete_for
  admin_call-Refuses (AdminCall.new req) = authorized-Refuses (create_for l u req)
  admin_call-Refuses (AdminCall.find name cellphone has_total page_no page_size) =
      authorized-Refuses _
  admin_call-Refuses (AdminCall.set_parent tid pid) =
      if-Refuses (tid == 0 || pid == 0) _ _ (refused-Refuses Error.param) (authorized-Refuses _)
  admin_call-Refuses (AdminCall.delete tid) =
      if-Refuses (tid == 0 || tid == w.root_tenant_id) _ _ (refused-Refuses Error.param)
        (authorized-Refuses _)
  admin_call-Refuses (AdminCall.update_more none) = refused-Refuses Error.param
  admin_call-Refuses (AdminCall.update_more (some (tenant_id, entries))) = authorized-Refuses _
  admin_call-Refuses (AdminCall.update_config none) = refused-Refuses Error.param
  admin_call-Refuses (AdminCall.update_config (some req)) =
      if-Refuses (lacks_config req) _ _ (refused-Refuses Error.param) (authorized-Refuses _)
  admin_call-Refuses (AdminCall.update none) = refused-Refuses Error.param
  admin_call-Refuses (AdminCall.update (some req)) =
      if-Refuses (lacks_base req) _ _ (refused-Refuses Error.param) (authorized-Refuses _)

module _ {P : Type 0} where
  -- The handlers of face/admin/admin_tenant.go refuse every request whose session has no user, or
  -- one who is not of the root tenant, whatever is asked for, whatever is stored and whatever
  -- statements fail. Such a request changes nothing but loginUserCache: no table, cache or policy.
  pub admin_request_outside :
      (l : Libraries P) (fuel : ℕ) (s : Session) (call : AdminCall) (w : World P)
      → ((u : User) → s ≡ of_user u → u.tenant_id ≢ w.root_tenant_id)
      → Outcome
          (λ a v. (is_refusal a ≡ true) × IsSame w v)
          (λ _. ⊥)
          (admin_request l fuel s call w).0
          (admin_request l fuel s call w).1
  unfolding admin_request
  admin_request_outside l fuel s call w outside =
      (Triple-bind {Pre = IsSame w} (λ u v. IsSame w v × ((u.uid ≡ 0) ⊎ (s ≡ of_user u)))
          (get_session_user s) (λ u. admin_call l fuel u call) (get_session_user-Triple w s)
          (λ u. record {
            at = λ v h.
                let (a, runs, refused) =
                  admin_call-Refuses l fuel u v
                    (elim h.1 [
                      | inl e ↦ inl e
                      | inr e ↦ inr (λ x. outside u e (x ∙ ap (λ y. y.root_tenant_id) h.0))
                    ])
                    call in
                subst
                  (λ (x : Result Answer × World P).
                    Outcome (λ a v. (is_refusal a ≡ true) × IsSame w v) (λ _. ⊥) x.0 x.1)
                  (sym runs) (returned {a = a} (refused, h.0));
          })).at
        w refl
