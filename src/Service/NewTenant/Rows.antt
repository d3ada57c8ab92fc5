-- ===== src/Service/NewTenant/Rows.antt =====
-- The rows that AdminTenantNew writes in its transaction.
use passport.Base.{ℕ, ◌≡◌, ap, List, [], ◌∷◌, ◌++◌, not, ◌&&◌, ltb, if◌then◌else◌, arith}
use passport.Text.{text_eq}
use passport.Errors.{Error, Result, ok, err, panic}
use passport.Protos.{User}
use passport.Request.{UserReq, NewTenantReq, Checks, encry_pwd}
use passport.Closure.{Table, row, insert_ignore, insert_ancestors, insert_tenant}
use passport.World.{World, Exec, or_error, attempt, require}
use passport.Hoare.{
  Triple, Triple-bind, Triple-pure, Triple-raise, Triple-if, Triple-require, Triple-or_error,
  Triple-statement, Triple-exec, Triple-relax, Triple-try, Triple-known, weaken-Outcome,
}
use passport.Dao.Account.{insert_user, user_insert, inserted_user}
use passport.Dao.Closure.{on_closure, tenant_closure_insert}
use passport.Dao.Tenant.{tenant_insert}
use passport.Service.User.{user_pre_treat, with_nickname, user_check_duplicates}
use passport.Service.User.Registration.{
  registration, HasAccountsOf, HasTenantsOf, HasAdded, user_check_duplicates-Triple,
  insert_user-Triple,
}
use passport.Service.NewTenant.Insertion.{Broken, IsInserted, tenant_insert-Triple}
use passport.Service.NewTenant.{
  wants_admin, admin_request, requested_tenant, tenant_inserted, add_user_service_with_tx, admin_of,
  create_tenant,
}

module _ {P : Type 0} where
  module _ (c : Checks) (w : World P) where
    insert_admin : UserReq → Exec P ℕ
    insert_admin q =
        or_error (user_insert (record q { password = encry_pwd c q.password })) Error.service

    insert_admin-Triple :
        (p : UserReq)
        → Triple
            (HasAccountsOf w)
            (insert_admin (with_nickname (user_pre_treat p)))
            (HasAdded (registration c p) w)
            Broken
    unfolding insert_admin user_insert
    insert_admin-Triple p =
        let q = registration c p in
        Triple-or_error (user_insert q) Error.service (
          Triple-statement (insert_user q) (λ v fs h. tt) (λ v fs h. h)
            (Triple-relax (insert_user q) (insert_user-Triple q w) (λ v h. tt)))

    add_user_service_with_tx-Triple :
        (p : UserReq)
        → Triple
            (HasAccountsOf w)
            (add_user_service_with_tx c p)
            (HasAdded (registration c p) w)
            Broken
    unfolding add_user_service_with_tx insert_admin
    add_user_service_with_tx-Triple p =
        let q = user_pre_treat p in
        Triple-if (text_eq p.cellphone [] && text_eq p.email [] && text_eq p.nickname []) _ _
          (λ _. Triple-raise Error.user_name (λ v h. tt))
          (λ _.
            Triple-if (text_eq p.password []) _ _ (λ _. Triple-raise Error.pwd_nil (λ v h. tt))
              (λ _.
                Triple-bind (λ _. HasAccountsOf w) (require (c.is_valid q) Error.param) _
                  (Triple-require (c.is_valid q) Error.param (λ v h _. h) (λ v h. tt))
                  (λ _.
                    Triple-bind (λ r v. (r ≡ with_nickname q) × HasAccountsOf w v)
                      (user_check_duplicates q) insert_admin
                      (Triple-relax (user_check_duplicates q) (user_check_duplicates-Triple w q)
                        (λ v h. tt))
                      (Triple-known (with_nickname q) insert_admin (insert_admin-Triple p)))))

-- The id of the administrator, if the request has one.
unfoldable pub admin_uid : {P : Type 0} → NewTenantReq → World P → ℕ
unfolding wants_admin
admin_uid m w = if wants_admin m then w.next_uid else 0

module _ {P : Type 0} (c : Checks) (m : NewTenantReq) (w : World P) where
  -- The accounts with the administrator's.
  unfoldable pub accounts : ℕ → List User
  unfolding wants_admin admin_request inserted_user
  accounts uid =
      if wants_admin m
      then w.users ++ inserted_user uid (registration c (admin_request m)) ∷ []
      else w.users

  -- The administrator's account is there, and the tenants are as they were.
  abbrev IsAdmin : ℕ → World P → Type 0
  IsAdmin uid v = (uid ≡ admin_uid m w) × (v.users ≡ accounts uid) × HasTenantsOf w v

  -- The tenant is there with its administrator, and the closure table is `s`.
  abbrev pub IsBound : Table → ℕ → ℕ → World P → Type 0
  IsBound s uid tenant_id v =
      (uid ≡ admin_uid m w) × IsInserted (requested_tenant m uid) (accounts uid) w s tenant_id v

  admin_of-Triple : Triple (HasAccountsOf w) (admin_of c m) IsAdmin Broken
  unfolding admin_of accounts admin_uid
  admin_of-Triple =
      Triple-if (not (wants_admin m)) _ _
        (λ none. Triple-pure 0 (λ v h. (ground arith, ground (arith, h.0), h.2)))
        (λ some.
          Triple-bind (HasAdded (registration c (admin_request m)) w)
            (add_user_service_with_tx c (admin_request m)) _
            (add_user_service_with_tx-Triple c w (admin_request m))
            (λ uid.
              Triple-bind (λ _. IsAdmin uid) (require (ltb 0 uid) Error.service) _
                (Triple-require (ltb 0 uid) Error.service
                  (λ v h _. (ground (arith, h.id), ground (arith, h.added), h.others)) (λ v h. tt))
                (λ _. Triple-pure uid (λ v h. h))))

  insert_requested-Triple :
      (uid : ℕ)
      → Triple (IsAdmin uid) (tenant_insert (requested_tenant m uid)) (IsBound w.closure uid) Broken
  insert_requested-Triple uid = record {
    at = λ v h.
        weaken-Outcome (λ tenant_id u k. (h.0, k))
          ((tenant_insert-Triple (requested_tenant m uid) (accounts uid) w).at v (h.1, h.2));
  }

  -- The row of the INSERT, or nothing.
  HasRow : ℕ → Result ℕ → World P → Type 0
  HasRow uid (ok tenant_id) v = IsBound w.closure uid tenant_id v
  HasRow uid (err e) v = Unit
  HasRow uid panic v = ⊥

  tenant_inserted-Triple :
      (uid : ℕ) (r : Result ℕ)
      → Triple (HasRow uid r) (tenant_inserted r) (IsBound w.closure uid) Broken
  unfolding tenant_inserted HasRow
  tenant_inserted-Triple uid (ok tenant_id) = Triple-pure tenant_id (λ v h. h)
  tenant_inserted-Triple uid (err e) = Triple-raise _ (λ v h. tt)
  tenant_inserted-Triple uid panic = record { at = λ v h. absurd h }

  on_closure-IsBound :
      (f : Table → Table) (s : Table) (uid tenant_id : ℕ)
      → Triple (IsBound s uid tenant_id) (on_closure f) (λ _. IsBound (f s) uid tenant_id) Broken
  on_closure-IsBound f s uid tenant_id =
      Triple-exec (λ v. record v { closure = f v.closure }) (λ v fs h. tt) (λ v fs h. h)
        (λ v h. (h.0, (ap f h.1.0, h.1.1, h.1.2)))

  tenant_closure_insert-Triple :
      (ancestor_id uid tenant_id : ℕ)
      → Triple
          (IsBound w.closure uid tenant_id)
          (tenant_closure_insert ancestor_id tenant_id)
          (λ _. IsBound (insert_tenant ancestor_id tenant_id w.closure) uid tenant_id)
          Broken
  unfolding tenant_closure_insert insert_tenant
  tenant_closure_insert-Triple ancestor_id uid tenant_id =
      let t1 = insert_ignore (row tenant_id tenant_id 0) w.closure in
      let t2 = insert_ignore (row ancestor_id tenant_id 1) t1 in
      Triple-bind (λ _. IsBound t1 uid tenant_id)
        (on_closure (insert_ignore (row tenant_id tenant_id 0))) _
        (on_closure-IsBound (insert_ignore (row tenant_id tenant_id 0)) w.closure uid tenant_id)
        (λ _.
          Triple-bind (λ _. IsBound t2 uid tenant_id)
            (on_closure (insert_ignore (row ancestor_id tenant_id 1))) _
            (on_closure-IsBound (insert_ignore (row ancestor_id tenant_id 1)) t1 uid tenant_id)
            (λ _. on_closure-IsBound (insert_ancestors ancestor_id tenant_id) t2 uid tenant_id))

  pub create_tenant-Triple :
      (ancestor_id : ℕ)
      → Triple
          (HasAccountsOf w)
          (create_tenant c m ancestor_id)
          (λ ids. IsBound (insert_tenant ancestor_id ids.1 w.closure) ids.0 ids.1)
          Broken
  unfolding create_tenant HasRow
  create_tenant-Triple ancestor_id = Triple-bind IsAdmin (admin_of c m) _ admin_of-Triple (λ uid.
      Triple-bind (HasRow uid) (attempt (tenant_insert (requested_tenant m uid))) _
        (Triple-try (tenant_insert (requested_tenant m uid)) (
          Triple-relax (tenant_insert (requested_tenant m uid)) (insert_requested-Triple uid)
            (λ v h e. tt)))
        (λ r.
          Triple-bind (IsBound w.closure uid) (tenant_inserted r) _ (tenant_inserted-Triple uid r)
            (λ tenant_id.
              Triple-bind (λ _. IsBound w.closure uid tenant_id)
                (require (ltb 0 tenant_id) Error.service) _
                (Triple-require (ltb 0 tenant_id) Error.service (λ v h _. h) (λ v h. tt))
                (λ _.
                  Triple-bind
                    (λ _. IsBound (insert_tenant ancestor_id tenant_id w.closure) uid tenant_id)
                    (or_error (tenant_closure_insert ancestor_id tenant_id) Error.service) _
                    (Triple-or_error (tenant_closure_insert ancestor_id tenant_id) Error.service
                      (tenant_closure_insert-Triple ancestor_id uid tenant_id))
                    (λ _. Triple-pure (uid, tenant_id) (λ v h. h))))))
