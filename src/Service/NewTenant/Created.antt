-- ===== src/Service/NewTenant/Created.antt =====
-- AdminTenantNew: who may call it, where the tenant is hung, and what an error leaves.
use passport.Base.{
  subst, exists, ℕ, ◌≡◌, refl, ap, sym, ◌∙◌, ◌⊎◌, inl, inr, true, false, some, [], not, ◌&&◌, ltb,
  ◌==◌, if◌then◌else◌, arith, Option-cases,
}
use passport.Text.{text_eq, trim_space}
use passport.Errors.{Error}
use passport.Protos.{User}
use passport.Request.{NewTenantReq, Checks}
use passport.Closure.{find_depth, insert_tenant}
use passport.Closure.Forest.{Forest, Represents}
use passport.Closure.Insert.{add_leaf, insert_tenant-Represents}
use passport.World.{World, Exec, pure, ◌>>◌, ◌>>=◌, or_error, require}
use passport.Hoare.{
  Outcome, Triple, returned, Triple-bind, Triple-pure, Triple-if, Triple-raise, Triple-require,
  Triple-or_error, Triple-exec, Triple-query, Triple-known, Triple-when, Triple-weaken,
}
use passport.Transaction.{restore, transacted, commit_dropping}
use passport.Transaction.Ended.{commit_dropping-Outcome, transacted-Triple}
use passport.DefaultCache.{del_tenant_cache}
use passport.Dao.Closure.{tenant_closure_is_descendant}
use passport.Dao.Tenant.{is_named_tenant, tenant_name_exists}
use passport.Service.Tenant.{evict_tenant_cache}
use passport.Service.Tree.{is_some}
use passport.Service.Parent.{begin}
use passport.Service.User.Registration.{HasAccountsOf}
use passport.Service.NewTenant.{
  requested_tenant, trimmed, wants_admin, is_incomplete, parent_of, create_tenant, new_tenant_under,
  new_tenant_of, admin_tenant_new,
}
use passport.Service.NewTenant.Insertion.{bound, IsNumbered}
use passport.Service.NewTenant.Rows.{accounts, admin_uid, IsBound, create_tenant-Triple}

-- The tenant to hang the new one under.
pub parent_chosen : ℕ → ℕ → ℕ
parent_chosen sess_tenant parent_id = if parent_id == 0 then sess_tenant else parent_id

module _ {P : Type 0} (w : World P) where
  -- The tables are as in `w`.
  abbrev pub HasTablesOf : World P → Type 0
  HasTablesOf v = (v.users ≡ w.users) × (v.tenants ≡ w.tenants) × (v.closure ≡ w.closure)

  -- The new tenant is a leaf of the forest.
  abbrev pub HasNew : Checks → NewTenantReq → Forest → ℕ → ℕ × ℕ → World P → Type 0
  HasNew c m f parent_id ids v =
      Represents (add_leaf parent_id ids.1 f) v.closure
      × (ids.0 ≡ admin_uid m w)
      × (v.users ≡ bound (requested_tenant m ids.0) (accounts c m w ids.0) ids.1)
      × IsNumbered (requested_tenant m ids.0) w ids.1 v

  module _ (c : Checks) (m : NewTenantReq) (f : Forest) (r : Represents f w.closure)
      (sess_tenant : ℕ) (known : f.node sess_tenant ≡ true) where
    parent_of-Triple :
        Triple
          (HasAccountsOf w)
          (parent_of sess_tenant m.parent_id)
          (λ p v.
            (p ≡ parent_chosen sess_tenant m.parent_id) × HasAccountsOf w v × (f.node p ≡ true))
          HasTablesOf
    unfolding parent_of tenant_closure_is_descendant is_some parent_chosen
    parent_of-Triple =
        Triple-if (m.parent_id == 0) _ _
          (λ own. Triple-pure sess_tenant (λ v h. (ground arith, h, known)))
          (λ other.
            Triple-bind
              (λ depth v.
                HasAccountsOf w v × (depth ≡ find_depth sess_tenant m.parent_id w.closure))
              (or_error (tenant_closure_is_descendant sess_tenant m.parent_id) Error.service) _
              (Triple-or_error (tenant_closure_is_descendant sess_tenant m.parent_id) Error.service
                (Triple-query (λ v. find_depth sess_tenant m.parent_id v.closure)
                  (λ v fs h. (h.0, h.2.0, h.2.1)) (λ v fs h. h)
                  (λ v h. (h, ap (find_depth sess_tenant m.parent_id) h.2.1))))
              (λ depth.
                Triple-bind (λ _ v. HasAccountsOf w v × (f.node m.parent_id ≡ true))
                  (require (is_some depth) Error.no_auth) _
                  (Triple-require (is_some depth) Error.no_auth
                    (λ v h below. (
                      h.0,
                      elim (Option-cases depth) [
                        | inl e ↦ absurd (ground arith)
                        | inr (k, e) ↦ (r.sound sess_tenant m.parent_id k (sym h.1 ∙ e)).0
                      ],
                    ))
                    (λ v h. (h.0.0, h.0.2.0, h.0.2.1)))
                  (λ _. Triple-pure m.parent_id (λ v h. (ground arith, h.0, h.1)))))

    module _ (fresh : f.node w.next_tenant_id ≡ false) where
      IsNew : ℕ × ℕ → World P → Type 0
      IsNew = HasNew c m f (parent_chosen sess_tenant m.parent_id)

      created :
          (ids : ℕ × ℕ) (v : World P)
          → f.node (parent_chosen sess_tenant m.parent_id) ≡ true
          → IsBound c m w
              (insert_tenant (parent_chosen sess_tenant m.parent_id) ids.1 w.closure)
              ids.0
              ids.1
              v
          → IsNew ids v
      unfolding IsNew
      created ids v parent_known h = (
        subst (Represents (add_leaf (parent_chosen sess_tenant m.parent_id) ids.1 f)) (sym h.1.0) (
            insert_tenant-Represents (parent_chosen sess_tenant m.parent_id) ids.1 f r
              (ap f.node h.1.2.0 ∙ fresh) parent_known),
        h.0,
        h.1.1,
        h.1.2,
      )

      evict-Triple :
          (ids : ℕ × ℕ)
          → Triple
              (λ v. IsNew ids v ⊎ HasTablesOf v)
              (evict_tenant_cache ids.1)
              (λ _ v. IsNew ids v ⊎ HasTablesOf v)
              HasTablesOf
      unfolding evict_tenant_cache del_tenant_cache IsNew
      evict-Triple ids =
          Triple-when (ltb 0 ids.1) (del_tenant_cache ids.1)
            (λ _. record { at = λ v h. returned {a = tt} {w = (del_tenant_cache ids.1 v).1} h })
            (λ v h _. h)

      -- The end of AdminTenantNew.
      create_and_evict : ℕ → Exec P (ℕ × ℕ)
      create_and_evict ancestor_id = do
        ids ← transacted commit_dropping (create_tenant c m ancestor_id)
        evict_tenant_cache ids.1
        pure ids

      create_and_evict-Triple :
          Triple
            (λ v. HasAccountsOf w v × (f.node (parent_chosen sess_tenant m.parent_id) ≡ true))
            (create_and_evict (parent_chosen sess_tenant m.parent_id))
            (λ ids v. IsNew ids v ⊎ HasTablesOf v)
            HasTablesOf
      unfolding create_and_evict restore IsNew
      create_and_evict-Triple = record {
        at = λ v k.
            (Triple-bind {Pre = HasAccountsOf w} (λ ids u. IsNew ids u ⊎ HasTablesOf u)
                (transacted commit_dropping
                  (create_tenant c m (parent_chosen sess_tenant m.parent_id)))
                _
                (transacted-Triple {Post = IsNew} {Same = HasTablesOf} commit_dropping
                  commit_dropping-Outcome (λ a u fs h. h)
                  (create_tenant c m (parent_chosen sess_tenant m.parent_id))
                  (λ b u h. (h.0, h.2.0, h.2.1))
                  (Triple-weaken (create_tenant c m (parent_chosen sess_tenant m.parent_id))
                    (create_tenant-Triple c m w (parent_chosen sess_tenant m.parent_id))
                    (λ ids u. created ids u k.1)))
                (λ ids.
                  Triple-bind (λ _ u. IsNew ids u ⊎ HasTablesOf u) (evict_tenant_cache ids.1) _
                    (evict-Triple ids) (λ _. Triple-pure ids (λ u h. h)))).at
              v k.0;
      }

      begin_and_create : ℕ → Exec P (ℕ × ℕ)
      unfolding create_and_evict
      begin_and_create ancestor_id = do
        dup ← or_error (tenant_name_exists m.tenant_name) Error.service
        require (not dup) Error.tenant_name_dup
        or_error begin Error.service
        create_and_evict ancestor_id

      begin_and_create-Triple :
          Triple
            (λ v. HasAccountsOf w v × (f.node (parent_chosen sess_tenant m.parent_id) ≡ true))
            (begin_and_create (parent_chosen sess_tenant m.parent_id))
            (λ ids v. IsNew ids v ⊎ HasTablesOf v)
            HasTablesOf
      unfolding begin_and_create tenant_name_exists begin
      begin_and_create-Triple =
          let Ready = λ (v : World P).
            HasAccountsOf w v × (f.node (parent_chosen sess_tenant m.parent_id) ≡ true) in
          Triple-bind (λ _. Ready) (or_error (tenant_name_exists m.tenant_name) Error.service) _
            (Triple-or_error (tenant_name_exists m.tenant_name) Error.service (
              Triple-if (text_eq (trim_space m.tenant_name) []) _ _
                (λ _. Triple-pure false (λ v h. h))
                (λ _.
                  Triple-query (λ v. exists (is_named_tenant (trim_space m.tenant_name)) v.tenants)
                    (λ v fs h. (h.0.0, h.0.2.0, h.0.2.1)) (λ v fs h. h) (λ v h. h))))
            (λ dup.
              Triple-bind (λ _. Ready) (require (not dup) Error.tenant_name_dup) _
                (Triple-require (not dup) Error.tenant_name_dup (λ v h _. h)
                  (λ v h. (h.0.0, h.0.2.0, h.0.2.1)))
                (λ _.
                  Triple-bind (λ _. Ready) (or_error begin Error.service) _
                    (Triple-or_error begin Error.service (
                      Triple-exec (λ v. v) (λ v fs h. (h.0.0, h.0.2.0, h.0.2.1)) (λ v fs h. h)
                        (λ v h. h)))
                    (λ _. create_and_evict-Triple)))

      new_tenant_under-Triple :
          Triple
            (HasAccountsOf w)
            (new_tenant_under c sess_tenant m)
            (λ ids v. IsNew ids v ⊎ HasTablesOf v)
            HasTablesOf
      unfolding new_tenant_under begin_and_create create_and_evict
      new_tenant_under-Triple =
          Triple-bind
            (λ p v.
              (p ≡ parent_chosen sess_tenant m.parent_id)
              × (HasAccountsOf w v × (f.node (parent_chosen sess_tenant m.parent_id) ≡ true)))
            (parent_of sess_tenant m.parent_id) begin_and_create
            (Triple-weaken (parent_of sess_tenant m.parent_id) parent_of-Triple
              (λ p v h. (h.0, (h.1, ap f.node (sym h.0) ∙ h.2))))
            (Triple-known (parent_chosen sess_tenant m.parent_id) begin_and_create
              begin_and_create-Triple)

  -- From the closure table of a forest that has the root tenant and not yet the next tenant id, and
  -- whatever statements fail, AdminTenantNew does not panic. If it returns ids, the caller is of the
  -- root tenant; and either `tenants` has one more row, with the next id and a name that no tenant
  -- had, its administrator (if the request has one) is a new account that is bound to it, and the
  -- closure table stands for the forest with the tenant as a leaf below the parent of the request
  -- (or else the root tenant), or the COMMIT failed and accounts, tenants and closure table are as
  -- before. If it returns an error, they are as before.
  pub admin_tenant_new-Outcome :
      (c : Checks) (sess : User) (m : NewTenantReq) (f : Forest) (r : Represents f w.closure)
      (known : f.node w.root_tenant_id ≡ true) (fresh : f.node w.next_tenant_id ≡ false)
      → Outcome
          (λ ids v.
            (sess.tenant_id ≡ w.root_tenant_id)
            × (HasNew c (trimmed m) f (parent_chosen w.root_tenant_id m.parent_id) ids v
                ⊎ HasTablesOf v))
          HasTablesOf
          (admin_tenant_new c (some sess) m w).0
          (admin_tenant_new c (some sess) m w).1
  unfolding admin_tenant_new new_tenant_of trimmed IsNew
  admin_tenant_new-Outcome c sess m f r known fresh =
      let q = trimmed m in
      (Triple-if {Pre = HasAccountsOf w} (not (sess.tenant_id == w.root_tenant_id)) _ _
          (λ _. Triple-raise Error.no_auth (λ v h. (h.0, h.2.0, h.2.1)))
          (λ allowed.
            Triple-if (text_eq m.tenant_name []) _ _
              (λ _. Triple-raise Error.tenant_name_null (λ v h. (h.0, h.2.0, h.2.1)))
              (λ _.
                Triple-if (text_eq m.tenant_type []) _ _
                  (λ _. Triple-raise Error.tenant_type_null (λ v h. (h.0, h.2.0, h.2.1)))
                  (λ _.
                    Triple-if (wants_admin q && is_incomplete q) _ _
                      (λ _. Triple-raise Error.user_name (λ v h. (h.0, h.2.0, h.2.1)))
                      (λ _.
                        let is_root : sess.tenant_id ≡ w.root_tenant_id = ground arith in
                        Triple-weaken (new_tenant_under c sess.tenant_id q)
                          (new_tenant_under-Triple c q f r sess.tenant_id
                            (ap f.node is_root ∙ known) fresh)
                          (λ ids v k. (
                            is_root,
                            subst
                                (λ s.
                                  HasNew c q f (parent_chosen s m.parent_id) ids v ⊎ HasTablesOf v)
                                is_root k,
                          ))))))).at
        w (refl, refl, (refl, refl, refl))
