-- ===== src/Service/TenantUser/Leaving.antt =====
-- What the removal of a user leaves, and a user that does not exist.
use passport.Base.{
  ℕ, ◌≡◌, ◌≢◌, refl, Bool, false, none, List, [], ◌∷◌, ◌||◌, ◌&&◌, not, arith, keep_if, exists,
  length, ◌==◌,
}
use passport.Text.{Text, text_eq, text_eq_iff}
use passport.Errors.{Error, panic}
use passport.Protos.{Organization, Value}
use passport.World.{World, or_error, statement}
use passport.Access.{Enforcer}
use passport.Dao.User.{user_by_id, user_query_by_id, user_delete, delete_user}
use passport.Dao.Org.{org_list_by_user, order_by_id, is_member}
use passport.Hoare.{
  Outcome, Triple, returned, Triple-bind, Triple-pure, Triple-or_error, Triple-statement,
  Triple-query, Triple-if, Triple-raise, Triple-weaken,
}
use passport.Service.Org.Coherence.{IsCoherent, shrink-IsCoherent}
use passport.Service.Org.Changes.{org_remove_member-Triple}
use passport.Service.Org.Steps.{faults-IsCoherent}
use passport.Service.Org.{org_remove_member}
use passport.Service.TenantUser.{tenant_update_user_ext, update_ext_of, leave_orgs, tenant_user_del}

exists-keep_if :
    {A : Type 0} (p : A → Bool) (xs : List A) → exists p (keep_if (λ x. not (p x)) xs) ≡ false
exists-keep_if p [] = refl
exists-keep_if p (x ∷ xs) = ground (arith, exists-keep_if p xs)

module _ {P : Type 0} where
  -- The cache is coherent and the tenant has no user of that id.
  abbrev pub HasLeft : ℕ → ℕ → World P → Type 0
  HasLeft uid tenant_id w =
      IsCoherent w × (exists (λ u. u.uid == uid && u.tenant_id == tenant_id) w.users ≡ false)

  delete_user-Triple :
      (uid tid : ℕ) → Triple IsCoherent (delete_user uid tid) (λ _. HasLeft uid tid) IsCoherent
  unfolding delete_user
  delete_user-Triple uid tid = record {
    at = λ w c. returned {a = length (keep_if (λ u. u.uid == uid && u.tenant_id == tid) w.users)} (
      shrink-IsCoherent w
          (record w { users = keep_if (λ u. not (u.uid == uid && u.tenant_id == tid)) w.users }) c
          refl refl (λ k e h. h),
      exists-keep_if (λ u. u.uid == uid && u.tenant_id == tid) w.users,
    );
  }

  user_delete-Triple :
      (uid tid : ℕ) → Triple IsCoherent (user_delete uid tid) (λ _. HasLeft uid tid) IsCoherent
  unfolding user_delete
  user_delete-Triple uid tid =
      Triple-statement (delete_user uid tid) faults-IsCoherent faults-IsCoherent
        (delete_user-Triple uid tid)

  leave_orgs-Triple :
      (c : Enforcer P) (uid tenant_id : ℕ) (os : List Organization)
      → Triple IsCoherent (leave_orgs c uid tenant_id os) (λ _. IsCoherent) IsCoherent
  unfolding leave_orgs
  leave_orgs-Triple c uid tenant_id [] = Triple-pure tt (λ w h. h)
  leave_orgs-Triple c uid tenant_id (o ∷ os) =
      Triple-bind (λ _. IsCoherent)
        (or_error (org_remove_member c o.id uid tenant_id) Error.service) _
        (Triple-or_error (org_remove_member c o.id uid tenant_id) Error.service (
          Triple-weaken (org_remove_member c o.id uid tenant_id)
            (org_remove_member-Triple c o.id uid tenant_id) (λ _ v h. h.0)))
        (λ _. leave_orgs-Triple c uid tenant_id os)

  org_list_by_user-Triple :
      (uid tenant_id : ℕ)
      → Triple {P = P} IsCoherent (org_list_by_user uid tenant_id) (λ _. IsCoherent) IsCoherent
  unfolding org_list_by_user
  org_list_by_user-Triple uid tenant_id =
      Triple-if (uid == 0 || tenant_id == 0) _ _ (λ _. Triple-raise Error.param (λ w h. h))
        (λ _.
          Triple-query
            (λ w.
              order_by_id
                (keep_if (λ o. is_member o.id uid w.members && o.tenant_id == tenant_id) w.orgs))
            faults-IsCoherent faults-IsCoherent (λ w h. h))

  -- From a coherent state, with any enforcer, and whatever statements fail, TenantUserDel does not
  -- panic and leaves a coherent state, even if it returns an error half way. If it returns no
  -- error, the tenant has no user of that id.
  pub tenant_user_del-Outcome :
      (c : Enforcer P) (uid tenant_id : ℕ) (w : World P)
      → IsCoherent w
      → Outcome
          (λ _. HasLeft uid tenant_id)
          IsCoherent
          (tenant_user_del c uid tenant_id w).0
          (tenant_user_del c uid tenant_id w).1
  unfolding tenant_user_del
  tenant_user_del-Outcome c uid tenant_id w h =
      (Triple-bind {Pre = IsCoherent} (λ _. IsCoherent)
          (or_error (org_list_by_user uid tenant_id) Error.service) _
          (Triple-or_error (org_list_by_user uid tenant_id) Error.service
            (org_list_by_user-Triple uid tenant_id))
          (λ orgs.
            Triple-bind (λ _. IsCoherent) (leave_orgs c uid tenant_id orgs) _
              (leave_orgs-Triple c uid tenant_id orgs)
              (λ _.
                Triple-or_error (user_delete uid tenant_id) Error.service
                  (user_delete-Triple uid tenant_id)))).at
        w h

  -- If no statement fails, TenantUpdateUserExt panics for an id other than 0 that no user has, and
  -- a key that is not empty.
  pub tenant_update_user_ext_missing :
      (uid tenant_id : ℕ) (k : Text) (v : Value) (w : World P)
      → uid ≢ 0
      → k ≢ []
      → user_by_id uid w.users ≡ none
      → w.faults ≡ []
      → (tenant_update_user_ext uid tenant_id k v w).0 ≡ panic
  unfolding tenant_update_user_ext user_query_by_id statement update_ext_of
  tenant_update_user_ext_missing uid tenant_id k v w ne some_key gone calm =
      let differs : (uid == 0 || text_eq k []) ≡ false = ground (arith, text_eq_iff k []) in
      rw (differs, calm, gone) refl
