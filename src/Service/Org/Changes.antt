-- ===== src/Service/Org/Changes.antt =====
-- Adding and removing members, and the cache of memberships.
use passport.Base.{
  ℕ, ◌≡◌, ◌≢◌, refl, ◌∙◌, Bool, true, false, ◌∷◌, ◌||◌, ◌&&◌, not, arith, keep_if, if◌then◌else◌,
  ◌==◌,
}
use passport.Errors.{Error, ok}
use passport.World.{World, or_error}
use passport.Access.{Enforcer, enforcer_call, delete_roles_for_user}
use passport.Cache.Keys.{org_member_cache_key}
use passport.DefaultCache.{del_org_member_cache}
use passport.Dao.Org.{is_member, org_member_insert, org_member_delete}
use passport.Hoare.{
  Outcome, Triple, returned, Outcome-ok, Triple-bind, Triple-if, Triple-raise, Triple-or_error,
  Triple-exec, Triple-weaken, Triple-relax,
}
use passport.Service.Org.Coherence.{IsCoherent, evict-IsCoherent}
use passport.Service.Org.Membership.{require_org-Triple, user_in_org-Outcome}
use passport.Service.Org.{require_org, org_add_member, org_remove_member, user_in_org}
use passport.Service.Org.Steps.{
  is_member-keep_if, IsCoherentBut, evict-IsCoherentBut, delete-IsCoherentBut, insert-IsCoherent,
  faults-IsCoherent, call_result-Outcome,
}

module _ {P : Type 0} where
  delete_roles_for_user-Triple :
      (c : Enforcer P) (uid tenant_id org_id : ℕ)
      → Triple IsCoherent
          (delete_roles_for_user c uid tenant_id org_id)
          (λ _. IsCoherent)
          IsCoherent
  unfolding delete_roles_for_user enforcer_call
  delete_roles_for_user-Triple c uid tenant_id org_id =
      Triple-if (org_id == 0) _ _ (λ _. Triple-raise Error.org_required (λ w h. h))
        (λ _. record { at = λ w h. call_result-Outcome _ w h })

  -- The state between the DELETE and the removal from the cache.
  IsGone : ℕ → ℕ → World P → Type 0
  IsGone org_id uid w =
      IsCoherentBut (org_member_cache_key org_id uid) w × (is_member org_id uid w.members ≡ false)

  -- The state is coherent, and the user is no member of the organization, or is one.
  abbrev pub IsOut : ℕ → ℕ → World P → Type 0
  IsOut org_id uid w = IsCoherent w × (is_member org_id uid w.members ≡ false)

  abbrev pub IsIn : ℕ → ℕ → World P → Type 0
  IsIn org_id uid w = IsCoherent w × (is_member org_id uid w.members ≡ true)

  org_member_delete-Triple :
      (org_id uid : ℕ)
      → Triple IsCoherent (org_member_delete org_id uid) (λ _. IsGone org_id uid) IsCoherent
  unfolding org_member_delete IsGone
  org_member_delete-Triple org_id uid =
      Triple-if (org_id == 0 || uid == 0) _ _ (λ _. Triple-raise Error.param (λ w c. c))
        (λ _.
          Triple-exec
            (λ w. record w {
              members = keep_if (λ m. not (m.org_id == org_id && m.uid == uid)) w.members;
            })
            faults-IsCoherent faults-IsCoherent
            (λ w c. (
              delete-IsCoherentBut org_id uid w c,
              is_member-keep_if org_id uid org_id uid w.members ∙ ground arith,
            )))

  del_org_member_cache-Triple :
      (org_id uid : ℕ)
      → Triple
          (IsGone org_id uid)
          (del_org_member_cache org_id uid)
          (λ _. IsOut org_id uid)
          IsCoherent
  unfolding del_org_member_cache IsGone
  del_org_member_cache-Triple org_id uid = record {
    at = λ w h. returned (evict-IsCoherentBut (org_member_cache_key org_id uid) w h.0, h.1);
  }

  require_org-IsCoherent :
      (tenant_id org_id : ℕ)
      → Triple IsCoherent (require_org {P = P} tenant_id org_id) (λ _. IsCoherent) IsCoherent
  require_org-IsCoherent tenant_id org_id = record {
    at = λ w c.
        (Triple-relax (require_org tenant_id org_id)
            (Triple-weaken (require_org tenant_id org_id)
              (require_org-Triple w.orgs w.members w.policy tenant_id org_id)
              (λ o v k. k.0.0.coherent))
            (λ v k. k.coherent)).at
          w (record { coherent = c; orgs = refl; members = refl; policy = refl });
  }

  pub org_remove_member-Triple :
      (c : Enforcer P) (org_id uid tenant_id : ℕ)
      → Triple IsCoherent
          (org_remove_member c org_id uid tenant_id)
          (λ _. IsOut org_id uid)
          IsCoherent
  unfolding org_remove_member
  org_remove_member-Triple c org_id uid tenant_id =
      Triple-if (org_id == 0 || uid == 0 || tenant_id == 0) _ _
        (λ _. Triple-raise Error.param (λ w h. h))
        (λ _.
          Triple-bind (λ _. IsCoherent) (require_org tenant_id org_id) _
            (require_org-IsCoherent tenant_id org_id)
            (λ _.
              Triple-bind (λ _. IsCoherent)
                (or_error (delete_roles_for_user c uid tenant_id org_id) Error.service) _
                (Triple-or_error (delete_roles_for_user c uid tenant_id org_id) Error.service
                  (delete_roles_for_user-Triple c uid tenant_id org_id))
                (λ _.
                  Triple-bind (λ _. IsGone org_id uid)
                    (or_error (org_member_delete org_id uid) Error.service) _
                    (Triple-or_error (org_member_delete org_id uid) Error.service
                      (org_member_delete-Triple org_id uid))
                    (λ _. del_org_member_cache-Triple org_id uid))))

  insert_or_same :
      (org_id uid tenant_id : ℕ) (w : World P) (b : Bool)
      → is_member org_id uid w.members ≡ b
      → IsCoherent w
      → IsIn org_id uid (
          if b then w else record w {
            members = record { org_id = org_id; uid = uid; tenant_id = tenant_id } ∷ w.members;
          })
  insert_or_same org_id uid tenant_id w true e c = (c, e)
  insert_or_same org_id uid tenant_id w false e c =
      (insert-IsCoherent _ w c, unfold is_member in ground arith)

  org_member_insert-Triple :
      (org_id uid tenant_id : ℕ)
      → Triple IsCoherent (org_member_insert org_id uid tenant_id) (λ _. IsIn org_id uid) IsCoherent
  unfolding org_member_insert
  org_member_insert-Triple org_id uid tenant_id =
      Triple-if (org_id == 0 || uid == 0 || tenant_id == 0) _ _
        (λ _. Triple-raise Error.param (λ w c. c))
        (λ _.
          Triple-exec
            (λ w. if is_member org_id uid w.members then w else record w {
              members = record { org_id = org_id; uid = uid; tenant_id = tenant_id } ∷ w.members;
            })
            faults-IsCoherent faults-IsCoherent
            (λ w c. insert_or_same org_id uid tenant_id w (is_member org_id uid w.members) refl c))

  forget_member-Triple :
      (org_id uid : ℕ)
      → Triple (IsIn org_id uid) (del_org_member_cache org_id uid) (λ _. IsIn org_id uid) IsCoherent
  unfolding del_org_member_cache
  forget_member-Triple org_id uid = record {
    at = λ w h. returned (evict-IsCoherent w (org_member_cache_key org_id uid) h.0, h.1);
  }

  org_add_member-Triple :
      (org_id uid tenant_id : ℕ)
      → Triple IsCoherent (org_add_member org_id uid tenant_id) (λ _. IsIn org_id uid) IsCoherent
  unfolding org_add_member
  org_add_member-Triple org_id uid tenant_id =
      Triple-if (org_id == 0 || uid == 0 || tenant_id == 0) _ _
        (λ _. Triple-raise Error.param (λ w h. h))
        (λ _.
          Triple-bind (λ _. IsCoherent) (require_org tenant_id org_id) _
            (require_org-IsCoherent tenant_id org_id)
            (λ _.
              Triple-bind (λ _. IsIn org_id uid)
                (or_error (org_member_insert org_id uid tenant_id) Error.service) _
                (Triple-or_error (org_member_insert org_id uid tenant_id) Error.service
                  (org_member_insert-Triple org_id uid tenant_id))
                (λ _. forget_member-Triple org_id uid)))

  -- From a coherent state, and whatever statements fail, OrgAddMember does not panic and leaves a
  -- coherent state, even if it returns an error half way. If it returns nil, org_members has a row
  -- of the user for the organization.
  pub org_add_member-Outcome :
      (org_id uid tenant_id : ℕ) (w : World P)
      → IsCoherent w
      → Outcome
          (λ _. IsIn org_id uid)
          IsCoherent
          (org_add_member org_id uid tenant_id w).0
          (org_add_member org_id uid tenant_id w).1
  org_add_member-Outcome org_id uid tenant_id w c =
      (org_add_member-Triple org_id uid tenant_id).at w c

  -- From a coherent state, with any enforcer, and whatever statements fail, OrgRemoveMember does
  -- not panic and leaves a coherent state, even if it returns an error half way. If it returns nil,
  -- org_members has no row of the user for the organization.
  pub org_remove_member-Outcome :
      (c : Enforcer P) (org_id uid tenant_id : ℕ) (w : World P)
      → IsCoherent w
      → Outcome
          (λ _. IsOut org_id uid)
          IsCoherent
          (org_remove_member c org_id uid tenant_id w).0
          (org_remove_member c org_id uid tenant_id w).1
  org_remove_member-Outcome c org_id uid tenant_id w h =
      (org_remove_member-Triple c org_id uid tenant_id).at w h

  -- Once OrgRemoveMember has returned nil from a coherent state, UserInOrg does not let the removed
  -- user into the organization, as one of any tenant and whatever the cache held before.
  pub user_in_org-org_remove_member :
      (c : Enforcer P) (org_id uid tenant_id other : ℕ) (w : World P)
      → IsCoherent w
      → (org_remove_member c org_id uid tenant_id w).0 ≡ ok tt
      → (user_in_org uid other org_id (org_remove_member c org_id uid tenant_id w).1).0 ≢ ok tt
  user_in_org-org_remove_member c org_id uid tenant_id other w h removed entered =
      let v = (org_remove_member c org_id uid tenant_id w).1 in
      let out = Outcome-ok tt (org_remove_member-Outcome c org_id uid tenant_id w h) removed in
      let inside = Outcome-ok tt (user_in_org-Outcome v uid other org_id out.0) entered in
      cc (out.1, inside.1)
