-- ===== src/Service/Reach.antt =====
-- Sequences of calls of the services on members: service/org.service.go and
-- service/tenant.user.service.go.
use passport.Base.{ℕ, ◌≡◌, ◌+◌, refl, true, some}
use passport.Errors.{Result, ok}
use passport.World.{World}
use passport.Access.{Enforcer}
use passport.Hoare.{Outcome, returned, failed, Outcome-ok}
use passport.Protos.{Organization}
use passport.Dao.Org.{is_member, org_by_id}
use passport.Service.Org.{user_in_org, org_add_member, org_remove_member}
use passport.Service.Org.Coherence.{IsCoherent, shrink-IsCoherent}
use passport.Service.Org.Membership.{user_in_org-Outcome}
use passport.Service.Org.Changes.{org_add_member-Outcome, org_remove_member-Outcome}
use passport.Service.TenantUser.{tenant_user_del}
use passport.Service.TenantUser.Leaving.{tenant_user_del-Outcome}

-- A call with its arguments, or a wait.
pub data Call : Type 0 where
  add_member : (org_id uid tenant_id : ℕ) → Call
  remove_member : (org_id uid tenant_id : ℕ) → Call
  check_member : (uid tenant_id org_id : ℕ) → Call
  delete_from_tenant : (uid tenant_id : ℕ) → Call
  wait : (seconds : ℕ) → Call

module _ {P : Type 0} (c : Enforcer P) where
  -- The state after a call, whether it succeeds or not.
  unfoldable pub after_call : Call → World P → World P
  unfolding org_add_member org_remove_member user_in_org tenant_user_del
  after_call (Call.add_member org_id uid tenant_id) w = (org_add_member org_id uid tenant_id w).1
  after_call (Call.remove_member org_id uid tenant_id) w =
      (org_remove_member c org_id uid tenant_id w).1
  after_call (Call.check_member uid tenant_id org_id) w = (user_in_org uid tenant_id org_id w).1
  after_call (Call.delete_from_tenant uid tenant_id) w = (tenant_user_del c uid tenant_id w).1
  after_call (Call.wait seconds) w = record w { now = w.now + seconds }

  -- `v` is reached from `w` by calls.
  pub data Reaches (w : World P) : World P → Type 0 where
    start : Reaches w w
    then : {v : World P} (call : Call) → Reaches w v → Reaches w (after_call call v)

  left-IsCoherent :
      {A : Type 0} {Post : A → World P → Type 0} {Fail : World P → Type 0} {r : Result A}
      {v : World P}
      → ((a : A) (u : World P) → Post a u → IsCoherent u)
      → ((u : World P) → Fail u → IsCoherent u)
      → Outcome Post Fail r v
      → IsCoherent v
  left-IsCoherent good bad (returned {a = a} {w = u} h) = good a u h
  left-IsCoherent good bad (failed {w = u} h) = bad u h

  after_call-IsCoherent :
      (call : Call) (w : World P) → IsCoherent w → IsCoherent (after_call call w)
  unfolding after_call
  after_call-IsCoherent (Call.add_member org_id uid tenant_id) w h =
      left-IsCoherent (λ a u k. k.0) (λ u k. k) (org_add_member-Outcome org_id uid tenant_id w h)
  after_call-IsCoherent (Call.remove_member org_id uid tenant_id) w h =
      left-IsCoherent (λ a u k. k.0) (λ u k. k)
        (org_remove_member-Outcome c org_id uid tenant_id w h)
  after_call-IsCoherent (Call.check_member uid tenant_id org_id) w h =
      left-IsCoherent (λ a u k. k.0.coherent) (λ u k. k.coherent)
        (user_in_org-Outcome w uid tenant_id org_id h)
  after_call-IsCoherent (Call.delete_from_tenant uid tenant_id) w h =
      left-IsCoherent (λ a u k. k.0) (λ u k. k) (tenant_user_del-Outcome c uid tenant_id w h)
  after_call-IsCoherent (Call.wait seconds) w h =
      shrink-IsCoherent w (record w { now = w.now + seconds }) h refl refl (λ k e found. found)

  reached-IsCoherent : (w v : World P) → IsCoherent w → Reaches w v → IsCoherent v
  reached-IsCoherent w v h start = h
  reached-IsCoherent w v h (then {v = u} call r) =
      after_call-IsCoherent call u (reached-IsCoherent w u h r)

  -- From a coherent state (as one with an empty cache is), let OrgAddMember, OrgRemoveMember,
  -- UserInOrg and TenantUserDel be called and time pass, in any order, with any enforcer, whatever
  -- statements fail and whatever errors the calls return; OrgDelete is not among these calls.
  -- Whenever UserInOrg then returns nil, org_members has
  -- the user as a member of the organization at that moment, and the organization is of the tenant.
  pub user_in_org-Reaches :
      (w v : World P) (uid tenant_id org_id : ℕ)
      → IsCoherent w
      → Reaches w v
      → (user_in_org uid tenant_id org_id v).0 ≡ ok tt
      → (is_member org_id uid v.members ≡ true)
        × ((o : Organization) × (org_by_id org_id v.orgs ≡ some o) × (o.tenant_id ≡ tenant_id))
  user_in_org-Reaches w v uid tenant_id org_id h r e =
      let k =
        Outcome-ok tt (user_in_org-Outcome v uid tenant_id org_id (reached-IsCoherent w v h r)) e in
      (k.1, k.2)
