-- ===== src/Tests/Services.antt =====
-- The services on a small state: the tenants of Tests/Forests, one organization of tenant 2, and one
-- member. A user stands for the state of the enforcer.
use passport.Base.{true, some, ℕ, suc, ◌≢◌, ◌≡◌, refl, [], ◌∷◌, arith}
use passport.Text.{codes, text_eq}
use passport.Errors.{ok}
use passport.Protos.{Tenant, Organization, TenantConfiguration}
use passport.World.{World}
use passport.Tests.Forests.{four_tenants, four_table, four_tenants-Represents}
use passport.Service.Org.Coherence.{IsCoherent}
use passport.Service.Org.Membership.{Reads, LetsIn, user_in_org-Outcome}
use passport.Access.{Enforcer}
use passport.Service.Org.Changes.{IsOut, org_remove_member-Outcome, user_in_org-org_remove_member}
use passport.Service.Org.{user_in_org, org_remove_member}
use passport.Dao.Org.{is_member, org_by_id}
use passport.Service.Reach.{Call, Reaches, start, then, after_call, user_in_org-Reaches}
use passport.Service.Parent.{admin_tenant_set_parent}
use passport.Service.Parent.Transaction.{IsAllowed, IsMoved}
use passport.Service.Parent.Atomic.{admin_tenant_set_parent-Outcome}
use passport.Dao.Closure.{tenant_closure_update_subtree_safe}
use passport.Dao.Closure.Moving.{Any}
use passport.Dao.Closure.Update.{HasMoved, tenant_closure_update_subtree_safe-Outcome}
use passport.Cache.{lookup, get, set}
use passport.Cache.Keys.{org_cache_key, org_member_cache_key}
use passport.Text.Decimal.{decimal}
use passport.Hoare.{Outcome}

abbrev no_configuration : TenantConfiguration
no_configuration = record { roles = []; more = [] }

abbrev tenant_of : ℕ → Tenant
tenant_of id = record {
  id = id;
  uid = 0;
  tenant_name = [];
  tenant_type = [];
  info = [];
  update_time = 0;
  configuration = some no_configuration;
}

abbrev shop : Organization
shop = record { id = 5; tenant_id = 2; name = codes "shop" }

abbrev pub small_world : World ℕ
small_world = record {
  root_tenant_id = 1;
  tenants = tenant_of 1 ∷ tenant_of 2 ∷ tenant_of 3 ∷ tenant_of 4 ∷ [];
  next_tenant_id = 5;
  users = [];
  next_uid = 10002;
  orgs = shop ∷ [];
  next_org_id = 6;
  members = record { org_id = 5; uid = 10001; tenant_id = 2 } ∷ [];
  departments = [];
  next_department_id = 1;
  permissions = [];
  next_permission_id = 1;
  closure = four_table;
  cache = [];
  department_cache = [];
  login_users = [];
  has_sms = true;
  codes = [];
  now = 100;
  policy = 0;
  row_order = λ page uid. uid;
  faults = [];
}

-- The member gets in, another user does not.
member_gets_in : (user_in_org 10001 2 5 small_world).0 ≡ ok tt
unfolding user_in_org get set text_eq org_cache_key codes org_member_cache_key decimal
member_gets_in = refl

pub small_world-IsCoherent : IsCoherent small_world
small_world-IsCoherent = record { agrees = λ k e h. unfold lookup in absurd (cc h) }

user_in_org-Outcome_example :
    Outcome
      (LetsIn (shop ∷ []) small_world.members 0 10001 2 5)
      (Reads (shop ∷ []) small_world.members 0)
      (user_in_org 10001 2 5 small_world).0
      (user_in_org 10001 2 5 small_world).1
user_in_org-Outcome_example = user_in_org-Outcome small_world 10001 2 5 small_world-IsCoherent

tenant_closure_update_subtree_safe-Outcome_example :
    Outcome
      (λ _. HasMoved 4 3 four_table)
      Any
      (tenant_closure_update_subtree_safe 4 3 small_world).0
      (tenant_closure_update_subtree_safe 4 3 small_world).1
tenant_closure_update_subtree_safe-Outcome_example =
    tenant_closure_update_subtree_safe-Outcome 4 3 four_tenants small_world four_tenants-Represents
      (omega arith) (omega arith) refl refl

admin_tenant_set_parent-Outcome_example :
    Outcome
      (λ _ v. IsAllowed 1 1 4 3 × IsMoved 4 3 four_table v.closure)
      (λ v. v.closure ≡ four_table)
      (admin_tenant_set_parent 1 4 3 small_world).0
      (admin_tenant_set_parent 1 4 3 small_world).1
admin_tenant_set_parent-Outcome_example =
    admin_tenant_set_parent-Outcome 1 4 3 small_world four_tenants four_tenants-Represents refl refl

-- An enforcer that grants everything and keeps the number of changes.
abbrev pub counting_enforcer : Enforcer ℕ
counting_enforcer = record {
  enforce = λ s d o a p. some true;
  add_policy = λ s d o a p. some (suc p);
  remove_policy = λ s d o a p. some (suc p);
  filtered_policy = λ d p. some [];
  add_role = λ u r d p. some (suc p);
  delete_role = λ u r d p. some (suc p);
  delete_roles = λ u d p. some (suc p);
  roles = λ u d p. [];
  remove_filtered_policy = λ d p. some (suc p);
  remove_filtered_grouping = λ d p. some (suc p);
}

org_remove_member-Outcome_example :
    Outcome
      (λ _. IsOut 5 10001)
      IsCoherent
      (org_remove_member counting_enforcer 5 10001 2 small_world).0
      (org_remove_member counting_enforcer 5 10001 2 small_world).1
org_remove_member-Outcome_example =
    org_remove_member-Outcome counting_enforcer 5 10001 2 small_world small_world-IsCoherent

member_is_removed : (org_remove_member counting_enforcer 5 10001 2 small_world).0 ≡ ok tt
unfolding org_remove_member user_in_org get
member_is_removed = refl

user_in_org-org_remove_member_example :
    (user_in_org 10001 2 5 (org_remove_member counting_enforcer 5 10001 2 small_world).1).0 ≢ ok tt
user_in_org-org_remove_member_example =
    user_in_org-org_remove_member counting_enforcer 5 10001 2 2 small_world small_world-IsCoherent
      member_is_removed

-- A second member is added and checked, and time passes.
abbrev later_world : World ℕ
later_world = after_call counting_enforcer (Call.wait 60) (
    after_call counting_enforcer (Call.check_member 10002 2 5)
      (after_call counting_enforcer (Call.add_member 5 10002 2) small_world))

later_world-Reaches : Reaches counting_enforcer small_world later_world
later_world-Reaches =
    then (Call.wait 60)
      (then (Call.check_member 10002 2 5) (then (Call.add_member 5 10002 2) start))

second_member_gets_in : (user_in_org 10002 2 5 later_world).0 ≡ ok tt
unfolding after_call user_in_org get set text_eq org_cache_key codes org_member_cache_key decimal
second_member_gets_in = refl

user_in_org-Reaches_example :
    (is_member 5 10002 later_world.members ≡ true)
    × ((o : Organization) × (org_by_id 5 later_world.orgs ≡ some o) × (o.tenant_id ≡ 2))
user_in_org-Reaches_example =
    user_in_org-Reaches counting_enforcer small_world later_world 10002 2 5 small_world-IsCoherent
      later_world-Reaches second_member_gets_in
