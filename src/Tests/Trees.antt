-- ===== src/Tests/Trees.antt =====
-- The tenants below a tenant, in the small state of Tests/Services: 1 over 2 and 3, and 2 over 4.
use passport.Base.{
  ◌≡◌, ◌≢◌, ◌≤◌, ◌<◌, refl, sym, subst, true, false, none, some, [], arith, length, All,
}
use passport.Errors.{Error, err}
use passport.Protos.{User}
use passport.Closure.{insert_tenant, related}
use passport.Hoare.{Outcome}
use passport.Live.{Returns}
use passport.Dao.Tree.{tree_rows}
use passport.Service.Tree.{tenant_tree_list, collect_tenant_subtree}
use passport.Service.Tree.Sight.{Holds, IsInSight, tenant_tree_list-Outcome}
use passport.Service.Tree.Pages.{collect_tenant_subtree-Returns}
use passport.Tests.Forests.{four_table, four_tenants, four_tenants-Represents}
use passport.Tests.Services.{small_world}

-- A user of tenant 2.
abbrev manager : User
manager = record {
  uid = 10001;
  tenant_id = 2;
  password = [];
  cellphone = [];
  email = [];
  nickname = [];
  wx_openid = [];
  avatar_url = [];
  addr = [];
  gender = 0;
  login_time = none;
  ext = [];
}

-- Tenant 2 has itself and 4 below it.
two_rows : length (tree_rows 2 small_world.closure small_world.tenants) ≡ 2
unfolding tree_rows insert_tenant related
two_rows = refl

-- The manager does not see what is below tenant 3.
other_branch : (tenant_tree_list manager 3 1 10 false small_world).0 ≡ err Error.no_auth
unfolding tenant_tree_list insert_tenant related
other_branch = refl

tenant_tree_list-Outcome_example :
    Outcome
      (λ r v.
        Holds four_table 1 v
        × (All (IsInSight manager 1 four_table 2) r.list × ((length r.list ≤ 10) × (r.list ≢ []))))
      (Holds four_table 1)
      (tenant_tree_list manager 2 1 10 false small_world).0
      (tenant_tree_list manager 2 1 10 false small_world).1
tenant_tree_list-Outcome_example =
    tenant_tree_list-Outcome four_tenants manager 2 1 10 false small_world four_tenants-Represents

collect_tenant_subtree-Returns_example : Returns (collect_tenant_subtree 1 2) small_world (λ out v.
    (out ≡ some (tree_rows 2 small_world.closure small_world.tenants)) × (v ≡ small_world))
collect_tenant_subtree-Returns_example =
    collect_tenant_subtree-Returns 1 2 small_world refl
      (subst (λ n. n < 9223372036854775808) (sym two_rows) (omega arith))
      (subst (λ n. n < 500) (sym two_rows) (omega arith))

-- With the total, the manager gets an error.
no_total : (tenant_tree_list manager 2 1 10 true small_world).0 ≡ err Error.service
unfolding tenant_tree_list insert_tenant related
no_total = refl
