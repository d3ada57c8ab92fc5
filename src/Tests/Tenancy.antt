-- ===== src/Tests/Tenancy.antt =====
-- New tenants on the small state of Tests/Services.
use passport.Base.{ℕ, true, false, arith, ◌∙◌, ◌≡◌, ◌⊎◌, refl, none, some, [], ◌∷◌}
use passport.Text.{codes}
use passport.Protos.{User, Tenant}
use passport.Request.{NewTenantReq}
use passport.World.{World}
use passport.Errors.{Error, ok, err}
use passport.Closure.{insert_tenant, related}
use passport.Hoare.{Outcome}
use passport.Tests.Forests.{four_tenants, four_tenants-Represents}
use passport.Http.{of_user}
use passport.Http.AdminTenant.Sessions.{IsSame}
use passport.Http.AdminTenant.{AdminCall, Libraries, admin_request}
use passport.Http.AdminTenant.Outsiders.{is_refusal, admin_request_outside}
use passport.Tests.Services.{small_world, counting_enforcer}
use passport.Tests.Accounts.{ann, with_ann, no_checks}
use passport.Service.Tree.{tenant_tree_list}
use passport.Service.NewTenant.Unlisted.{tenant_tree_list-tenant_add}
use passport.Service.NewTenant.{tenant_add, trimmed, admin_tenant_new}
use passport.Service.NewTenant.Created.{
  parent_chosen, HasNew, HasTablesOf, admin_tenant_new-Outcome,
}

abbrev chief : User
chief = record ann { tenant_id = 1 }

-- A tenant below tenant 2, with an administrator.
abbrev branch_office : NewTenantReq
branch_office = record {
  parent_id = 2;
  tenant_name = codes "branch";
  tenant_type = codes "shop";
  cellphone = [];
  nickname = codes " bob";
  password = codes "secret7";
  info = [];
  configuration = none;
}

admin_tenant_new-Outcome_example :
    Outcome
      (λ ids v.
        (◌≡◌ {A = ℕ} 1 1)
        × (HasNew small_world no_checks
              (trimmed branch_office)
              four_tenants
              (parent_chosen 1 2)
              ids
              v
            ⊎ HasTablesOf small_world v))
      (HasTablesOf small_world)
      (admin_tenant_new no_checks (some chief) branch_office small_world).0
      (admin_tenant_new no_checks (some chief) branch_office small_world).1
admin_tenant_new-Outcome_example =
    admin_tenant_new-Outcome small_world no_checks chief branch_office four_tenants
      four_tenants-Represents refl refl

-- The account and the tenant get the next ids.
branch_is_added :
    (admin_tenant_new no_checks (some chief) branch_office small_world).0 ≡ ok (10002, 5)
unfolding admin_tenant_new codes insert_tenant related
branch_is_added = refl

-- The account joins a tenant of its own.
abbrev stranger : User
stranger = record ann { tenant_id = 0 }

abbrev own_tenant : Tenant
own_tenant = record {
  id = 0;
  uid = 10001;
  tenant_name = codes "own";
  tenant_type = codes "shop";
  info = [];
  update_time = 0;
  configuration = none;
}

abbrev with_stranger : World ℕ
with_stranger = record small_world { users = stranger ∷ [] }

own_tenant_is_added :
    tenant_add own_tenant with_stranger ≡ (ok 5, (tenant_add own_tenant with_stranger).1)
unfolding tenant_add codes
own_tenant_is_added = refl

same_root : (tenant_add own_tenant with_stranger).1.root_tenant_id ≡ 1
unfolding tenant_add codes
same_root = refl

tenant_tree_list-tenant_add_example :
    (e : Error) × ((tenant_tree_list
        (record ann { tenant_id = 5 })
        5
        1
        10
        false
        (tenant_add own_tenant with_stranger).1).0
      ≡ err e)
tenant_tree_list-tenant_add_example =
    tenant_tree_list-tenant_add four_tenants own_tenant (record ann { tenant_id = 5 }) 5 1 10 false
      with_stranger (tenant_add own_tenant with_stranger).1 four_tenants-Represents refl
      own_tenant_is_added (λ e. omega (arith, e ∙ same_root))

-- A user of tenant 2 calls a handler of the administrator.
abbrev libraries : Libraries ℕ
libraries = record {
  enforcer = counting_enforcer;
  checks = no_checks;
  json_text = λ v. none;
  parse_time = λ s. none;
}

admin_request_outside_example :
    Outcome
      (λ a v. (is_refusal a ≡ true) × IsSame with_ann v)
      (λ _. ⊥)
      (admin_request libraries 1 (of_user ann) (AdminCall.delete 3) with_ann).0
      (admin_request libraries 1 (of_user ann) (AdminCall.delete 3) with_ann).1
admin_request_outside_example =
    admin_request_outside libraries 1 (of_user ann) (AdminCall.delete 3) with_ann
      (λ u e t. cc (e, t))
