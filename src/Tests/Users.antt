-- ===== src/Tests/Users.antt =====
-- Users of a tenant, and the domains of the access control.
use passport.Base.{ℕ, ◌≡◌, refl, [], ◌∷◌, arith, none}
use passport.Text.{codes}
use passport.Protos.{Value, RoleStruct}
use passport.Cache.{get}
use passport.Cache.Keys.{tenant_cache_key}
use passport.Service.Tenant.{tenant_add_role, tenant_del_role}
use passport.Service.Tenant.Eviction.{tenant_roles-get}
use passport.Access.Domains.{domain-injective}
use passport.Hoare.{Outcome}
use passport.Service.Org.Coherence.{IsCoherent}
use passport.Service.TenantUser.{tenant_user_del}
use passport.Service.TenantUser.Leaving.{HasLeft, tenant_user_del-Outcome}
use passport.Service.UserExt.{
  AllExact, float64_of, parse_uint64_slice, as_json, parse_uint64_slice-as_json,
}
use passport.Tests.Services.{small_world, small_world-IsCoherent, counting_enforcer}

exact_ids : AllExact (3 ∷ 8 ∷ [])
unfolding AllExact
exact_ids = (omega arith, (omega arith, (omega arith, (omega arith, tt))))

-- The id 2 ^ 53 + 1 is rounded to an even one, 2 ^ 53 + 3 to 2 ^ 53 + 4.
rounded_ids :
    parse_uint64_slice (as_json (Value.uint64s (9007199254740993 ∷ 9007199254740995 ∷ [])))
    ≡ 9007199254740992 ∷ 9007199254740996 ∷ []
unfolding parse_uint64_slice as_json float64_of
rounded_ids = refl

parse_uint64_slice-as_json_example :
    parse_uint64_slice (as_json (Value.uint64s (3 ∷ 8 ∷ []))) ≡ 3 ∷ 8 ∷ []
parse_uint64_slice-as_json_example = parse_uint64_slice-as_json (3 ∷ 8 ∷ []) exact_ids

tenant_user_del-Outcome_example :
    Outcome
      (λ _. HasLeft 10001 2)
      IsCoherent
      (tenant_user_del counting_enforcer 10001 2 small_world).0
      (tenant_user_del counting_enforcer 10001 2 small_world).1
tenant_user_del-Outcome_example =
    tenant_user_del-Outcome counting_enforcer 10001 2 small_world small_world-IsCoherent

domain-injective_example : ◌≡◌ {A = ℕ} 2 2 × ◌≡◌ {A = ℕ} 5 5
domain-injective_example = domain-injective 2 5 2 5 refl

abbrev clerk : RoleStruct
clerk = record { role_title = codes "Clerk"; role_value = codes "clerk" }

tenant_roles-get_example :
    ((get 100 (tenant_cache_key 2) (tenant_add_role 2 clerk small_world).1.cache).0 ≡ none)
    × ((get 100 (tenant_cache_key 2) (tenant_del_role 2 clerk small_world).1.cache).0 ≡ none)
tenant_roles-get_example = tenant_roles-get 2 100 clerk small_world (omega arith)
