-- ===== src/Tests/Scopes.antt =====
-- What a user sees in the shop of Tests/Services: 10001 and 10002 are members of it, and in its
-- department 7 by what their `ext` says.
use passport.Base.{
  All, ℕ, ◌≡◌, refl, false, none, some, List, [], ◌∷◌, arith, exists, contains, ◌==◌, ◌&&◌,
}
use passport.Text.{codes, text_eq}
use passport.Errors.{ok}
use passport.Protos.{User, Department, Value, Values, MapStruct}
use passport.World.{World}
use passport.Hoare.{Outcome}
use passport.Live.{Returns}
use passport.Access.{Enforcer}
use passport.Dao.Listing.{org_users}
use passport.Service.DataScope.{Level, DataScope, member_uids_in_deps, resolve_data_scope}
use passport.Service.DataScope.Ends.{IsMemberId, member_uids_in_deps_ends}
use passport.Service.DataScope.Members.{is_in, member_uids_in_deps-Returns}
use passport.Service.DataScope.Scope.{Reads, IsScope, resolve_data_scope-Outcome}
use passport.Tests.Services.{small_world, counting_enforcer}

abbrev in_department : MapStruct
in_department =
    (codes "deps", Value.values (Values.more (Value.float64 false 7 false) Values.none)) ∷ []

abbrev clerk : ℕ → User
clerk uid = record {
  uid = uid;
  tenant_id = 2;
  password = [];
  cellphone = [];
  email = [];
  nickname = [];
  wx_openid = [];
  avatar_url = [];
  addr = [];
  gender = 0;
  login_time = none;
  ext = in_department;
}

abbrev sales : Department
sales = record {
  id = 7;
  parent_id = 0;
  user_id = 10001;
  tenant_id = 2;
  org_id = 5;
  name = [];
  config = [];
}

abbrev shop_world : World ℕ
shop_world = record small_world {
  users = clerk 10001 ∷ clerk 10002 ∷ [];
  members =
      record { org_id = 5; uid = 10001; tenant_id = 2 }
      ∷ record { org_id = 5; uid = 10002; tenant_id = 2 }
      ∷ [];
  departments = sales ∷ [];
}

-- An enforcer that grants the level `dept` alone.
abbrev dept_enforcer : Enforcer ℕ
dept_enforcer = record counting_enforcer {
  enforce = λ s d o a p. some (text_eq o (codes "data-scope/default/dept"));
}

both_seen :
    (resolve_data_scope dept_enforcer 1 10001 2 5 [] shop_world).0
    ≡ ok (some (record { level = Level.dept; dep_ids = 7 ∷ []; uids = 10001 ∷ 10002 ∷ [] }))
unfolding resolve_data_scope
both_seen = refl

resolve_data_scope-Outcome_example :
    Outcome
      (λ r v.
        Reads shop_world.users shop_world.members shop_world.departments 0 v
        × ((s : DataScope)
            → r ≡ some s
            → IsScope dept_enforcer shop_world.users shop_world.members shop_world.departments 0
                10001 2 5 [] s))
      (Reads shop_world.users shop_world.members shop_world.departments 0)
      (resolve_data_scope dept_enforcer 1 10001 2 5 [] shop_world).0
      (resolve_data_scope dept_enforcer 1 10001 2 5 [] shop_world).1
resolve_data_scope-Outcome_example =
    resolve_data_scope-Outcome dept_enforcer 1 10001 2 5 [] shop_world

two_rows : org_users 2 5 [] [] shop_world.members shop_world.users ≡ clerk 10001 ∷ clerk 10002 ∷ []
unfolding org_users text_eq
two_rows = refl

member_uids_in_deps-Returns_example :
    Returns (member_uids_in_deps 1 2 5 (7 ∷ [])) shop_world (λ out v.
      ((ids : List ℕ) × (out ≡ some ids)
        × ((x : ℕ)
            → contains x ids
              ≡ exists
                  (λ u. u.uid == x && is_in (7 ∷ []) u)
                  (org_users 2 5 [] [] shop_world.members shop_world.users)))
      × (v ≡ shop_world))
unfolding text_eq
member_uids_in_deps-Returns_example =
    member_uids_in_deps-Returns 0 2 5 7 [] shop_world refl refl (unfold org_users in omega arith)

-- Fuel for one page of 200 is enough for two users.
member_uids_in_deps_ends_example : Returns (member_uids_in_deps 1 2 5 (7 ∷ [])) shop_world (λ out v.
    ((ids : List ℕ) × (out ≡ some ids) × All (IsMemberId 2 5 (7 ∷ []) shop_world) ids)
    × (v ≡ shop_world))
unfolding text_eq
member_uids_in_deps_ends_example =
    member_uids_in_deps_ends 1 2 5 7 [] shop_world refl refl (unfold org_users in omega arith)
      (unfold org_users in omega arith)
