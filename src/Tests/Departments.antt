-- ===== src/Tests/Departments.antt =====
-- Departments of two tenants.
use passport.Base.{ℕ, ◌≡◌, refl, false, [], ◌∷◌, arith, length, if◌then◌else◌, ◌==◌}
use passport.Text.{codes, text_eq}
use passport.Protos.{Department, Value}
use passport.World.{World}
use passport.Service.Department.{department_create_service}
use passport.Service.Department.Rows.{departments_of}
use passport.Service.Department.Tenants.{
  DepartmentCall, departments_after, departments_of-departments_after,
}
use passport.Tests.Services.{small_world}

abbrev department_of : ℕ → ℕ → Department
department_of id tenant_id = record {
  id = id;
  parent_id = 0;
  user_id = 10001;
  tenant_id = tenant_id;
  org_id = 5;
  name = codes "sales";
  config = [];
}

abbrev two_departments : World ℕ
two_departments = record small_world { departments = department_of 7 2 ∷ department_of 8 3 ∷ [] }

-- Tenant 2 has one department of that name already, tenant 4 has none.
created_twice :
    length (departments_after (DepartmentCall.create (department_of 0 2)) two_departments) ≡ 2
unfolding departments_after department_create_service text_eq codes
created_twice = refl

created_once :
    length (departments_after (DepartmentCall.create (department_of 0 4)) two_departments) ≡ 3
unfolding departments_after department_create_service text_eq codes
created_once = refl

abbrev owner_of : ℕ → ℕ
owner_of id = if id == 7 then 2 else 3

departments_of-departments_after_example :
    departments_of 3 (
      departments_after
        (DepartmentCall.configure 7 10001 2 (codes "color") (Value.int64 false 1))
        two_departments)
    ≡ departments_of 3 two_departments.departments
departments_of-departments_after_example =
    departments_of-departments_after
      (DepartmentCall.configure 7 10001 2 (codes "color") (Value.int64 false 1)) 3 owner_of
      two_departments (omega arith) (refl, (refl, tt))
