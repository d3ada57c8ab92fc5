-- ===== src/Dao/Department.antt =====
-- dao/department.dao.go
use passport.Base.{
  ℕ, ◌+◌, Bool, List, [], ◌∷◌, ◌++◌, not, ◌&&◌, ◌||◌, ltb, ◌==◌, if◌then◌else◌, keep_if, exists,
}
use passport.Text.{text_eq}
use passport.Errors.{Error, ok, err}
use passport.Protos.{Department}
use passport.World.{Exec, raise, query, statement, exec}
use passport.Dao.Account.{page_of}

-- The WHERE clauses of DepartmentFind: `id` and `org_id` filter unless they are 0.
unfoldable pub matches_department : ℕ → ℕ → ℕ → Department → Bool
matches_department id tenant_id org_id d =
    d.tenant_id == tenant_id
    && (not (ltb 0 id) || d.id == id)
    && (not (ltb 0 org_id) || d.org_id == org_id)

-- The row that DepartmentCreate adds.
unfoldable pub created_department : ℕ → Department → Department
created_department id m = record m { id = id; config = [] }

-- UNIQUE (tenant_id, org_id, name)
unfoldable pub is_twin : Department → Department → Bool
is_twin m d = d.tenant_id == m.tenant_id && (d.org_id == m.org_id && text_eq d.name m.name)

-- WHERE id = i AND tenant_id = t
unfoldable pub is_department : ℕ → ℕ → Department → Bool
is_department id tenant_id d = d.id == id && d.tenant_id == tenant_id

-- The new name of a row is that of another row of its organization.
unfoldable pub is_name_taken : Department → List Department → Department → Bool
unfolding is_department is_twin
is_name_taken m ds d =
    is_department m.id m.tenant_id d
    && exists (λ e. not (e.id == d.id) && is_twin (record d { name = m.name }) e) ds

-- The rows that pass a test, changed.
unfoldable pub change_departments :
    (Department → Bool) → (Department → Department) → List Department → List Department
change_departments p f [] = []
change_departments p f (d ∷ ds) = (if p d then f d else d) ∷ change_departments p f ds

module _ {P : Type 0} where
  -- A statement on the departments.
  abbrev pub on_departments : (List Department → List Department) → Exec P (Unit {0})
  on_departments f = exec (λ w. record w { departments = f w.departments })

  -- DepartmentFind without paging; the order (by time of update) is that of the table
  unfoldable pub department_find : ℕ → ℕ → ℕ → Exec P (List Department)
  unfolding query matches_department
  department_find id tenant_id org_id =
      query (λ w. keep_if (matches_department id tenant_id org_id) w.departments)

  -- DepartmentDeleteByOrg
  unfoldable pub department_delete_by_org : ℕ → ℕ → Exec P (Unit {0})
  unfolding exec
  department_delete_by_org tenant_id org_id =
      if tenant_id == 0 || org_id == 0
      then raise Error.param
      else exec (λ w. record w {
        departments =
            keep_if (λ d. not (d.tenant_id == tenant_id && d.org_id == org_id)) w.departments;
      })

  -- DepartmentFind with paging
  unfoldable pub department_find_page : ℕ → ℕ → ℕ → ℕ → ℕ → Exec P (List Department)
  unfolding query matches_department page_of
  department_find_page id tenant_id org_id page page_size = query (λ w.
      let rows = keep_if (matches_department id tenant_id org_id) w.departments in
      if ltb 0 page && ltb 0 page_size then page_of page page_size rows else rows)

  -- INSERT INTO departments; the id of a refused row is used up.
  unfoldable pub insert_department : Department → Exec P ℕ
  unfolding created_department is_twin
  insert_department m w =
      let w' = record w { next_department_id = w.next_department_id + 1 } in
      if exists (is_twin m) w.departments then (err Error.duplicate, w') else (
        ok w.next_department_id,
        record w' { departments = w.departments ++ created_department w.next_department_id m ∷ [] },
      )

  -- DepartmentCreate
  unfoldable pub department_create : Department → Exec P ℕ
  unfolding statement insert_department
  department_create m = statement (insert_department m)

  -- DepartmentDelete
  unfoldable pub department_delete : ℕ → ℕ → Exec P (Unit {0})
  unfolding exec is_department
  department_delete id tenant_id =
      on_departments (keep_if (λ d. not (is_department id tenant_id d)))

  unfoldable pub rename_department : Department → Exec P (Unit {0})
  unfolding is_name_taken is_department change_departments
  rename_department m w =
      if exists (is_name_taken m w.departments) w.departments then (err Error.duplicate, w) else (
        ok tt,
        record w {
          departments =
              change_departments (is_department m.id m.tenant_id) (λ d. record d { name = m.name })
                w.departments;
        },
      )

  -- DepartmentUpdate
  unfoldable pub department_update : Department → Exec P (Unit {0})
  unfolding statement rename_department
  department_update m = statement (rename_department m)

  -- DepartmentUpdateConfig: by the id alone
  unfoldable pub department_update_config : Department → Exec P (Unit {0})
  unfolding exec change_departments
  department_update_config m =
      on_departments (change_departments (λ d. d.id == m.id) (λ d. record d { config = m.config }))
