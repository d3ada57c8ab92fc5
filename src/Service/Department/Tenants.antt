-- ===== src/Service/Department/Tenants.antt =====
-- The writes of departments stay within a tenant.
use passport.Base.{
  ℕ, ◌≡◌, ◌≢◌, refl, ◌∙◌, List, [], ◌∷◌, not, ◌&&◌, ◌||◌, arith, ◌==◌, keep_if, exists, All,
}
use passport.Text.{Text, text_eq}
use passport.Errors.{Error, Result, ok, err, panic}
use passport.Protos.{Department, Value}
use passport.World.{World, Exec, raise, or_error, attempt}
use passport.Hoare.{
  Outcome, returned, failed, Triple, Triple-bind, Triple-if, Triple-raise, Triple-pure,
  Triple-or_error, Triple-statement, Triple-exec, Triple-query, Triple-try, Triple-relax,
  if-Outcome,
}
use passport.Dao.Department.{
  matches_department, department_find, created_department, is_twin, is_department, is_name_taken,
  change_departments, insert_department, department_create, department_delete, rename_department,
  department_update, department_update_config,
}
use passport.Service.Department.{
  configured, drop_department, then_drop, department_created, configure_found, find_and_configure,
  department_create_service, department_delete_service, department_update_service,
  department_update_config_service,
}
use passport.Service.Department.Rows.{
  departments_of, departments_of-append, departments_of-delete, departments_of-change,
  is_department-All, owned-All, found-All,
}

module _ {P : Type 0} (t : ℕ) (rows : List Department) (owner : ℕ → ℕ) where
  -- The departments of `t` are the given ones.
  abbrev Keeps : World P → Type 0
  Keeps w = departments_of t w.departments ≡ rows

  -- And each id is that of departments of one tenant.
  abbrev Owned : World P → Type 0
  Owned w = Keeps w × All (λ d. owner d.id ≡ d.tenant_id) w.departments

  insert-Triple :
      (m : Department) → m.tenant_id ≢ t → Triple Keeps (insert_department m) (λ _. Keeps) Keeps
  unfolding insert_department created_department
  insert-Triple m other = record {
    at = λ w h.
        if-Outcome (exists (is_twin m) w.departments) _ _ (λ _. failed h)
          (λ _. returned (
            departments_of-append t w.departments (created_department w.next_department_id m) other
            ∙ h));
  }

  abbrev Made : Result ℕ → World P → Type 0
  Made (ok id) w = Keeps w
  Made (err e) w = Keeps w
  Made panic w = ⊥

  Made-Triple : (r : Result ℕ) → Triple (Made r) (department_created r) (λ _. Keeps) Keeps
  unfolding department_created
  Made-Triple (ok id) = Triple-pure id (λ w h. h)
  Made-Triple (err e) = Triple-raise _ (λ w h. h)
  Made-Triple panic = record { at = λ w h. absurd h }

  create-Triple :
      (m : Department)
      → m.tenant_id ≢ t
      → Triple Keeps (department_create_service m) (λ _. Keeps) Keeps
  unfolding department_create_service department_create
  create-Triple m other =
      Triple-if (m.tenant_id == 0 || m.org_id == 0) (raise Error.param) _
        (λ _. Triple-raise Error.param (λ w h. h))
        (λ _.
          Triple-bind Made (attempt (department_create m)) department_created
            (Triple-try {Post = Made} (department_create m) (
              Triple-statement (insert_department m) (λ w fs h e. h) (λ w fs h. h)
                (Triple-relax (insert_department m) (insert-Triple m other) (λ v h e. h))))
            Made-Triple)

  dropped :
      {r : Result (Unit {0})} {w : World P} (tenant_id id : ℕ)
      → Outcome (λ _. Keeps) Keeps r w
      → Outcome (λ _. Keeps) Keeps r (drop_department tenant_id id w).1
  unfolding drop_department
  dropped tenant_id id (returned h) = returned h
  dropped tenant_id id (failed h) = failed h

  -- The deferred change of the cache touches no table.
  then_drop-Triple :
      {Pre : World P → Type 0} (tenant_id id : ℕ) (m : Exec P (Unit {0}))
      → Triple Pre m (λ _. Keeps) Keeps
      → Triple Pre (then_drop tenant_id id m) (λ _. Keeps) Keeps
  unfolding then_drop drop_department
  then_drop-Triple tenant_id id m h = record { at = λ w p. dropped tenant_id id (h.at w p) }

  delete-Triple :
      (id tenant_id : ℕ)
      → tenant_id ≢ t
      → Triple Keeps (department_delete_service id tenant_id) (λ _. Keeps) Keeps
  unfolding department_delete_service department_delete
  delete-Triple id tenant_id other =
      then_drop-Triple tenant_id id (or_error (department_delete id tenant_id) Error.service) (
        Triple-or_error (department_delete id tenant_id) Error.service (
          Triple-exec
            (λ w. record w {
              departments = keep_if (λ d. not (is_department id tenant_id d)) w.departments;
            })
            (λ w fs h. h) (λ w fs h. h)
            (λ w h. departments_of-delete t id tenant_id w.departments other ∙ h)))

  update-Triple :
      (m : Department)
      → m.tenant_id ≢ t
      → Triple Keeps (department_update_service m) (λ _. Keeps) Keeps
  unfolding department_update_service department_update rename_department
  update-Triple m other =
      Triple-if (m.id == 0 || (m.tenant_id == 0 || m.user_id == 0)) (raise Error.param) _
        (λ _. Triple-raise Error.param (λ w h. h))
        (λ _. then_drop-Triple m.tenant_id m.id (or_error (department_update m) Error.service) (
          Triple-or_error (department_update m) Error.service (
            Triple-statement (rename_department m) (λ w fs h. h) (λ w fs h. h)
              (record {
                at = λ w h.
                    if-Outcome (exists (is_name_taken m w.departments) w.departments) _ _
                      (λ _. failed h)
                      (λ _. returned (
                        departments_of-change t m.tenant_id (is_department m.id m.tenant_id)
                          (λ d. record d { name = m.name }) w.departments other
                          (is_department-All m.id m.tenant_id w.departments) (λ d. refl)
                        ∙ h));
              }))))

  abbrev Found : List Department → World P → Type 0
  Found rr w = Owned w × All (λ d. owner d.id ≡ d.tenant_id) rr

  configure-Triple :
      (id tenant_id : ℕ) (k : Text) (v : Value) (rr : List Department)
      → tenant_id ≢ t
      → Triple (Found rr) (configure_found id tenant_id k v rr) (λ _. Keeps) Keeps
  unfolding configure_found department_update_config configured
  configure-Triple id tenant_id k v [] other = Triple-raise Error.null (λ w h. h.0.0)
  configure-Triple id tenant_id k v (d ∷ e ∷ ds) other = Triple-raise Error.null (λ w h. h.0.0)
  configure-Triple id tenant_id k v (d ∷ []) other =
      Triple-if (d.tenant_id == tenant_id && d.id == id)
        (or_error (department_update_config (configured k v d)) Error.service) (raise Error.no_auth)
        (λ same. Triple-or_error (department_update_config (configured k v d)) Error.service (
          Triple-exec
            (λ w. record w {
              departments =
                  change_departments (λ e. e.id == d.id)
                    (λ e. record e { config = (configured k v d).config }) w.departments;
            })
            (λ w fs h. h.0.0) (λ w fs h. h)
            (λ w h.
              departments_of-change t d.tenant_id (λ e. e.id == d.id)
                (λ e. record e { config = (configured k v d).config }) w.departments
                (λ x. other (ground (arith, same, x))) (owned-All owner d w.departments h.1.0 h.0.1)
                (λ e. refl)
              ∙ h.0.0)))
        (λ _. Triple-raise Error.no_auth (λ w h. h.0.0))

  update_config-Triple :
      (id curr_uid tenant_id : ℕ) (k : Text) (v : Value)
      → tenant_id ≢ t
      → Triple Owned (department_update_config_service id curr_uid tenant_id k v) (λ _. Keeps) Keeps
  unfolding department_update_config_service find_and_configure department_find
  update_config-Triple id curr_uid tenant_id k v other =
      Triple-if (curr_uid == 0 || (id == 0 || tenant_id == 0)) (raise Error.param) _
        (λ _. Triple-raise Error.param (λ w h. h.0))
        (λ _.
          Triple-if (text_eq k []) (raise Error.param) _
            (λ _. Triple-raise Error.param (λ w h. h.0))
            (λ _. then_drop-Triple tenant_id curr_uid (find_and_configure id tenant_id k v) (
              Triple-bind Found (or_error (department_find id tenant_id 0) Error.service)
                (configure_found id tenant_id k v)
                (Triple-or_error (department_find id tenant_id 0) Error.service (
                  Triple-query (λ w. keep_if (matches_department id tenant_id 0) w.departments)
                    (λ w fs h. h.0) (λ w fs h. h)
                    (λ w h. (
                      h,
                      found-All (λ d. owner d.id ≡ d.tenant_id) (matches_department id tenant_id 0)
                          w.departments h.1,
                    ))))
                (λ rr. configure-Triple id tenant_id k v rr other))))

-- A write of departments, by a user of a tenant.
pub data DepartmentCall : Type 0 where
  create : Department → DepartmentCall
  delete_by_id : ℕ → ℕ → DepartmentCall
  rename : Department → DepartmentCall
  configure : ℕ → ℕ → ℕ → Text → Value → DepartmentCall

abbrev pub caller : DepartmentCall → ℕ
caller (create m) = m.tenant_id
caller (delete_by_id id tenant_id) = tenant_id
caller (rename m) = m.tenant_id
caller (configure id curr_uid tenant_id k v) = tenant_id

-- The departments after a call, whether it returns or fails.
unfoldable pub departments_after : {P : Type 0} → DepartmentCall → World P → List Department
unfolding department_create_service department_delete_service department_update_service
    department_update_config_service
departments_after (create m) w = (department_create_service m w).1.departments
departments_after (delete_by_id id tenant_id) w =
    (department_delete_service id tenant_id w).1.departments
departments_after (rename m) w = (department_update_service m w).1.departments
departments_after (configure id curr_uid tenant_id k v) w =
    (department_update_config_service id curr_uid tenant_id k v w).1.departments

either :
    {P A : Type 0} {Q : World P → Type 0} {r : Result A} {w : World P}
    → Outcome (λ _. Q) Q r w
    → Q w
either (returned h) = h
either (failed h) = h

-- If each id is that of departments of one tenant, then creating, deleting, renaming or configuring
-- a department for a tenant leaves the departments of every other tenant as they are, whatever
-- statements fail and whether or not the call is refused.
pub departments_of-departments_after :
    {P : Type 0} (call : DepartmentCall) (t : ℕ) (owner : ℕ → ℕ) (w : World P)
    → caller call ≢ t
    → All (λ d. owner d.id ≡ d.tenant_id) w.departments
    → departments_of t (departments_after call w) ≡ departments_of t w.departments
unfolding departments_after
departments_of-departments_after (create m) t owner w other owned =
    either ((create-Triple t (departments_of t w.departments) owner m other).at w refl)
departments_of-departments_after (delete_by_id id tenant_id) t owner w other owned =
    either ((delete-Triple t (departments_of t w.departments) owner id tenant_id other).at w refl)
departments_of-departments_after (rename m) t owner w other owned =
    either ((update-Triple t (departments_of t w.departments) owner m other).at w refl)
departments_of-departments_after (configure id curr_uid tenant_id k v) t owner w other owned =
    either (
      (update_config-Triple t (departments_of t w.departments) owner id curr_uid tenant_id k v
          other).at
        w (refl, owned))
