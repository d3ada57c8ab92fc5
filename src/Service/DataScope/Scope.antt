-- ===== src/Service/DataScope/Scope.antt =====
-- ResolveDataScope: whom its answer lets a user see.
use passport.Base.{
  ℕ, ◌≡◌, refl, sym, ap, ap₂, ◌∙◌, subst, ◌⊎◌, inl, inr, Bool, true, false, Option, none, some,
  List, [], ◌∷◌, ◌||◌, ◌==◌, All, All-map, take, drop,
}
use passport.Text.{Text, codes}
use passport.Errors.{Error, Result}
use passport.Protos.{User, Member, Department}
use passport.World.{World, pure, raise, attempt, or_error, query}
use passport.Hoare.{
  Outcome, Triple, returned, failed, Triple-bind, Triple-pure, Triple-raise, Triple-if,
  Triple-or_error, Triple-statement, Triple-query, Triple-try, weaken-Outcome, if-Outcome,
  relax-Outcome,
}
use passport.Access.{
  Enforcer, enforce, enforced, get_role_for_user, roles_of_found, gen_user_by_uid, domain,
}
use passport.Paging.Holds.{pages-Triple}
use passport.Dao.User.{user_query_by_id, user_by_id}
use passport.Dao.Department.{department_find_page}
use passport.Dao.Listing.{org_users, in_order, user_query_by_org, or_default}
use passport.Dao.Page.Safe.{select_page-Triple}
use passport.Service.Department.{department_search}
use passport.Service.DataScope.{
  Level, DataScope, scope_object, contains_uint64, add_own, add_led, own_departments, note_users,
  with_self, member_uids_in_deps, resolve_user_dept_ids, dept_scope, scope_of_level, is_granted,
  first_level, resolve_configured_level, is_root, is_data_scope_root, scope_of, or_default_module,
  resolve_data_scope,
}
use passport.Service.DataScope.Members.{is_in}
use passport.Service.DataScope.Own.{
  departments_in, IsOwn, IsColleague, add_led-IsOwn, rows-IsColleague, note_users-All,
  contains_uint64-with_self, with_self-All,
}

-- What the answer rests on: the users, the members, the departments and the enforcer.
pub record Reads {P : Type 0} (us : List User) (ms : List Member) (ds : List Department) (p : P)
    (w : World P) : Type 0 where
  pub users : w.users ≡ us
  pub members : w.members ≡ ms
  pub departments : w.departments ≡ ds
  pub policy : w.policy ≡ p

-- Why ResolveDataScope answers what it does.
module _ {P : Type 0} (c : Enforcer P) (us : List User) (ms : List Member) (ds : List Department)
    (p : P) (uid tenant_id org_id : ℕ) (mod_name : Text) where
  abbrev pub HasRoot : Type 0
  HasRoot = is_root (c.roles (gen_user_by_uid uid) (domain tenant_id org_id) p) ≡ true

  -- The enforcer grants the user a level for the module.
  abbrev pub Grants : Level → Type 0
  Grants l =
      c.enforce (gen_user_by_uid uid) (domain tenant_id org_id)
        (scope_object (or_default_module mod_name) l) (codes "GET") p
      ≡ some true

  pub data IsScope : DataScope → Type 0 where
    everyone :
        HasRoot ⊎ Grants Level.all → IsScope (record { level = Level.all; dep_ids = []; uids = [] })
    colleagues :
        (dep_ids uids : List ℕ)
        → Grants Level.dept
        → All (IsOwn us ms ds uid tenant_id org_id) dep_ids
        → All (λ id. (id ≡ uid) ⊎ IsColleague us ms ds uid tenant_id org_id dep_ids id) uids
        → contains_uint64 uids uid ≡ true
        → IsScope (record { level = Level.dept; dep_ids = dep_ids; uids = uids })
    oneself : IsScope (record { level = Level.self; dep_ids = []; uids = uid ∷ [] })

  abbrev Fits : World P → Type 0
  Fits = Reads us ms ds p

  faults-Fits : (w : World P) (fs : List Bool) → Fits w → Fits (record w { faults = fs })
  faults-Fits w fs h = record {
    users = h.users;
    members = h.members;
    departments = h.departments;
    policy = h.policy;
  }

  -- What is known of the roles.
  abbrev Roles : List Text → World P → Type 0
  Roles roles v = Fits v × (is_root roles ≡ true → HasRoot)

  empty-Roles : (v : World P) → Fits v → Roles [] v
  empty-Roles v h = (h, λ e. absurd (unfold is_root in cc e))

  roles_of_found-Outcome :
      {r : Result (Option User)} {v : World P}
      → Outcome (λ _. Fits) Fits r v
      → Outcome Roles Fits
          (roles_of_found c uid tenant_id org_id r v).0
          (roles_of_found c uid tenant_id org_id r v).1
  unfolding roles_of_found
  roles_of_found-Outcome (failed {w = v} h) = returned {a = []} (empty-Roles v h)
  roles_of_found-Outcome (returned {a = none} {w = v} h) = returned {a = []} (empty-Roles v h)
  roles_of_found-Outcome (returned {a = some u} {w = v} h) =
      if-Outcome (u.tenant_id == tenant_id) _ _
        (λ _. returned (
          h,
          λ e.
              ap (λ q. is_root (c.roles (gen_user_by_uid uid) (domain tenant_id org_id) q))
                (sym h.policy)
              ∙ e,
        ))
        (λ _. returned {a = []} (empty-Roles v h))

  user_query-Triple : Triple Fits (user_query_by_id uid) (λ _. Fits) Fits
  unfolding user_query_by_id
  user_query-Triple = Triple-query (λ v. user_by_id uid v.users) faults-Fits faults-Fits (λ v h. h)

  root-Triple :
      Triple Fits
        (is_data_scope_root c uid tenant_id org_id)
        (λ b v. Fits v × (b ≡ true → HasRoot))
        Fits
  unfolding is_data_scope_root get_role_for_user
  root-Triple =
      Triple-bind Roles (get_role_for_user c uid tenant_id org_id) (λ roles. pure (is_root roles))
        (record {
          at = λ v h.
              if-Outcome (org_id == 0) _ _ (λ _. returned {a = []} (empty-Roles v h))
                (λ _. roles_of_found-Outcome (user_query-Triple.at v h));
        })
        (λ roles. Triple-pure (is_root roles) (λ v h. h))

  enforced-Outcome :
      (answer : Option Bool) (v : World P)
      → Fits v
      → Outcome
          (λ b x. Fits x × (b ≡ true → answer ≡ some true))
          Fits
          (enforced answer v).0
          (enforced answer v).1
  unfolding enforced
  enforced-Outcome none v h = failed h
  enforced-Outcome (some b) v h = returned (h, ap some)

  abbrev Answered : Text → Result Bool → World P → Type 0
  Answered obj r v =
      Fits v
      × (is_granted r ≡ true
          → c.enforce (gen_user_by_uid uid) (domain tenant_id org_id) obj (codes "GET") p
            ≡ some true)

  enforce-Triple :
      (obj : Text)
      → Triple Fits (attempt (enforce c uid tenant_id org_id obj (codes "GET"))) (Answered obj) Fits
  unfolding enforce is_granted
  enforce-Triple obj =
      Triple-try {Post = Answered obj} (enforce c uid tenant_id org_id obj (codes "GET")) (
        Triple-if (org_id == 0) _ _
          (λ _. Triple-raise Error.org_required (λ v h e. (h, λ k. absurd (cc k))))
          (λ _. record {
            at = λ v h.
                relax-Outcome (λ x k e. (k, λ g. absurd (cc g)))
                  (weaken-Outcome
                    (λ b x k. (
                      k.0,
                      λ t.
                          ap
                            (c.enforce (gen_user_by_uid uid) (domain tenant_id org_id) obj
                              (codes "GET"))
                            (sym h.policy)
                          ∙ k.1 t,
                    ))
                    (enforced-Outcome _ v h));
          }))

  abbrev HasLevel : Level → World P → Type 0
  HasLevel l v = Fits v × (Grants l ⊎ (l ≡ Level.self))

  first_level-Triple :
      (ls : List Level)
      → Triple Fits
          (first_level c uid tenant_id org_id (or_default_module mod_name) ls)
          HasLevel
          Fits
  unfolding first_level
  first_level-Triple [] = Triple-pure Level.self (λ v h. (h, inr refl))
  first_level-Triple (l ∷ ls) =
      Triple-bind (Answered (scope_object (or_default_module mod_name) l)) _ _
        (enforce-Triple (scope_object (or_default_module mod_name) l))
        (λ answer.
          Triple-if (is_granted answer) (pure l) _ (λ e. Triple-pure l (λ v h. (h.0, inl (h.1 e))))
            (λ _. record { at = λ v h. (first_level-Triple ls).at v h.0 }))

  -- The department ids of the user.
  abbrev Own : List ℕ → World P → Type 0
  Own ids v = Fits v × All (IsOwn us ms ds uid tenant_id org_id) ids

  abbrev FoundUser : Option User → World P → Type 0
  FoundUser found v = Fits v × (found ≡ user_by_id uid us)

  search-Triple :
      {Pre : World P → Type 0}
      → ((v : World P) (fs : List Bool) → Pre v → Pre (record v { faults = fs }))
      → ((v : World P) → Pre v → Fits v)
      → Triple Pre
          (or_error (department_search 0 tenant_id org_id 0 0) Error.service)
          (λ deps v. Pre v × (deps ≡ departments_in tenant_id org_id ds))
          Fits
  unfolding department_search department_find_page
  search-Triple {Pre = Pre} keep fits = Triple-or_error _ Error.service (
      Triple-if (tenant_id == 0) _ _ (λ _. Triple-raise Error.param fits)
        (λ _.
          Triple-bind (λ deps v. Pre v × (deps ≡ departments_in tenant_id org_id ds))
            (or_error (query (λ w. departments_in tenant_id org_id w.departments)) Error.service) _
            (Triple-or_error _ Error.service (
              Triple-query (λ w. departments_in tenant_id org_id w.departments)
                (λ v f h. fits (record v { faults = f }) (keep v f h)) keep
                (λ v h. (h, ap (departments_in tenant_id org_id) (fits v h).departments))))
            (λ deps. record { at = λ v h. returned h })))

  ids-Triple : Triple Fits (resolve_user_dept_ids uid tenant_id org_id) Own Fits
  unfolding resolve_user_dept_ids
  ids-Triple =
      Triple-bind FoundUser (or_error (user_query_by_id uid) Error.service) _
        (Triple-or_error _ Error.service (
          unfold user_query_by_id in
          Triple-query (λ v. user_by_id uid v.users) faults-Fits faults-Fits
            (λ v h. (h, ap (user_by_id uid) h.users))))
        (λ user.
          Triple-bind (λ deps v. FoundUser user v × (deps ≡ departments_in tenant_id org_id ds))
            (or_error (department_search 0 tenant_id org_id 0 0) Error.service) _
            (search-Triple (λ v f h. (faults-Fits v f h.0, h.1)) (λ v h. h.0))
            (λ deps. Triple-pure _ (λ v h. (
              h.0.0,
              subst
                  (λ (x : Option User × List Department).
                    All (IsOwn us ms ds uid tenant_id org_id)
                      (add_led uid x.1 (add_own x.1 (own_departments tenant_id x.0) [])))
                  (sym (ap₂ (λ a b. (a, b)) h.0.1 h.1))
                  (add_led-IsOwn us ms ds uid tenant_id org_id),
            ))))

  -- The users that have been noted so far.
  abbrev Noted : List ℕ → List ℕ → World P → Type 0
  Noted dep_ids out v = Fits v × All (IsColleague us ms ds uid tenant_id org_id dep_ids) out

  abbrev Members : List ℕ → Option (List ℕ) → World P → Type 0
  Members dep_ids r v = (out : List ℕ) → r ≡ some out → Noted dep_ids out v

  noted :
      (dep_ids out : List ℕ) (v : World P) (rank : ℕ → ℕ) (offset : ℕ)
      → Noted dep_ids out v
      → All (IsColleague us ms ds uid tenant_id org_id dep_ids) (
          note_users dep_ids
            (take 200
              (drop offset (in_order rank (org_users tenant_id org_id [] [] v.members v.users))))
            out)
  noted dep_ids out v rank offset h =
      note_users-All (IsColleague us ms ds uid tenant_id org_id dep_ids) dep_ids _ out
        (subst
          (λ (x : List Member × List User).
            All
              (λ u.
                is_in dep_ids u ≡ true → IsColleague us ms ds uid tenant_id org_id dep_ids u.uid)
              (take 200 (drop offset (in_order rank (org_users tenant_id org_id [] [] x.0 x.1)))))
          (sym (ap₂ (λ a b. (a, b)) h.0.members h.0.users))
          (rows-IsColleague us ms ds uid tenant_id org_id dep_ids rank 200 offset))
        h.1

  page-Triple :
      (dep_ids out : List ℕ) (page : ℕ)
      → Triple
          (Noted dep_ids out)
          (or_error (user_query_by_org tenant_id org_id page 200 [] []) Error.service)
          (λ l v. Noted dep_ids out v × Noted dep_ids (note_users dep_ids l out) v)
          Fits
  unfolding user_query_by_org
  page-Triple dep_ids out page = Triple-or_error _ Error.service (
      Triple-if (tenant_id == 0 || org_id == 0) _ _ (λ _. Triple-raise Error.param (λ v h. h.0))
        (λ _.
          Triple-statement _ (λ v f h. faults-Fits v f h.0) (λ v f h. (faults-Fits v f h.0, h.1))
            (select_page-Triple (or_default page 1) 200
              (λ w.
                in_order (w.row_order (or_default page 1))
                  (org_users tenant_id org_id [] [] w.members w.users))
              (λ v h. h.0)
              (λ v h. (h, (h.0, noted dep_ids out v (v.row_order (or_default page 1)) _ h))))))

  Members-Triple :
      (fuel : ℕ) (dep_ids : List ℕ)
      → Triple Fits
          (member_uids_in_deps fuel tenant_id org_id dep_ids)
          (λ r v. Fits v × Members dep_ids r v)
          Fits
  unfolding member_uids_in_deps
  Members-Triple fuel [] = Triple-pure (some []) (λ v h. (
    h,
    λ out e.
        let same : [] ≡ out = cc e in
        (h, subst (All (IsColleague us ms ds uid tenant_id org_id [])) same tt),
  ))
  Members-Triple fuel (d ∷ dep_ids) = record {
    at = λ v h.
        (pages-Triple _ 200 (note_users (d ∷ dep_ids)) (Noted (d ∷ dep_ids)) Fits Fits
            (λ s x k. k.0) (λ page out. page-Triple (d ∷ dep_ids) out page) fuel 1 []).at
          v (h, tt);
  }

  -- What the level of an answer rests on.
  abbrev Why : Level → Type 0
  Why Level.all = HasRoot ⊎ Grants Level.all
  Why Level.dept = Grants Level.dept
  Why Level.self = Unit

  abbrev Answers : Option DataScope → World P → Type 0
  Answers r v = Fits v × ((s : DataScope) → r ≡ some s → IsScope s)

  answer : (s : DataScope) (v : World P) → Fits v → IsScope s → Answers (some s) v
  answer s v h k = (h, λ t e. subst IsScope (cc e) k)

  dept_scope-Triple :
      (dep_ids : List ℕ) (members : Option (List ℕ))
      → Grants Level.dept
      → All (IsOwn us ms ds uid tenant_id org_id) dep_ids
      → Triple
          (λ v. Fits v × Members dep_ids members v)
          (dept_scope uid dep_ids members)
          Answers
          Fits
  unfolding dept_scope
  dept_scope-Triple dep_ids none g own = Triple-pure none (λ v h. (h.0, λ t e. absurd (cc e)))
  dept_scope-Triple dep_ids (some members) g own = Triple-pure _ (λ v h. answer _ v h.0 (
      colleagues dep_ids (with_self uid members) g own
        (with_self-All _ uid members (inl refl)
          (All-map _ members (λ id k. inr k) (h.1 members refl).1))
        (contains_uint64-with_self uid members)))

  scope_of_level-Triple :
      (fuel : ℕ) (l : Level)
      → Why l
      → Triple Fits (scope_of_level fuel uid tenant_id org_id l) Answers Fits
  unfolding scope_of_level
  scope_of_level-Triple fuel Level.all why = Triple-pure _ (λ v h. answer _ v h (everyone why))
  scope_of_level-Triple fuel Level.self why = Triple-pure _ (λ v h. answer _ v h oneself)
  scope_of_level-Triple fuel Level.dept why =
      Triple-bind Own (resolve_user_dept_ids uid tenant_id org_id) _ ids-Triple (λ dep_ids. record {
        at = λ v h.
            (Triple-bind (λ r x. Fits x × Members dep_ids r x)
                (member_uids_in_deps fuel tenant_id org_id dep_ids) (dept_scope uid dep_ids)
                (Members-Triple fuel dep_ids)
                (λ members. dept_scope-Triple dep_ids members why h.1)).at
              v h.0;
      })

  reason-Why : (l : Level) → Grants l ⊎ (l ≡ Level.self) → Why l
  reason-Why Level.all (inl g) = inr g
  reason-Why Level.all (inr e) = absurd (cc e)
  reason-Why Level.dept (inl g) = g
  reason-Why Level.dept (inr e) = absurd (cc e)
  reason-Why Level.self h = tt

  configured-Triple :
      (fuel : ℕ) (root : Bool)
      → (root ≡ true → HasRoot)
      → Triple Fits
          (scope_of c fuel uid tenant_id org_id (or_default_module mod_name) root)
          Answers
          Fits
  unfolding scope_of resolve_configured_level
  configured-Triple fuel true why = scope_of_level-Triple fuel Level.all (inl (why refl))
  configured-Triple fuel false why =
      Triple-bind HasLevel _ (scope_of_level fuel uid tenant_id org_id)
        (first_level-Triple (Level.all ∷ Level.dept ∷ Level.self ∷ []))
        (λ l. record { at = λ v h. (scope_of_level-Triple fuel l (reason-Why l h.1)).at v h.0 })

  resolve-Triple :
      (fuel : ℕ)
      → Triple Fits (resolve_data_scope c fuel uid tenant_id org_id mod_name) Answers Fits
  unfolding resolve_data_scope
  resolve-Triple fuel =
      Triple-if (uid == 0 || (tenant_id == 0 || org_id == 0)) (raise Error.param) _
        (λ _. Triple-raise Error.param (λ v h. h))
        (λ _.
          Triple-bind (λ b v. Fits v × (b ≡ true → HasRoot))
            (is_data_scope_root c uid tenant_id org_id) _ root-Triple
            (λ b. record { at = λ v h. (configured-Triple fuel b h.1).at v h.0 }))

-- Whatever statements fail, ResolveDataScope does not panic, and leaves the users, the members, the
-- departments and the enforcer as they were. It answers with level `all` only if the user has the
-- role root in the organization or the enforcer grants level `all` for the module; with level `dept`
-- only if the enforcer grants that, and then each department is one of the organization that the
-- user has or leads, each id is the user's or that of a user of the tenant and the organization who
-- is in one of the departments, and the user's id is among them; or with level `self` and the
-- user's id alone.
pub resolve_data_scope-Outcome :
    {P : Type 0} (c : Enforcer P) (fuel uid tenant_id org_id : ℕ) (mod_name : Text) (w : World P)
    → Outcome
        (λ r v.
          Reads w.users w.members w.departments w.policy v
          × ((s : DataScope)
              → r ≡ some s
              → IsScope c w.users w.members w.departments w.policy uid tenant_id org_id mod_name s))
        (Reads w.users w.members w.departments w.policy)
        (resolve_data_scope c fuel uid tenant_id org_id mod_name w).0
        (resolve_data_scope c fuel uid tenant_id org_id mod_name w).1
resolve_data_scope-Outcome c fuel uid tenant_id org_id mod_name w =
    (resolve-Triple c w.users w.members w.departments w.policy uid tenant_id org_id mod_name
        fuel).at
      w (record { users = refl; members = refl; departments = refl; policy = refl })
