-- ===== src/Http/Granting.antt =====
-- Which requests AccessFilter lets pass.
use passport.Base.{
  ◌≡◌, ◌⊎◌, inl, inr, refl, sym, ap, ◌∙◌, Bool, true, false, Option, none, some, List, [], ◌||◌,
  ◌==◌,
}
use passport.Text.{Text, text_eq}
use passport.Errors.{Error, Result, ok, err, panic}
use passport.Protos.{User, Member, Organization}
use passport.World.{World, gets, attempt}
use passport.Hoare.{
  Outcome, Triple, returned, failed, Triple-bind, Triple-pure, Triple-raise, Triple-if, Triple-try,
  Triple-weaken, weaken-Outcome,
}
use passport.Access.{Enforcer, enforce, enforced, gen_user_by_uid, domain}
use passport.Dao.Org.{org_by_id, is_member}
use passport.Service.Org.{user_in_org}
use passport.Service.Org.Membership.{Reads, user_in_org-Triple}
use passport.Http.{
  Session, of_user, broken, no_value, other_value, Request, parse_org_id, access_object,
  needs_access, granted, allowed, check_access, access_of_user, is_foreign, access_filter,
}

pub both-Outcome :
    {P A : Type 0} {Post Post' : A → World P → Type 0} {Fail Fail' : World P → Type 0}
    {r : Result A} {w : World P}
    → ((a : A) (v : World P) → Post a v → Post' a v)
    → ((v : World P) → Fail v → Fail' v)
    → Outcome Post Fail r w
    → Outcome Post' Fail' r w
both-Outcome f g (returned {a = a} {w = w} p) = returned (f a w p)
both-Outcome f g (failed {w = w} p) = failed (g w p)

module _ {P : Type 0} (c : Enforcer P) (os : List Organization) (ms : List Member) (p : P) where
  -- The user is a member of the organization that the request names, which is of the user's tenant,
  -- and the enforcer allows the user there what the request names, by the request's method.
  pub record IsGranted (r : Request) (u : User) : Type 0 where
    pub member : is_member (parse_org_id r) u.uid ms ≡ true
    pub org : Organization
    pub found : org_by_id (parse_org_id r) os ≡ some org
    pub of_tenant : org.tenant_id ≡ u.tenant_id
    pub allows :
        c.enforce
          (gen_user_by_uid u.uid)
          (domain u.tenant_id (parse_org_id r))
          (access_object r)
          r.method
          p
        ≡ some true

  abbrev Keeps : World P → Type 0
  Keeps = Reads os ms p

  -- No state: what never comes about.
  abbrev Never : World P → Type 0
  Never w = ⊥

  enforced-Outcome :
      (answer : Option Bool) (v : World P)
      → Keeps v
      → Outcome
          (λ b x. Keeps x × (b ≡ true → answer ≡ some true))
          Keeps
          (enforced answer v).0
          (enforced answer v).1
  unfolding enforced
  enforced-Outcome none v h = failed h
  enforced-Outcome (some b) v h = returned (h, ap some)

  enforce-Triple :
      (r : Request) (u : User)
      → Triple Keeps
          (enforce c u.uid u.tenant_id (parse_org_id r) (access_object r) r.method)
          (λ b v.
            Keeps v
            × (b ≡ true
                → c.enforce
                    (gen_user_by_uid u.uid)
                    (domain u.tenant_id (parse_org_id r))
                    (access_object r)
                    r.method
                    p
                  ≡ some true))
          Keeps
  unfolding enforce
  enforce-Triple r u =
      Triple-if (parse_org_id r == 0) _ _ (λ _. Triple-raise Error.org_required (λ v h. h))
        (λ _. record {
          at = λ v h.
              weaken-Outcome
                (λ b x k. (
                  k.0,
                  λ t.
                      ap
                        (c.enforce (gen_user_by_uid u.uid) (domain u.tenant_id (parse_org_id r))
                          (access_object r) r.method)
                        (sym h.policy)
                      ∙ k.1 t,
                ))
                (enforced-Outcome _ v h);
        })

  -- What UserInOrg has found out.
  abbrev Enters : Request → User → Result (Unit {0}) → Type 0
  Enters r u (ok _) =
      (is_member (parse_org_id r) u.uid ms ≡ true)
      × ((o : Organization) × (org_by_id (parse_org_id r) os ≡ some o)
          × (o.tenant_id ≡ u.tenant_id))
  Enters r u (err e) = Unit
  Enters r u panic = ⊥

  allowed-Triple :
      (r : Request) (u : User) (is_in : Result (Unit {0}))
      → Enters r u is_in
      → Triple Keeps
          (allowed c is_in u (parse_org_id r) (access_object r) r.method)
          (λ b v. Keeps v × (b ≡ true → IsGranted r u))
          Never
  unfolding allowed granted
  allowed-Triple r u (ok _) (is_in, (o, found, same)) =
      Triple-bind (λ x v. Keeps v × (granted x ≡ true → IsGranted r u))
        (attempt (enforce c u.uid u.tenant_id (parse_org_id r) (access_object r) r.method)) _
        (Triple-try (enforce c u.uid u.tenant_id (parse_org_id r) (access_object r) r.method)
          (record {
            at = λ v h.
                both-Outcome
                  (λ b x k. (
                    k.0,
                    λ t. record {
                      member = is_in;
                      org = o;
                      found = found;
                      of_tenant = same;
                      allows = k.1 t;
                    },
                  ))
                  (λ x k e. (k, λ t. absurd (cc t))) ((enforce-Triple r u).at v h);
          }))
        (λ x. Triple-pure (granted x) (λ v h. h))
  allowed-Triple r u (err e) k = Triple-pure false (λ v h. (h, λ t. absurd (cc t)))
  allowed-Triple r u panic k = absurd k

  check_access-Triple :
      (r : Request) (u : User)
      → Triple Keeps
          (check_access c u (access_object r) r)
          (λ b v. Keeps v × (b ≡ true → IsGranted r u))
          Never
  unfolding check_access
  check_access-Triple r u =
      Triple-if (parse_org_id r == 0) _ _ (λ _. Triple-pure false (λ v h. (h, λ t. absurd (cc t))))
        (λ _.
          Triple-bind (λ x v. Keeps v × Enters r u x)
            (attempt (user_in_org u.uid u.tenant_id (parse_org_id r))) _
            (Triple-try (user_in_org u.uid u.tenant_id (parse_org_id r)) (record {
              at = λ v h.
                  both-Outcome (λ a x k. (k.0, (k.1, k.2))) (λ x k e. (k, tt))
                    ((user_in_org-Triple os ms p u.uid u.tenant_id (parse_org_id r)).at v h);
            }))
            (λ is_in. record { at = λ v h. (allowed-Triple r u is_in h.1).at v h.0 }))

  -- What a request needs that AccessFilter lets pass, by what it asks for.
  abbrev pub Passes : List (Text × Bool) → Request → User → Type 0
  Passes conf r u =
      (needs_access conf (access_object r) ≡ some false)
      ⊎ ((needs_access conf (access_object r) ≡ some true) × IsGranted r u)

  access_of_user-Triple :
      (conf : List (Text × Bool)) (r : Request) (u : User) (need : Option Bool)
      → needs_access conf (access_object r) ≡ need
      → Triple Keeps
          (access_of_user c u (access_object r) r need)
          (λ b v. Keeps v × (b ≡ true → Passes conf r u))
          Never
  unfolding access_of_user
  access_of_user-Triple conf r u none e = Triple-pure false (λ v h. (h, λ t. absurd (cc t)))
  access_of_user-Triple conf r u (some false) e = Triple-pure true (λ v h. (h, λ t. inl e))
  access_of_user-Triple conf r u (some true) e =
      Triple-weaken (check_access c u (access_object r) r) (check_access-Triple r u)
        (λ b v h. (h.0, λ t. inr (e, h.1 t)))

  abbrev pub FilterPasses : List (Text × Bool) → Request → Session → Type 0
  FilterPasses conf r s = (u : User) × (s ≡ of_user u) × Passes conf r u

  pub access_filter-Triple :
      (conf : List (Text × Bool)) (r : Request) (s : Session)
      → Triple Keeps
          (access_filter c conf r s)
          (λ b v. Keeps v × (b ≡ true → FilterPasses conf r s))
          Never
  unfolding access_filter
  access_filter-Triple conf r (of_user u) =
      Triple-if (u.uid == 0 || text_eq (access_object r) []) _ _
        (λ _. Triple-pure false (λ v h. (h, λ t. absurd (cc t))))
        (λ _.
          Triple-bind (λ _. Keeps) (gets (λ w. w.root_tenant_id)) _
            (record { at = λ v h. returned h })
            (λ root.
              Triple-if (is_foreign (access_object r) u root) _ _
                (λ _. Triple-pure false (λ v h. (h, λ t. absurd (cc t))))
                (λ _.
                  Triple-weaken
                    (access_of_user c u (access_object r) r (needs_access conf (access_object r)))
                    (access_of_user-Triple conf r u (needs_access conf (access_object r)) refl)
                    (λ b v h. (h.0, λ t. (u, refl, h.1 t))))))
  access_filter-Triple conf r broken = Triple-pure false (λ v h. (h, λ t. absurd (cc t)))
  access_filter-Triple conf r no_value = Triple-pure false (λ v h. (h, λ t. absurd (cc t)))
  access_filter-Triple conf r other_value = Triple-pure false (λ v h. (h, λ t. absurd (cc t)))
