-- ===== src/Service/Org/Membership.antt =====
-- UserInOrg: who it lets in, and what it leaves of the state.
use passport.Base.{
  ℕ, ◌≡◌, inl, inr, refl, sym, subst, Bool, true, false, Option, none, some, List, [], ◌∷◌, ◌||◌,
  not, arith, ◌==◌,
}
use passport.Text.{Text}
use passport.Errors.{Error}
use passport.Protos.{Organization, Member}
use passport.World.{◌>>=◌, ◌>>◌, World, tenant, org, member, pure, require, query, or_error}
use passport.Cache.{get}
use passport.Cache.Keys.{
  org_cache_key, org_member_cache_key, org_cache_key-injective, org_member_cache_key-injective,
  tenant_cache_key-ne-org_cache_key, tenant_cache_key-ne-org_member_cache_key,
  org_cache_key-ne-org_member_cache_key,
}
use passport.DefaultCache.{get_org_cache, set_org_cache, get_org_member_cache, set_org_member_cache}
use passport.Dao.Org.{org_by_id, is_member, org_get_by_id, org_member_exists}
use passport.Hoare.{
  Outcome, Triple, returned, Triple-bind, Triple-if, Triple-pure, Triple-raise, Triple-or_error,
  Triple-require, Triple-statement, Triple-weaken,
}
use passport.Service.Org.Coherence.{
  IsCoherent, shrink-IsCoherent, store-IsCoherent, load-Agrees, load-IsCoherent,
}
use passport.Service.Org.{
  org_get, require_org, user_in_org, cache_org, org_or_query, member_or_query,
}

-- A coherent state with given tables of organizations and members, and a given state of the enforcer.
pub record Reads {P : Type 0} (os : List Organization) (ms : List Member) (p : P) (w : World P)
    : Type 0 where
  pub coherent : IsCoherent w
  pub orgs : w.orgs ≡ os
  pub members : w.members ≡ ms
  pub policy : w.policy ≡ p

org_by_id-id :
    (id : ℕ) (rows : List Organization) (o : Organization) → org_by_id id rows ≡ some o → o.id ≡ id
unfolding org_by_id
org_by_id-id id [] o e = cc
org_by_id-id id (p ∷ rows) o e = ground (arith, org_by_id-id id rows o)

-- A cached organization is the row of its id.
abbrev FoundOrg : List Organization → ℕ → Option Organization → Type 0
FoundOrg os id none = Unit
FoundOrg os id (some o) = (o.id ≡ id) × (org_by_id id os ≡ some o)

-- A cached membership is a row.
abbrev FoundMember : List Member → ℕ → ℕ → Option Bool → Type 0
FoundMember ms org_id uid none = Unit
FoundMember ms org_id uid (some b) = (b ≡ true) × (is_member org_id uid ms ≡ true)

module _ {P : Type 0} (os : List Organization) (ms : List Member) (p : P) where
  abbrev pub Keeps : World P → Type 0
  Keeps = Reads os ms p

  load-Keeps :
      (w : World P) (k : Text) → Keeps w → Keeps (record w { cache = (get w.now k w.cache).1 })
  load-Keeps w k r = record {
    coherent = load-IsCoherent w k r.coherent;
    orgs = r.orgs;
    members = r.members;
    policy = r.policy;
  }

  pub faults-Keeps : (w : World P) (fs : List Bool) → Keeps w → Keeps (record w { faults = fs })
  faults-Keeps w fs r = record {
    coherent = shrink-IsCoherent w _ r.coherent refl refl (λ k e h. h);
    orgs = r.orgs;
    members = r.members;
    policy = r.policy;
  }

  get_org_cache-Triple :
      (id : ℕ) → Triple Keeps (get_org_cache id) (λ hit w. Keeps w × FoundOrg os id hit) Keeps
  unfolding get_org_cache
  get_org_cache-Triple id = record {
    at = λ w r. elim (load-Agrees w (org_cache_key id) r.coherent) [
      | inl e ↦ rw e (returned {a = none} (load-Keeps w (org_cache_key id) r, tt))
      | inr (tenant t, e, a) ↦ absurd (tenant_cache_key-ne-org_cache_key t.id id (sym a))
      | inr (member b, e, a) ↦ absurd (org_cache_key-ne-org_member_cache_key id a.0 a.1 a.2)
      | inr (org o, e, a) ↦
          let same = org_cache_key-injective id o.id a.0 in
          rw e (
            returned {a = some o} (
              load-Keeps w (org_cache_key id) r,
              (
                sym same,
                subst (λ rows. org_by_id id rows ≡ some o) r.orgs
                    (subst (λ i. org_by_id i w.orgs ≡ some o) (sym same) a.1),
              ),
            ))
    ];
  }

  set_org_cache-Triple :
      (o : Organization)
      → org_by_id o.id os ≡ some o
      → Triple Keeps (set_org_cache o) (λ _ w. Keeps w) Keeps
  unfolding set_org_cache
  set_org_cache-Triple o row =
      Triple-if (o.id == 0) _ _ (λ _. Triple-pure tt (λ w r. r))
        (λ _. record {
          at = λ w r. returned (record {
            coherent =
                store-IsCoherent w (org_cache_key o.id) (org o) 3600 r.coherent
                  (refl, rw r.orgs row);
            orgs = r.orgs;
            members = r.members;
            policy = r.policy;
          });
        })

  abbrev pub IsRow : ℕ → Organization → World P → Type 0
  IsRow id o w = Keeps w × (org_by_id id os ≡ some o)

  org_get_by_id-Triple :
      (id : ℕ)
      → Triple Keeps
          (org_get_by_id id)
          (λ found w. Keeps w × ((o : Organization) → found ≡ some o → org_by_id id os ≡ some o))
          Keeps
  unfolding org_get_by_id query
  org_get_by_id-Triple id =
      Triple-if (id == 0) _ _ (λ _. Triple-pure none (λ w r. (r, λ o e. cc)))
        (λ _.
          Triple-statement _ (λ w fs r. faults-Keeps w fs r) (λ w fs r. faults-Keeps w fs r)
            (record { at = λ w r. returned (r, λ o e. rw (← r.orgs) e) }))

  cache_org-Triple :
      (id : ℕ) (found : Option Organization)
      → Triple
          (λ w. Keeps w × ((o : Organization) → found ≡ some o → org_by_id id os ≡ some o))
          (cache_org found)
          (IsRow id)
          Keeps
  unfolding cache_org
  cache_org-Triple id none = Triple-raise Error.org_not_found (λ w r. r.0)
  cache_org-Triple id (some o) =
      Triple-if (o.id == 0) _ _ (λ _. Triple-raise Error.org_not_found (λ w r. r.0))
        (λ _. record {
          at = λ w r.
              (Triple-bind (λ _ v. IsRow id o v) (set_org_cache o) (λ _. pure o)
                  (Triple-weaken (set_org_cache o)
                    (set_org_cache-Triple o (
                      let row = r.1 o refl in
                      subst (λ i. org_by_id i os ≡ some o) (sym (org_by_id-id id os o row)) row))
                    (λ _ v k. (k, r.1 o refl)))
                  (λ _. Triple-pure o (λ v k. k))).at
                w r.0;
        })

  org_or_query-Triple :
      (id : ℕ) (hit : Option Organization)
      → Triple (λ w. Keeps w × FoundOrg os id hit) (org_or_query id hit) (IsRow id) Keeps
  unfolding org_or_query
  org_or_query-Triple id (some o) = Triple-pure o (λ w r. (r.0, r.1.1))
  org_or_query-Triple id none = record {
    at = λ w r.
        (Triple-bind
            (λ found v. Keeps v × ((o : Organization) → found ≡ some o → org_by_id id os ≡ some o))
            (or_error (org_get_by_id id) Error.service) cache_org
            (Triple-or_error (org_get_by_id id) Error.service (org_get_by_id-Triple id))
            (λ found. cache_org-Triple id found)).at
          w r.0;
  }

  org_get-Triple : (id : ℕ) → Triple Keeps (org_get id) (IsRow id) Keeps
  unfolding org_get
  org_get-Triple id =
      Triple-if (id == 0) _ _ (λ _. Triple-raise Error.org_required (λ w r. r))
        (λ _.
          Triple-bind (λ hit w. Keeps w × FoundOrg os id hit) (get_org_cache id)
            (λ hit. org_or_query id hit) (get_org_cache-Triple id)
            (λ hit. org_or_query-Triple id hit))

  -- RequireOrg returns the row of the organization, which belongs to the tenant.
  abbrev pub IsOrgOf : ℕ → ℕ → Organization → World P → Type 0
  IsOrgOf tenant_id id o w = IsRow id o w × (o.tenant_id ≡ tenant_id)

  pub require_org-Triple :
      (tenant_id id : ℕ) → Triple Keeps (require_org tenant_id id) (IsOrgOf tenant_id id) Keeps
  unfolding require_org
  require_org-Triple tenant_id id =
      Triple-if (tenant_id == 0 || id == 0) _ _ (λ _. Triple-raise Error.org_required (λ w r. r))
        (λ _.
          Triple-bind (IsRow id) (org_get id)
            (λ o. require (o.tenant_id == tenant_id) Error.no_auth >> pure o) (org_get-Triple id)
            (λ o.
              Triple-bind (λ _ w. IsOrgOf tenant_id id o w)
                (require (o.tenant_id == tenant_id) Error.no_auth) (λ _. pure o)
                (Triple-require (o.tenant_id == tenant_id) Error.no_auth
                  (λ w r e. (r, ground arith)) (λ w r. r.0))
                (λ _. Triple-pure o (λ w r. r))))

  get_org_member_cache-Triple :
      (org_id uid : ℕ)
      → Triple Keeps
          (get_org_member_cache org_id uid)
          (λ hit w. Keeps w × FoundMember ms org_id uid hit)
          Keeps
  unfolding get_org_member_cache
  get_org_member_cache-Triple org_id uid = record {
    at = λ w r. elim (load-Agrees w (org_member_cache_key org_id uid) r.coherent) [
      | inl e ↦ rw e (returned {a = none} (load-Keeps w (org_member_cache_key org_id uid) r, tt))
      | inr (tenant t, e, a) ↦
          absurd (tenant_cache_key-ne-org_member_cache_key t.id org_id uid (sym a))
      | inr (org o, e, a) ↦ absurd (org_cache_key-ne-org_member_cache_key o.id org_id uid (sym a.0))
      | inr (member b, e, a) ↦
          let same = org_member_cache_key-injective org_id uid a.0 a.1 a.2 in
          rw e (
            returned {a = some b} (
              load-Keeps w (org_member_cache_key org_id uid) r,
              (a.3, rw (same.0, same.1, ← r.members) a.4),
            ))
    ];
  }

  abbrev IsMemberRow : ℕ → ℕ → Unit {0} → World P → Type 0
  IsMemberRow org_id uid _ w = Keeps w × (is_member org_id uid ms ≡ true)

  org_member_exists-Triple :
      (org_id uid : ℕ)
      → Triple Keeps
          (org_member_exists org_id uid)
          (λ b w. Keeps w × (b ≡ true → is_member org_id uid ms ≡ true))
          Keeps
  unfolding org_member_exists query
  org_member_exists-Triple org_id uid =
      Triple-if (org_id == 0 || uid == 0) _ _ (λ _. Triple-pure false (λ w r. (r, λ e. cc)))
        (λ _.
          Triple-statement _ (λ w fs r. faults-Keeps w fs r) (λ w fs r. faults-Keeps w fs r)
            (record { at = λ w r. returned (r, λ e. rw (← r.members) e) }))

  set_org_member_cache-Triple :
      (org_id uid : ℕ)
      → is_member org_id uid ms ≡ true
      → Triple Keeps (set_org_member_cache org_id uid true) (IsMemberRow org_id uid) Keeps
  unfolding set_org_member_cache
  set_org_member_cache-Triple org_id uid row =
      Triple-if (org_id == 0 || uid == 0 || not true) _ _ (λ _. Triple-pure tt (λ w r. (r, row)))
        (λ _. record {
          at = λ w r. returned (
            record {
              coherent =
                  store-IsCoherent w (org_member_cache_key org_id uid) (member true) 300 r.coherent
                    (org_id, uid, refl, refl, rw r.members row);
              orgs = r.orgs;
              members = r.members;
              policy = r.policy;
            },
            row,
          );
        })

  member_or_query-Triple :
      (org_id uid : ℕ) (hit : Option Bool)
      → Triple
          (λ w. Keeps w × FoundMember ms org_id uid hit)
          (member_or_query org_id uid hit)
          (IsMemberRow org_id uid)
          Keeps
  unfolding member_or_query
  member_or_query-Triple org_id uid (some b) =
      Triple-require b Error.no_auth (λ w r e. (r.0, r.1.1)) (λ w r. r.0)
  member_or_query-Triple org_id uid none = record {
    at = λ w r.
        (Triple-bind (λ b v. Keeps v × (b ≡ true → is_member org_id uid ms ≡ true))
            (or_error (org_member_exists org_id uid) Error.service)
            (λ is_in. require is_in Error.no_auth >> set_org_member_cache org_id uid true)
            (Triple-or_error (org_member_exists org_id uid) Error.service
              (org_member_exists-Triple org_id uid))
            (λ is_in.
              Triple-bind (IsMemberRow org_id uid) (require is_in Error.no_auth)
                (λ _. set_org_member_cache org_id uid true)
                (Triple-require is_in Error.no_auth (λ v k e. (k.0, k.1 e)) (λ v k. k.0))
                (λ _. record {
                  at = λ v k. (set_org_member_cache-Triple org_id uid k.1).at v k.0;
                }))).at
          w r.0;
  }

  abbrev pub LetsIn : ℕ → ℕ → ℕ → Unit {0} → World P → Type 0
  LetsIn uid tenant_id org_id _ w =
      Keeps w
      × (is_member org_id uid ms ≡ true)
      × ((o : Organization) × (org_by_id org_id os ≡ some o) × (o.tenant_id ≡ tenant_id))

  pub user_in_org-Triple :
      (uid tenant_id org_id : ℕ)
      → Triple Keeps (user_in_org uid tenant_id org_id) (LetsIn uid tenant_id org_id) Keeps
  unfolding user_in_org
  user_in_org-Triple uid tenant_id org_id =
      Triple-if (uid == 0) _ _ (λ _. Triple-raise Error.no_auth (λ w r. r))
        (λ _.
          Triple-bind (IsOrgOf tenant_id org_id) (require_org tenant_id org_id)
            (λ _. get_org_member_cache org_id uid >>= member_or_query org_id uid)
            (require_org-Triple tenant_id org_id)
            (λ o. record {
              at = λ w r.
                  (Triple-weaken (get_org_member_cache org_id uid >>= member_or_query org_id uid)
                      (Triple-bind (λ hit v. Keeps v × FoundMember ms org_id uid hit)
                        (get_org_member_cache org_id uid) (member_or_query org_id uid)
                        (get_org_member_cache-Triple org_id uid)
                        (λ hit. member_or_query-Triple org_id uid hit))
                      (λ _ v k. (k.0, k.1, (o, r.0.1, r.1)))).at
                    w r.0.0;
            }))

module _ {P : Type 0} where
  -- From a coherent state, and whatever statements fail, UserInOrg does not panic. If it returns
  -- nil, the user has a row in org_members for the organization, which has a row in organizations
  -- with the given tenant. Either way the two tables and the enforcer are as before and the cache
  -- is coherent.
  pub user_in_org-Outcome :
      (w : World P) (uid tenant_id org_id : ℕ)
      → IsCoherent w
      → Outcome
          (LetsIn w.orgs w.members w.policy uid tenant_id org_id)
          (Reads w.orgs w.members w.policy)
          (user_in_org uid tenant_id org_id w).0
          (user_in_org uid tenant_id org_id w).1
  user_in_org-Outcome w uid tenant_id org_id c =
      (user_in_org-Triple w.orgs w.members w.policy uid tenant_id org_id).at w
        (record { coherent = c; orgs = refl; members = refl; policy = refl })
