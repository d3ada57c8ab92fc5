-- ===== src/Service/Org/Steps.antt =====
-- What single steps of a change of members leave of the coherence of the cache.
use passport.Base.{
  ℕ, ◌≡◌, ◌≢◌, inl, inr, refl, ap₂, ◌∙◌, Bool, true, false, Option, none, some, List, [], ◌∷◌, ◌&&◌,
  not, arith, keep_if, if◌then◌else◌, ◌==◌, Bool-cases,
}
use passport.Text.{Text, text_eq_refl}
use passport.Protos.{Member}
use passport.World.{World, Cached, tenant, org, member}
use passport.Access.{call_result}
use passport.Cache.{Entry, lookup, delete}
use passport.Cache.Laws.{lookup-remove}
use passport.Cache.Keys.{org_member_cache_key}
use passport.Dao.Org.{is_member}
use passport.Hoare.{Outcome, returned, failed}
use passport.Service.Org.Coherence.{Agrees, IsCoherent, shrink-IsCoherent}

pub is_member-keep_if :
    (org_id uid o u : ℕ) (ms : List Member)
    → is_member o u (keep_if (λ m. not (m.org_id == org_id && m.uid == uid)) ms)
      ≡ (if o == org_id && u == uid then false else is_member o u ms)
unfolding is_member
is_member-keep_if org_id uid o u [] = ground arith
is_member-keep_if org_id uid o u (m ∷ ms) = ground (arith, is_member-keep_if org_id uid o u ms)

-- A new row leaves every membership.
pub is_member_more :
    (x : Member) (o u : ℕ) (ms : List Member)
    → is_member o u ms ≡ true
    → is_member o u (x ∷ ms) ≡ true
unfolding is_member
is_member_more x o u ms h = ground arith

module _ {P : Type 0} where
  -- What is cached under a key agrees with other tables that have the same organizations and the
  -- membership of that key.
  pub carry-Agrees :
      (w v : World P) (k : Text) (x : Cached)
      → v.orgs ≡ w.orgs
      → ((o u : ℕ)
          → k ≡ org_member_cache_key o u
          → is_member o u w.members ≡ true
          → is_member o u v.members ≡ true)
      → Agrees w k x
      → Agrees v k x
  carry-Agrees w v k (tenant t) same more a = a
  carry-Agrees w v k (org o) same more a = (a.0, rw same a.1)
  carry-Agrees w v k (member b) same more (o, u, e, t, m) = (o, u, e, t, more o u e m)

  -- The cache is coherent but for one key.
  pub record IsCoherentBut (k : Text) (w : World P) : Type 0 where
    agrees : (j : Text) (e : Entry Cached) → j ≢ k → lookup j w.cache ≡ some e → Agrees w j e.val

  pub evict-IsCoherentBut :
      (k : Text) (w : World P)
      → IsCoherentBut k w
      → IsCoherent (record w { cache = delete k w.cache })
  unfolding delete
  evict-IsCoherentBut k w c = record {
    agrees = λ j e h.
        let other : j ≢ k = λ same. ground (arith, lookup-remove k j w.cache, text_eq_refl k) in
        carry-Agrees w (record w { cache = delete k w.cache }) j e.val refl (λ o u _ m. m)
          (c.agrees j e other (ground (arith, lookup-remove k j w.cache)));
  }

  pub delete-IsCoherentBut :
      (org_id uid : ℕ) (w : World P)
      → IsCoherent w
      → IsCoherentBut
          (org_member_cache_key org_id uid)
          (record w { members = keep_if (λ m. not (m.org_id == org_id && m.uid == uid)) w.members })
  delete-IsCoherentBut org_id uid w c = record {
    agrees = λ j e other h.
        carry-Agrees w
          (record w { members = keep_if (λ m. not (m.org_id == org_id && m.uid == uid)) w.members })
          j e.val refl
          (λ o u k m. elim (Bool-cases (o == org_id && u == uid)) [
            | inl same ↦
                let ids : (o ≡ org_id) × (u ≡ uid) = (ground arith, ground arith) in
                absurd (other (k ∙ ap₂ org_member_cache_key ids.0 ids.1))
            | inr _ ↦ is_member-keep_if org_id uid o u w.members ∙ ground arith
          ])
          (c.agrees j e h);
  }

  pub insert-IsCoherent :
      (x : Member) (w : World P) → IsCoherent w → IsCoherent (record w { members = x ∷ w.members })
  insert-IsCoherent x w c = record {
    agrees = λ j e h.
        carry-Agrees w (record w { members = x ∷ w.members }) j e.val refl
          (λ o u _ m. is_member_more x o u w.members m) (c.agrees j e h);
  }

  pub faults-IsCoherent :
      (w : World P) (fs : List Bool) → IsCoherent w → IsCoherent (record w { faults = fs })
  faults-IsCoherent w fs c = shrink-IsCoherent w _ c refl refl (λ k e h. h)

  pub call_result-Outcome :
      (o : Option P) (w : World P)
      → IsCoherent w
      → Outcome (λ _. IsCoherent) IsCoherent (call_result o w).0 (call_result o w).1
  unfolding call_result
  call_result-Outcome none w c = failed c
  call_result-Outcome (some p) w c =
      returned (shrink-IsCoherent w (record w { policy = p }) c refl refl (λ k e h. h))
