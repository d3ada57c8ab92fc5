-- ===== src/World.antt =====
-- The state that the services work on, and code that runs on it.
use passport.Base.{
  ℕ, ◌≡◌, ap, sym, ◌∙◌, ◌⊎◌, inl, inr, Bool-cases, Bool, true, false, List, [], ◌∷◌, if◌then◌else◌,
}
use passport.Errors.{Error, Result, ok, err, panic}
use passport.Text.{Text}
use passport.Protos.{Tenant, Organization, Member, Department, User, PermissionStruct}
use passport.Closure.{Table}
use passport.Cache.{ExpiredMap}

-- A value of defaultCache (cache/cache.go), of type `any` in the source.
pub data Cached : Type 0 where
  tenant : Tenant → Cached
  org : Organization → Cached
  member : Bool → Cached

-- `P` is the state of the libraries: the access control and the sender of messages.
pub record World (P : Type 0) : Type 0 where
  pub root_tenant_id : ℕ
  pub tenants : List Tenant
  pub next_tenant_id : ℕ
  pub users : List User
  pub next_uid : ℕ
  pub orgs : List Organization
  pub next_org_id : ℕ
  pub members : List Member
  pub departments : List Department
  pub next_department_id : ℕ
  pub permissions : List PermissionStruct
  pub next_permission_id : ℕ
  pub closure : Table
  pub cache : ExpiredMap Cached
  -- deparmentCache of service/service.go
  pub department_cache : ExpiredMap Department
  -- loginUserCache of face/core/api_context.go: users by id, with the time they were last seen
  pub login_users : List (User × ℕ)
  -- defaultSms of sms/sms.go is not nil
  pub has_sms : Bool
  -- codeCache of sms/sms.go
  pub codes : ExpiredMap Text
  pub now : ℕ
  pub policy : P
  -- Where a user comes in the rows of a page of a query without an ORDER BY, by the page's number
  -- and the user's id: the database may choose another order for every page.
  pub row_order : ℕ → ℕ → ℕ
  -- Which of the coming database statements fail; none does after the end of the list.
  pub faults : List Bool

abbrev pub Exec : Type 0 → Type 0 → Type 0
Exec P A = World P → Result A × World P

-- `if err != nil { return common.ErrX }`
abbrev pub relabel : {A : Type 0} → Error → Result A → Result A
relabel e (ok a) = ok a
relabel e (err _) = err e
relabel e panic = panic

abbrev pub as_value : {A : Type 0} → Result A → Result (Result A)
as_value (ok a) = ok (ok a)
as_value (err e) = ok (err e)
as_value panic = panic

-- Whether the next statement fails.
next_fault : List Bool → Bool × List Bool
next_fault [] = (false, [])
next_fault (b ∷ bs) = (b, bs)

module _ {P A : Type 0} where
  abbrev pub pure : A → Exec P A
  pure a w = (ok a, w)

  abbrev pub raise : Error → Exec P A
  raise e w = (err e, w)

  abbrev pub gets : (World P → A) → Exec P A
  gets f w = (ok (f w), w)

  -- The result of an action as a value, so that the caller may look at the error.
  abbrev pub attempt : Exec P A → Exec P (Result A)
  attempt m w = let (r, w') = m w in (as_value r, w')

  abbrev pub or_error : Exec P A → Error → Exec P A
  or_error m e w = let (r, w') = m w in (relabel e r, w')

module _ {P A B : Type 0} where
  abbrev pub continue : Result A → (A → Exec P B) → Exec P B
  continue (ok a) f w = f a w
  continue (err e) f w = (err e, w)
  continue panic f w = (panic, w)

  infixl 5 ◌>>=◌ ◌>>◌
  abbrev pub ◌>>=◌ : Exec P A → (A → Exec P B) → Exec P B
  ◌>>=◌ m f w = let (r, w') = m w in continue r f w'

  abbrev pub ◌>>◌ : Exec P A → Exec P B → Exec P B
  m >> k = m >>= λ _. k

module _ {P : Type 0} where
  -- A database statement: it fails and leaves the state, or does `m`.
  unfoldable pub statement : {A : Type 0} → Exec P A → Exec P A
  unfolding next_fault
  statement m w =
      let (failed, rest) = next_fault w.faults in
      let w' = record w { faults = rest } in if failed then (err Error.db, w') else m w'

  pub statement-cases :
      {A : Type 0} (m : Exec P A) (w : World P)
      → ((fs : List Bool) × (statement m w ≡ (err Error.db, record w { faults = fs })))
        ⊎ ((fs : List Bool) × (statement m w ≡ m (record w { faults = fs })))
  unfolding statement
  statement-cases m w = elim (Bool-cases (next_fault w.faults).0) [
    | inl failed ↦ inl ((next_fault w.faults).1, rw failed)
    | inr works ↦ inr ((next_fault w.faults).1, rw works)
  ]

  -- The statement works if none is to fail.
  pub statement-calm :
      {A : Type 0} (m : Exec P A) (w : World P) → w.faults ≡ [] → statement m w ≡ m w
  unfolding statement next_fault
  statement-calm m w calm =
      ap
        (λ fs.
          if (next_fault fs).0
          then (err Error.db, record w { faults = (next_fault fs).1 })
          else m (record w { faults = (next_fault fs).1 }))
        calm
      ∙ ap (λ fs. m (record w { faults = fs })) (sym calm)

  -- A SELECT.
  unfoldable pub query : {A : Type 0} → (World P → A) → Exec P A
  unfolding statement
  query f = statement (λ w. (ok (f w), w))

  -- A statement that writes and whose result is not used.
  unfoldable pub exec : (World P → World P) → Exec P (Unit {0})
  unfolding statement
  exec f = statement (λ w. (ok tt, f w))

  abbrev pub when : Bool → Exec P (Unit {0}) → Exec P (Unit {0})
  when true m = m
  when false m = pure tt

  -- `if !test { return err }`
  abbrev pub require : Bool → Error → Exec P (Unit {0})
  require true e = pure tt
  require false e = raise e
