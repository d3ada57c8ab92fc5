-- ===== src/Service/Login/Accounts.antt =====
-- The account that UserLogin finds for a request.
use passport.Base.{
  ◌≡◌, ◌≢◌, ◌⊎◌, inl, inr, refl, sym, ap, ap₂, ◌∙◌, subst, Bool, true, false, Option, none, some,
  [], not, ◌&&◌, ◌||◌, arith, exists,
}
use passport.Text.{text_eq, text_eq_iff}
use passport.Errors.{Error, Result, ok, err}
use passport.Protos.{User}
use passport.Request.{UserReq}
use passport.World.{World, pure, ◌>>=◌, attempt, as_value}
use passport.Cache.{get}
use passport.Hoare.{
  Outcome, Triple, returned, failed, Triple-bind, Triple-pure, Triple-if, Triple-statement,
  Triple-query, weaken-Outcome, Triple-try, if-Outcome,
}
use passport.Sms.{check_sms_code}
use passport.Sms.Answers.{Checked, not_init, accepted, refused, check_sms_code-Checked}
use passport.Dao.Account.{
  user_query_one, first_user, matches_user, insert_user, user_insert, is_taken,
}
use passport.Service.Login.{
  is_refused, registered_user, looked_up, registered, or_register, look_up, login_by_sms_code,
  find_account,
}

pub some-injective : {A : Type 0} (a b : A) → some a ≡ some b → a ≡ b
some-injective a b e = cc e

no_code_given :
    {A : Type 0} (p : UserReq)
    → (not (text_eq p.cellphone []) && not (text_eq p.sms_code [])) ≡ false
    → p.cellphone ≢ []
    → p.sms_code ≢ []
    → A
no_code_given p h ne ne' =
    absurd (ground (arith, text_eq_iff p.cellphone [], text_eq_iff p.sms_code []))

module _ {P : Type 0} where
  -- The telephone number has been proved by a code, or there is no driver for messages.
  abbrev pub IsOwner : UserReq → World P → Type 0
  IsOwner p w = ((get w.now p.cellphone w.codes).0 ≡ some p.sms_code) ⊎ (w.has_sms ≡ false)

  -- The account that a login is for: a row of the table, or one registered by a code.
  pub data IsAccount (p : UserReq) (w : World P) (u : User) : Type 0 where
    by_row :
        first_user (matches_user p) w.users ≡ some u
        → (p.cellphone ≢ [] → p.sms_code ≢ [] → IsOwner p w)
        → IsAccount p w u
    by_registration : IsOwner p w → u.password ≡ [] → IsAccount p w u

  -- What a lookup reads is as in `w`.
  abbrev pub AsBefore : World P → World P → Type 0
  AsBefore w v =
      (v.users ≡ w.users) × (v.codes ≡ w.codes) × (v.now ≡ w.now) × (v.has_sms ≡ w.has_sms)

  abbrev pub Any : World P → Type 0
  Any w = Unit

  abbrev pub FindsAccount : UserReq → World P → Option User × Bool → World P → Type 0
  FindsAccount p w r v = (u : User) → r.0 ≡ some u → IsAccount p w u

  Checked-Outcome :
      (p : UserReq) (w v : World P) (x : Result (Unit {0}) × World P)
      → AsBefore w v
      → Checked p.cellphone p.sms_code v x
      → Outcome
          (λ r u. (u.users ≡ w.users) × (is_refused r ≡ false → IsOwner p w))
          Any
          (as_value x.0)
          x.1
  unfolding is_refused
  Checked-Outcome p w v x h (not_init off) = returned (h.0, λ _. inr (sym h.3 ∙ off))
  Checked-Outcome p w v x h (accepted m found) =
      returned (h.0, λ _. inl (sym (ap₂ (λ n m. (get n p.cellphone m).0) h.2 h.1) ∙ found))
  Checked-Outcome p w v x h (refused m) = returned (h.0, λ e. absurd (cc e))

  check_sms_code-Triple :
      (p : UserReq) (w : World P)
      → Triple
          (AsBefore w)
          (attempt (check_sms_code p.cellphone p.sms_code))
          (λ r v. (v.users ≡ w.users) × (is_refused r ≡ false → IsOwner p w))
          Any
  check_sms_code-Triple p w = record {
    at = λ v h.
        Checked-Outcome p w v (check_sms_code p.cellphone p.sms_code v) h
          (check_sms_code-Checked p.cellphone p.sms_code v);
  }

  -- A query for the account fails, or finds the row.
  look_up-Triple :
      (p : UserReq) (w : World P)
      → Triple
          (λ v. v.users ≡ w.users)
          (look_up p)
          (λ r v. (u : User) → r.0 ≡ some u → first_user (matches_user p) w.users ≡ some u)
          Any
  unfolding look_up user_query_one looked_up
  look_up-Triple p w =
      Triple-bind
        (λ r v.
          (u : User) → (looked_up r).0 ≡ some u → first_user (matches_user p) w.users ≡ some u)
        (attempt (user_query_one p)) _
        (Triple-try (user_query_one p) (
          Triple-query (λ v. first_user (matches_user p) v.users) (λ v fs h e u k. absurd (cc k))
            (λ v fs h. h) (λ v h u k. sym (ap (first_user (matches_user p)) h) ∙ k)))
        (λ r. Triple-pure (looked_up r) (λ v h. h))

  -- A registration leaves the user that it makes up.
  insert_user-Triple :
      (p : UserReq) (w : World P) (bad : Bool)
      → IsOwner p w
      → Triple Any
          (insert_user p)
          (λ n v. (u : User) → (registered p.cellphone bad (ok n)).0 ≡ some u → IsAccount p w u)
          (λ v.
            (e : Error) (u : User)
            → (registered p.cellphone bad (err e)).0 ≡ some u
            → IsAccount p w u)
  unfolding insert_user registered registered_user
  insert_user-Triple p w bad own = record {
    at = λ v h.
        if-Outcome (exists (is_taken p) v.users) (err Error.duplicate, _) (ok v.next_uid, _)
          (λ _. failed (λ e u k. absurd (cc k)))
          (λ _. returned (λ u k.
            by_registration own (subst (λ x. x.password ≡ []) (some-injective _ u k) refl)));
  }

  register-Triple :
      (p : UserReq) (w : World P) (bad : Bool)
      → IsOwner p w
      → Triple Any
          (do row ← attempt (user_insert p); pure (registered p.cellphone bad row))
          (FindsAccount p w)
          Any
  unfolding user_insert registered
  register-Triple p w bad own =
      Triple-bind (λ r v. (u : User) → (registered p.cellphone bad r).0 ≡ some u → IsAccount p w u)
        (attempt (user_insert p)) _
        (Triple-try (user_insert p) (
          Triple-statement (insert_user p) (λ v fs h e u k. absurd (cc k)) (λ v fs h. h)
            (insert_user-Triple p w bad own)))
        (λ r. Triple-pure (registered p.cellphone bad r) (λ v h. h))

  or_register-Triple :
      (p : UserReq) (w : World P) (r : Option User × Bool)
      → IsOwner p w
      → Triple
          (λ v. (u : User) → r.0 ≡ some u → first_user (matches_user p) w.users ≡ some u)
          (or_register p r)
          (FindsAccount p w)
          Any
  unfolding or_register
  or_register-Triple p w (some u, bad) own =
      Triple-pure (some u, bad) (λ v h x k. by_row (h x k) (λ _ _. own))
  or_register-Triple p w (none, bad) own = record {
    at = λ v h. (register-Triple p w bad own).at v tt;
  }

  login_by_sms_code-Triple :
      (p : UserReq) (w : World P) → Triple (AsBefore w) (login_by_sms_code p) (FindsAccount p w) Any
  unfolding login_by_sms_code
  login_by_sms_code-Triple p w =
      Triple-if (text_eq p.cellphone [] || text_eq p.sms_code []) _ _
        (λ _. Triple-pure (none, true) (λ v h u k. absurd (cc k)))
        (λ _.
          Triple-bind (λ r v. (v.users ≡ w.users) × (is_refused r ≡ false → IsOwner p w))
            (attempt (check_sms_code p.cellphone p.sms_code)) _ (check_sms_code-Triple p w)
            (λ r. record {
              at = λ v h.
                  ((Triple-if (is_refused r) _ _
                      (λ _. Triple-pure (none, true) (λ v h u k. absurd (cc k)))
                      (λ good.
                        Triple-bind
                          (λ r v.
                            (u : User)
                            → r.0 ≡ some u
                            → first_user (matches_user p) w.users ≡ some u)
                          (look_up p) (or_register p) (look_up-Triple p w)
                          (λ r. or_register-Triple p w r (h.1 good))))).at
                    v h.0;
            }))

  pub find_account-Triple :
      (p : UserReq) (w : World P) → Triple (AsBefore w) (find_account p) (FindsAccount p w) Any
  unfolding find_account
  find_account-Triple p w =
      Triple-if (not (text_eq p.cellphone []) && not (text_eq p.sms_code [])) _ _
        (λ _. login_by_sms_code-Triple p w)
        (λ no_code.
          Triple-if
            (not (text_eq p.cellphone [])
              || not (text_eq p.nickname [])
              || not (text_eq p.email []))
            _ _
            (λ _. record {
              at = λ v h.
                  weaken-Outcome (λ r x k u e. by_row (k u e) (no_code_given p no_code))
                    ((look_up-Triple p w).at v h.0);
            })
            (λ _. Triple-pure (none, false) (λ v h u k. absurd (cc k))))
