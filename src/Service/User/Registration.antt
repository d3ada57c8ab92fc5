-- ===== src/Service/User/Registration.antt =====
-- What AddUserService adds to `users`.
use passport.Base.{ℕ, ◌≡◌, refl, sym, ap, ◌∙◌, subst, Bool, false, [], ◌∷◌, ◌++◌, not, ◌&&◌, exists}
use passport.Text.{Text, text_eq}
use passport.Errors.{Error, Result, ok, err, panic}
use passport.Request.{UserReq, no_user_req, Checks, encry_pwd}
use passport.World.{World, Exec, ◌>>=◌, attempt, require}
use passport.Hoare.{
  Outcome, Triple, returned, failed, Triple-bind, Triple-pure, Triple-raise, Triple-if,
  Triple-require, Triple-attempt, Triple-try, Triple-statement, Triple-query, if-Outcome,
  Triple-relax,
}
use passport.Dao.Account.{user_query, user_page, insert_user, user_insert, is_taken, inserted_user}
use passport.Service.User.{
  user_pre_treat, has_uid, duplicate, duplicate_phone, duplicate_email, duplicate_nickname,
  duplicate_wx_openid, refuse_duplicate, with_nickname, user_check_duplicates, user_inserted,
  add_user_service,
}

-- The request that AddUserService inserts.
abbrev pub registration : Checks → UserReq → UserReq
registration c p =
    let q = with_nickname (user_pre_treat p) in record q { password = encry_pwd c q.password }

module _ {P : Type 0} where
  -- The tenants are as in `w`.
  abbrev pub HasTenantsOf : World P → World P → Type 0
  HasTenantsOf w v =
      (v.tenants ≡ w.tenants) × (v.closure ≡ w.closure) × (v.next_tenant_id ≡ w.next_tenant_id)

  -- The accounts are as in `w`, and so are the tenants.
  abbrev pub HasAccountsOf : World P → World P → Type 0
  HasAccountsOf w v = (v.users ≡ w.users) × (v.next_uid ≡ w.next_uid) × HasTenantsOf w v

  -- One row has been added, with the next id, that clashes with none of the rows in `w`.
  pub record HasAdded (q : UserReq) (w : World P) (uid : ℕ) (v : World P) : Type 0 where
    pub id : uid ≡ w.next_uid
    pub added : v.users ≡ w.users ++ inserted_user uid q ∷ []
    pub is_free : exists (is_taken q) w.users ≡ false
    pub others : HasTenantsOf w v

  duplicate-Triple :
      (w : World P) (p : UserReq) (n : ℕ)
      → Triple (HasAccountsOf w) (duplicate p n) (λ _. HasAccountsOf w) (HasAccountsOf w)
  unfolding duplicate user_query
  duplicate-Triple w p n =
      Triple-bind (λ _. HasAccountsOf w) (attempt (user_query p 1 n)) _
        (Triple-attempt (user_query p 1 n)
          (Triple-query (λ v. user_page p 1 n v.users) (λ v fs h. h) (λ v fs h. h) (λ v h. h)))
        (λ rows. Triple-pure (has_uid rows) (λ v h. h))

  refuse_duplicate-Triple :
      (w : World P) (s : Text) (is_duplicate : Text → Exec P Bool) (e : Error)
      → Triple (HasAccountsOf w) (is_duplicate s) (λ _. HasAccountsOf w) (HasAccountsOf w)
      → Triple
          (HasAccountsOf w)
          (refuse_duplicate s is_duplicate e)
          (λ _. HasAccountsOf w)
          (HasAccountsOf w)
  unfolding refuse_duplicate
  refuse_duplicate-Triple w s is_duplicate e h =
      Triple-if (text_eq s []) _ _ (λ _. Triple-pure tt (λ v k. k))
        (λ _.
          Triple-bind (λ _. HasAccountsOf w) (is_duplicate s) _ h
            (λ has. Triple-require (not has) e (λ v k _. k) (λ v k. k)))

  pub user_check_duplicates-Triple :
      (w : World P) (p : UserReq)
      → Triple
          (HasAccountsOf w)
          (user_check_duplicates p)
          (λ q v. (q ≡ with_nickname p) × HasAccountsOf w v)
          (HasAccountsOf w)
  unfolding user_check_duplicates duplicate_phone duplicate_email duplicate_nickname
      duplicate_wx_openid
  user_check_duplicates-Triple w p =
      Triple-bind (λ _. HasAccountsOf w)
        (refuse_duplicate p.cellphone duplicate_phone Error.phone_dup) _
        (refuse_duplicate-Triple w p.cellphone duplicate_phone Error.phone_dup
          (duplicate-Triple w (record no_user_req { cellphone = p.cellphone }) 1))
        (λ _.
          Triple-bind (λ _. HasAccountsOf w)
            (refuse_duplicate p.email duplicate_email Error.email_dup) _
            (refuse_duplicate-Triple w p.email duplicate_email Error.email_dup
              (duplicate-Triple w (record no_user_req { email = p.email }) 1))
            (λ _.
              Triple-bind (λ _. HasAccountsOf w)
                (refuse_duplicate (with_nickname p).nickname duplicate_nickname Error.nick_dup) _
                (refuse_duplicate-Triple w (with_nickname p).nickname duplicate_nickname
                  Error.nick_dup
                  (duplicate-Triple w (record no_user_req { nickname = (with_nickname p).nickname })
                    100))
                (λ _.
                  Triple-bind (λ _. HasAccountsOf w)
                    (refuse_duplicate p.wx_openid duplicate_wx_openid Error.wx_openid_dup) _
                    (refuse_duplicate-Triple w p.wx_openid duplicate_wx_openid Error.wx_openid_dup
                      (duplicate-Triple w (record no_user_req { wx_openid = p.wx_openid }) 100))
                    (λ _. Triple-pure (with_nickname p) (λ v h. (refl, h))))))

  -- What is left of the INSERT.
  abbrev Inserted : UserReq → World P → Result ℕ → World P → Type 0
  Inserted q w (ok uid) v = HasAdded q w uid v
  Inserted q w (err e) v = v.users ≡ w.users
  Inserted q w panic v = ⊥

  pub insert_user-Triple :
      (q : UserReq) (w : World P)
      → Triple (HasAccountsOf w) (insert_user q) (HasAdded q w) (λ v. Error → v.users ≡ w.users)
  unfolding insert_user
  insert_user-Triple q w = record {
    at = λ v h.
        if-Outcome (exists (is_taken q) v.users) (err Error.duplicate, _) (ok v.next_uid, _)
          (λ _. failed (λ e. h.0))
          (λ no_clash. returned (record {
            id = h.1;
            added = ap (λ us. us ++ inserted_user v.next_uid q ∷ []) h.0;
            is_free = sym (ap (exists (is_taken q)) h.0) ∙ no_clash;
            others = h.2;
          }));
  }

  user_inserted-Triple :
      (q : UserReq) (w : World P) (r : Result ℕ)
      → Triple (Inserted q w r) (user_inserted r) (HasAdded q w) (λ v. v.users ≡ w.users)
  unfolding user_inserted
  user_inserted-Triple q w (ok uid) = Triple-pure uid (λ v h. h)
  user_inserted-Triple q w (err e) = Triple-raise _ (λ v h. h)
  user_inserted-Triple q w panic = record { at = λ v h. absurd h }

  -- The last steps of AddUserService.
  insert_registration : Checks → UserReq → Exec P ℕ
  insert_registration c q = do
    row ← attempt (user_insert (record q { password = encry_pwd c q.password }))
    user_inserted row

  insert_registration-Triple :
      (c : Checks) (p : UserReq) (w : World P)
      → Triple
          (HasAccountsOf w)
          (insert_registration c (with_nickname (user_pre_treat p)))
          (HasAdded (registration c p) w)
          (λ v. v.users ≡ w.users)
  unfolding insert_registration user_insert
  insert_registration-Triple c p w =
      let q = registration c p in
      Triple-bind (Inserted q w) (attempt (user_insert q)) user_inserted
        (Triple-try (user_insert q) (
          Triple-statement (insert_user q) (λ v fs h e. h.0) (λ v fs h. h)
            (Triple-relax (insert_user q) (insert_user-Triple q w) (λ v h e. h e))))
        (user_inserted-Triple q w)

  -- From any state, and whatever statements fail, AddUserService does not panic. If it returns an
  -- id, that is the next id, and `users` has one more row: with the id, the normalised names of the
  -- request (the nickname being the telephone number or the email if it was empty), its tenant, and
  -- the hash of its password; no row had its number, email, nickname or WeChat id before, and the
  -- tenants are as they were. If it returns an error, `users` is as before.
  pub add_user_service-Outcome :
      (c : Checks) (p : UserReq) (w : World P)
      → Outcome
          (HasAdded (registration c p) w)
          (λ v. v.users ≡ w.users)
          (add_user_service c p w).0
          (add_user_service c p w).1
  unfolding add_user_service insert_registration
  add_user_service-Outcome c p w =
      let q = user_pre_treat p in
      (Triple-if {Pre = HasAccountsOf w}
          (text_eq p.cellphone [] && text_eq p.email [] && text_eq p.nickname []) _ _
          (λ _. Triple-raise Error.user_name (λ v h. h.0))
          (λ _.
            Triple-if (text_eq p.password []) _ _ (λ _. Triple-raise Error.pwd_nil (λ v h. h.0))
              (λ _.
                Triple-bind (λ _. HasAccountsOf w) (require (c.is_valid q) Error.param) _
                  (Triple-require (c.is_valid q) Error.param (λ v h _. h) (λ v h. h.0))
                  (λ _.
                    Triple-bind (λ r v. (r ≡ with_nickname q) × HasAccountsOf w v)
                      (user_check_duplicates q) _
                      (Triple-relax (user_check_duplicates q) (user_check_duplicates-Triple w q)
                        (λ v h. h.0))
                      (λ r. record {
                        at = λ v h.
                            subst
                              (λ x.
                                Outcome (HasAdded (registration c p) w) (λ v. v.users ≡ w.users)
                                  (insert_registration c x v).0 (insert_registration c x v).1)
                              (sym h.0) ((insert_registration-Triple c p w).at v h.1);
                      }))))).at
        w (refl, refl, (refl, refl, refl))
