-- ===== src/Service/User/Renaming.antt =====
-- What UpdateUserService changes in an account: also the nickname, unasked.
use passport.Base.{
  ℕ, ◌≡◌, ◌≢◌, inl, inr, refl, sym, ap, ◌∙◌, subst, Bool, true, false, Bool-cases, List, [], ◌∷◌,
  not, ◌&&◌, ◌==◌, if◌then◌else◌, if_true, if_false, arith, exists, length, keep_if, some,
}
use passport.Text.{Text, text_eq, text_eq_iff}
use passport.Errors.{Error, ok, err}
use passport.Protos.{User}
use passport.Request.{UserReq, Checks}
use passport.World.{World, require}
use passport.Hoare.{
  Outcome, Outcome-ok, Triple, returned, failed, Triple-bind, Triple-pure, Triple-raise, Triple-if,
  Triple-require, Triple-statement, Triple-relax, if-Outcome,
}
use passport.Dao.User.{user_by_id}
use passport.Dao.Account.{
  user_update, update_user, updated_user, or_kept, is_update, is_gender, is_taken, update_users,
  change_users,
}
use passport.Service.User.{
  user_pre_treat, or_nickname, with_nickname, user_check_duplicates, update_user_service,
}
use passport.Service.User.Registration.{HasAccountsOf, user_check_duplicates-Triple}

or_kept-none : (s column : Text) → text_eq s [] ≡ true → or_kept s column ≡ column
unfolding or_kept
or_kept-none s column e = rw e refl

-- A request that sets nothing leaves a row as it is.
updated_user-none : (p : UserReq) (u : User) → is_update p ≡ false → updated_user p u ≡ u
unfolding updated_user is_update or_kept
updated_user-none p u e =
    let e1 : text_eq p.cellphone [] ≡ true = ground arith in
    let e2 : text_eq p.email [] ≡ true = ground arith in
    let e3 : text_eq p.nickname [] ≡ true = ground arith in
    let e4 : text_eq p.addr [] ≡ true = ground arith in
    let e5 : is_gender p.gender ≡ false = ground arith in
    let e6 : text_eq p.avatar_url [] ≡ true = ground arith in rw (e1, e2, e3, e4, e5, e6) refl

change_users-none :
    (p : User → Bool) (f : User → User) (us : List User)
    → ((u : User) → f u ≡ u)
    → change_users p f us ≡ us
unfolding change_users
change_users-none p f [] h = refl
change_users-none p f (u ∷ us) h = elim (Bool-cases (p u)) [
  | inl e ↦ rw (e, h u, change_users-none p f us h) refl
  | inr e ↦ rw (e, change_users-none p f us h) refl
]

uid-updated_user : (q : UserReq) (u : User) → (updated_user q u).uid ≡ u.uid
unfolding updated_user
uid-updated_user q u = refl

uid-or_nickname : (s : Text) (p : UserReq) → (or_nickname s p).uid ≡ p.uid
unfolding or_nickname
uid-or_nickname s p = elim (Bool-cases (text_eq p.nickname [])) [
  | inl e ↦ rw e refl
  | inr e ↦ rw e refl
]

uid-with_nickname : (p : UserReq) → (with_nickname (user_pre_treat p)).uid ≡ p.uid
unfolding with_nickname user_pre_treat
uid-with_nickname p =
    let q = user_pre_treat p in
    uid-or_nickname q.email (or_nickname q.cellphone q) ∙ uid-or_nickname q.cellphone q

some-injective : {A : Type 0} (a b : A) → some a ≡ some b → a ≡ b
some-injective a b e = cc e

-- A row that has been changed is found by its id.
user_by_id-change_users :
    (f : User → User) (uid : ℕ) (us : List User) (u : User)
    → ((x : User) → (f x).uid ≡ x.uid)
    → user_by_id uid (change_users (λ x. x.uid == uid) f us) ≡ some u
    → (x : User) × (u ≡ f x)
unfolding user_by_id change_users
user_by_id-change_users f uid [] u same h = absurd (cc h)
user_by_id-change_users f uid (x ∷ us) u same h =
    let rest = change_users (λ x. x.uid == uid) f us in
    elim (Bool-cases (x.uid == uid)) [
      | inl e ↦ (
        x,
        some-injective u (f x) (
            sym h
            ∙ (ap (λ (y : User). if y.uid == uid then some y else user_by_id uid rest)
                  (if_true (f x) x e)
                ∙ if_true _ _ (ap (λ n. n == uid) (same x) ∙ e))),
      )
      | inr e ↦ user_by_id-change_users f uid us u same (
          sym (
            ap (λ (y : User). if y.uid == uid then some y else user_by_id uid rest)
              (if_false (f x) x e)
            ∙ if_false _ _ e)
          ∙ h)
    ]

-- A nickname that is left empty becomes the telephone number.
nickname-updated_user :
    (p : UserReq) (u : User)
    → p.nickname ≡ []
    → p.cellphone ≢ []
    → (updated_user (with_nickname p) u).nickname ≡ p.cellphone
unfolding updated_user with_nickname or_nickname or_kept
nickname-updated_user p u e ne =
    let unnamed : text_eq p.nickname [] ≡ true = (text_eq_iff p.nickname []).1 e in
    let given : text_eq p.cellphone [] ≡ false = ground (arith, text_eq_iff p.cellphone []) in
    rw (unnamed, given, given) refl

module _ {P : Type 0} where
  -- The rows of the request's id have got what it sets.
  abbrev pub HasUpdated : UserReq → World P → World P → Type 0
  HasUpdated q w v = v.users ≡ change_users (λ u. u.uid == q.uid) (updated_user q) w.users

  update_user-Triple :
      (q : UserReq) (w : World P)
      → Triple (HasAccountsOf w) (update_user q) (λ _. HasUpdated q w) (λ v. v.users ≡ w.users)
  unfolding update_user update_users
  update_user-Triple q w = record {
    at = λ v h.
        if-Outcome
          (exists (λ u. u.uid == q.uid) v.users
            && exists (λ u. not (u.uid == q.uid) && is_taken (record q { wx_openid = [] }) u)
                v.users)
          (err Error.duplicate, v) (ok (length (keep_if (λ u. u.uid == q.uid) v.users)), _)
          (λ _. failed h.0)
          (λ _. returned (ap (change_users (λ u. u.uid == q.uid) (updated_user q)) h.0));
  }

  user_update-Triple :
      (q : UserReq) (w : World P)
      → Triple (HasAccountsOf w) (user_update q) (λ _. HasUpdated q w) (λ v. v.users ≡ w.users)
  unfolding user_update
  user_update-Triple q w =
      Triple-if (is_update q) _ _
        (λ _.
          Triple-statement (update_user q) (λ v fs h. h.0) (λ v fs h. h) (update_user-Triple q w))
        (λ nothing. Triple-pure 0 (λ v h.
          h.0
          ∙ sym (
              change_users-none (λ u. u.uid == q.uid) (updated_user q) w.users
                (λ u. updated_user-none q u nothing))))

  -- From any state, and whatever statements fail, UpdateUserService does not panic. If it returns no
  -- error, the rows with the request's id have got what the normalised request sets, with the
  -- telephone number or the email for a nickname that it leaves empty; other rows are as before. If it
  -- returns an error, `users` is as before.
  pub update_user_service-Outcome :
      (c : Checks) (p : UserReq) (w : World P)
      → Outcome
          (λ _. HasUpdated (with_nickname (user_pre_treat p)) w)
          (λ v. v.users ≡ w.users)
          (update_user_service c p w).0
          (update_user_service c p w).1
  unfolding update_user_service
  update_user_service-Outcome c p w =
      let q = user_pre_treat p in
      (Triple-if {Pre = HasAccountsOf w} (p.uid == 0) _ _
          (λ _. Triple-raise Error.other (λ v h. h.0))
          (λ _.
            Triple-bind (λ _. HasAccountsOf w) (require (c.is_valid q) Error.other) _
              (Triple-require (c.is_valid q) Error.other (λ v h _. h) (λ v h. h.0))
              (λ _.
                Triple-bind (λ r v. (r ≡ with_nickname q) × HasAccountsOf w v)
                  (user_check_duplicates q) user_update
                  (Triple-relax (user_check_duplicates q) (user_check_duplicates-Triple w q)
                    (λ v h. h.0))
                  (λ r. record {
                    at = λ v h.
                        subst
                          (λ x.
                            Outcome (λ _. HasUpdated (with_nickname q) w) (λ v. v.users ≡ w.users)
                              (user_update x v).0 (user_update x v).1)
                          (sym h.0) ((user_update-Triple (with_nickname q) w).at v h.1);
                  })))).at
        w (refl, refl, (refl, refl, refl))

  -- If UpdateUserService returns no error for a request with a telephone number and no nickname (both
  -- after normalisation), the user that then has the request's id has the telephone number for a
  -- nickname, whatever nickname it had.
  pub nickname-update_user_service :
      (c : Checks) (p : UserReq) (n : ℕ) (w : World P) (u : User)
      → (update_user_service c p w).0 ≡ ok n
      → (user_pre_treat p).nickname ≡ []
      → (user_pre_treat p).cellphone ≢ []
      → user_by_id p.uid (update_user_service c p w).1.users ≡ some u
      → u.nickname ≡ (user_pre_treat p).cellphone
  nickname-update_user_service c p n w u done no_name phone found =
      let q = with_nickname (user_pre_treat p) in
      let updated = Outcome-ok n (update_user_service-Outcome c p w) done in
      let (x, e) = user_by_id-change_users (updated_user q) p.uid w.users u (uid-updated_user q) (
        ap (user_by_id p.uid) (
          ap (λ i. change_users (λ u. u.uid == i) (updated_user q) w.users)
            (sym (uid-with_nickname p))
          ∙ sym updated)
        ∙ found) in
      ap (λ u. u.nickname) e ∙ nickname-updated_user (user_pre_treat p) x no_name phone
