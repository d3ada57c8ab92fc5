-- ===== src/Sms/Codes.antt =====
-- What the codes of sms/sms.go are good for.
use passport.Base.{
  ℕ, ◌+◌, ◌-◌, sym, ◌<◌, ◌≤◌, ◌≡◌, refl, ap, inl, inr, Bool, true, false, Bool-cases, if_true,
  if_false, ◌∙◌, subst, Option, none, some, not, ◌&&◌, ltb, arith,
}
use passport.Text.{Text, text_eq, text_eq_refl}
use passport.Errors.{Error, Result, ok, err}
use passport.World.{World}
use passport.Cache.{Entry, ExpiredMap, lookup, get, ttl, set, expiry}
use passport.Cache.Laws.{lookup-put}
use passport.Sms.{
  SmsDriver, Purpose, add, login, get_back_pwd, wx_bind, alive_or_default, is_code, check_sms_code,
  keep_code, deliver, deliver_unless_left, send_by, send_sms, send_user_add_sms,
  send_user_login_sms, send_get_back_pwd_sms, send_wx_bind_sms,
}

-- The entry of a code that expires at a time.
abbrev code_until : Text → ℕ → Entry Text
code_until code t = record { val = code; expired_at = t }

-- What CheckSmsCode returns while a code is kept.
abbrev pub verdict : Bool → Result (Unit {0})
verdict true = ok tt
verdict false = err Error.sms_check

alive_or_default_positive : (alive : ℕ) → 0 < alive_or_default alive
unfolding alive_or_default
alive_or_default_positive alive = ground arith

ok-injective : {A : Type 0} (a b : A) → ok a ≡ ok b → a ≡ b
ok-injective a b e = cc e

ttl-lookup :
    (phone code : Text) (t now : ℕ) (m : ExpiredMap Text)
    → lookup phone m ≡ some (code_until code t)
    → now ≤ t
    → ttl now phone m ≡ (some (t - now), m)
unfolding ttl
ttl-lookup phone code t now m e le = ground (arith, e)

ttl-none :
    (phone : Text) (now : ℕ) (m : ExpiredMap Text)
    → lookup phone m ≡ none
    → ttl now phone m ≡ (none, m)
unfolding ttl
ttl-none phone now m e = ground (arith, e)

module _ {P : Type 0} where
  -- A driver is there, and the code of a telephone number is good until a time.
  abbrev pub IsKept : Text → Text → ℕ → World P → Type 0
  IsKept phone code t w = (w.has_sms ≡ true) × (lookup phone w.codes ≡ some (code_until code t))

  keep_code-IsKept :
      (phone code : Text) (alive : ℕ) (w : World P)
      → w.has_sms ≡ true
      → 0 < alive
      → IsKept phone code (w.now + alive) (keep_code phone code alive w)
  unfolding keep_code set expiry
  keep_code-IsKept phone code alive w h pos = (
    h,
    ground (
      arith,
      lookup-put phone phone (code_until code (w.now + alive)) w.codes,
      text_eq_refl phone,
    ),
  )

  check_sms_code-IsKept :
      (phone code given : Text) (t : ℕ) (w : World P)
      → IsKept phone code t w
      → (check_sms_code phone given w).0 ≡ verdict (text_eq given code && ltb w.now t)
  unfolding check_sms_code get is_code
  check_sms_code-IsKept phone code given t w k = ground (arith, k.0, k.1)

  -- A send from a state whose time to live of the code has been read.
  send_by-ttl :
      (keeps : Bool → Bool) (driver : Text → ℕ → P → (Text × Bool) × P) (phone : Text) (alive : ℕ)
      (left : Option ℕ) (m : ExpiredMap Text) (w : World P)
      → w.has_sms ≡ true
      → ttl w.now phone w.codes ≡ (left, m)
      → send_by keeps driver phone alive w
        ≡ deliver_unless_left keeps driver phone
            (alive_or_default alive)
            left
            (record w { codes = m })
  unfolding send_by
  send_by-ttl keeps driver phone alive left m w on e =
      if_true _ _ on
      ∙ ap
          (λ r.
            deliver_unless_left keeps driver phone (alive_or_default alive) r.0
              (record w { codes = r.1 }))
          e

  -- The number has a code that the clock has not passed: nothing is sent, and nothing changes.
  send_by_blocked :
      (keeps : Bool → Bool) (driver : Text → ℕ → P → (Text × Bool) × P) (phone code : Text)
      (alive t : ℕ) (w : World P)
      → IsKept phone code t w
      → w.now ≤ t
      → send_by keeps driver phone alive w ≡ (err Error.sms_exist, w)
  unfolding deliver_unless_left
  send_by_blocked keeps driver phone code alive t w k le =
      send_by-ttl keeps driver phone alive (some (t - w.now)) w.codes w k.0
        (ttl-lookup phone code t w.now w.codes k.1 le)

  deliver-IsKept :
      (keeps : Bool → Bool) (phone code : Text) (alive : ℕ) (r : (Text × Bool) × P) (w : World P)
      → keeps false ≡ true
      → w.has_sms ≡ true
      → 0 < alive
      → (deliver keeps phone alive r w).0 ≡ ok code
      → IsKept phone code (w.now + alive) (deliver keeps phone alive r w).1
  unfolding deliver
  deliver-IsKept keeps phone code alive ((c, true), p) w k h pos e = absurd (cc e)
  deliver-IsKept keeps phone code alive ((c, false), p) w k h pos e =
      rw (k, sym (ok-injective c code e))
        (keep_code-IsKept phone c alive (record w { policy = p }) h pos)

  deliver_unless_left-IsKept :
      (keeps : Bool → Bool) (driver : Text → ℕ → P → (Text × Bool) × P) (phone code : Text)
      (alive : ℕ) (left : Option ℕ) (w : World P)
      → keeps false ≡ true
      → w.has_sms ≡ true
      → 0 < alive
      → (deliver_unless_left keeps driver phone alive left w).0 ≡ ok code
      → IsKept phone code (w.now + alive) (deliver_unless_left keeps driver phone alive left w).1
  unfolding deliver_unless_left
  deliver_unless_left-IsKept keeps driver phone code alive (some left) w k h pos e = absurd (cc e)
  deliver_unless_left-IsKept keeps driver phone code alive none w k h pos e =
      deliver-IsKept keeps phone code alive (driver phone alive w.policy) w k h pos e

  send_by-IsKept :
      (keeps : Bool → Bool) (driver : Text → ℕ → P → (Text × Bool) × P) (phone code : Text)
      (alive : ℕ) (w : World P)
      → keeps false ≡ true
      → (send_by keeps driver phone alive w).0 ≡ ok code
      → IsKept phone code (w.now + alive_or_default alive) (send_by keeps driver phone alive w).1
  unfolding send_by
  send_by-IsKept keeps driver phone code alive w k = elim (Bool-cases w.has_sms) [
    | inl on ↦
        subst
          (λ (r : Result Text × World P).
            r.0 ≡ ok code → IsKept phone code (w.now + alive_or_default alive) r.1)
          (sym (if_true _ _ on))
          (deliver_unless_left-IsKept keeps driver phone code (alive_or_default alive)
            (ttl w.now phone w.codes).0 (record w { codes = (ttl w.now phone w.codes).1 }) k on
            (alive_or_default_positive alive))
    | inr off ↦
        subst
          (λ (r : Result Text × World P).
            r.0 ≡ ok code → IsKept phone code (w.now + alive_or_default alive) r.1)
          (sym (if_false _ _ off)) (λ e. absurd (cc e))
  ]

  send_sms-IsKept :
      (d : SmsDriver P) (purpose : Purpose) (phone code : Text) (alive : ℕ) (w : World P)
      → (send_sms d purpose phone alive w).0 ≡ ok code
      → IsKept phone code (w.now + alive_or_default alive) (send_sms d purpose phone alive w).1
  unfolding send_sms
  send_sms-IsKept d add phone code alive w =
      send_by-IsKept (λ failed. true) d.send_user_add_sms phone code alive w refl
  send_sms-IsKept d login phone code alive w =
      send_by-IsKept not d.send_user_add_sms phone code alive w refl
  send_sms-IsKept d get_back_pwd phone code alive w =
      send_by-IsKept not d.send_get_back_pwd_sms phone code alive w refl
  send_sms-IsKept d wx_bind phone code alive w =
      send_by-IsKept not d.send_wx_bind_sms phone code alive w refl

  -- If a send for any purpose has returned a code, with any driver and from any state, CheckSmsCode
  -- accepts for that telephone number that code and no other, at any time before the time to live
  -- has passed (60 seconds if it was given as 0) and at no time from then on.
  pub check_sms_code-send_sms :
      (d : SmsDriver P) (purpose : Purpose) (phone code given : Text) (alive later : ℕ)
      (w : World P)
      → (send_sms d purpose phone alive w).0 ≡ ok code
      → (check_sms_code phone given (record (send_sms d purpose phone alive w).1 { now = later })).0
        ≡ verdict (text_eq given code && ltb later (w.now + alive_or_default alive))
  check_sms_code-send_sms d purpose phone code given alive later w e =
      check_sms_code-IsKept phone code given (w.now + alive_or_default alive)
        (record (send_sms d purpose phone alive w).1 { now = later })
        (send_sms-IsKept d purpose phone code alive w e)

  send_sms_blocked :
      (d : SmsDriver P) (purpose : Purpose) (phone code : Text) (alive t : ℕ) (w : World P)
      → IsKept phone code t w
      → w.now ≤ t
      → send_sms d purpose phone alive w ≡ (err Error.sms_exist, w)
  unfolding send_sms send_user_add_sms send_user_login_sms send_get_back_pwd_sms send_wx_bind_sms
  send_sms_blocked d add phone = send_by_blocked (λ failed. true) d.send_user_add_sms phone
  send_sms_blocked d login phone = send_by_blocked not d.send_user_add_sms phone
  send_sms_blocked d get_back_pwd phone = send_by_blocked not d.send_get_back_pwd_sms phone
  send_sms_blocked d wx_bind phone = send_by_blocked not d.send_wx_bind_sms phone

  -- Once a send for any purpose has returned a code, a send to that telephone number for any
  -- purpose, at any time until the time to live has passed, returns ErrSmsExist, does not call the
  -- driver, and changes nothing.
  pub send_sms-send_sms :
      (d : SmsDriver P) (purpose again : Purpose) (phone code : Text) (alive more later : ℕ)
      (w : World P)
      → (send_sms d purpose phone alive w).0 ≡ ok code
      → later ≤ w.now + alive_or_default alive
      → send_sms d again phone more (record (send_sms d purpose phone alive w).1 { now = later })
        ≡ (err Error.sms_exist, record (send_sms d purpose phone alive w).1 { now = later })
  send_sms-send_sms d purpose again phone code alive more later w e le =
      send_sms_blocked d again phone code more (w.now + alive_or_default alive)
        (record (send_sms d purpose phone alive w).1 { now = later })
        (send_sms-IsKept d purpose phone code alive w e) le

  -- If a driver is there, a number has no code, and the driver reports an error for the message to
  -- it, SendUserAddSms returns an error, and the code that came with the error is accepted by
  -- CheckSmsCode for that number.
  pub check_sms_code-send_user_add_sms :
      (d : SmsDriver P) (phone code : Text) (alive : ℕ) (p : P) (w : World P)
      → w.has_sms ≡ true
      → lookup phone w.codes ≡ none
      → d.send_user_add_sms phone (alive_or_default alive) w.policy ≡ ((code, true), p)
      → ((send_user_add_sms d phone alive w).0 ≡ err Error.other)
        × ((check_sms_code phone code (send_user_add_sms d phone alive w).1).0 ≡ ok tt)
  unfolding send_user_add_sms deliver_unless_left deliver
  check_sms_code-send_user_add_sms d phone code alive p w on free fails =
      subst (λ r. (r.0 ≡ err Error.other) × ((check_sms_code phone code r.1).0 ≡ ok tt))
        (sym (
          send_by-ttl (λ failed. true) d.send_user_add_sms phone alive none w.codes w on
            (ttl-none phone w.now w.codes free)
          ∙ ap (λ r. deliver (λ failed. true) phone (alive_or_default alive) r w) fails))
        (
          refl,
          ground (
            arith,
            text_eq_refl code,
            alive_or_default_positive alive,
            check_sms_code-IsKept phone code code (w.now + alive_or_default alive)
                (keep_code phone code (alive_or_default alive) (record w { policy = p }))
                (keep_code-IsKept phone code (alive_or_default alive) (record w { policy = p }) on
                  (alive_or_default_positive alive)),
          ),
        )
