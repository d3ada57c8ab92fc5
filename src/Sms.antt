-- ===== src/Sms.antt =====
-- sms/sms.go: codes sent by message, one for a telephone number at a time. The driver that sends is
-- a library or a service: its calls are a parameter.
pub mod Codes
pub mod Answers
use passport.Base.{
  not, ℕ, ◌+◌, Bool, true, false, Option, none, some, List, [], ◌∷◌, ◌==◌, if◌then◌else◌,
}
use passport.Text.{Text, text_eq}
use passport.Errors.{Error, ok, err}
use passport.World.{World, Exec}
use passport.Cache.{get, ttl, set}

-- The interface Sms: what a call returns (the code, and whether it reports an error) and what it
-- does to the libraries' state. The second argument is the time to live.
pub record SmsDriver (P : Type 0) : Type 0 where
  pub send_user_add_sms : Text → ℕ → P → (Text × Bool) × P
  pub send_user_login_sms : Text → ℕ → P → (Text × Bool) × P
  pub send_get_back_pwd_sms : Text → ℕ → P → (Text × Bool) × P
  pub send_wx_bind_sms : Text → ℕ → P → (Text × Bool) × P

-- What a code is sent for.
pub data Purpose : Type 0 where
  add login get_back_pwd wx_bind : Purpose

-- A time to live of 0 stands for 60 seconds.
unfoldable pub alive_or_default : ℕ → ℕ
alive_or_default alive = if alive == 0 then 60 else alive

unfoldable pub is_code : Text → Option Text → Bool
is_code code none = false
is_code code (some sent) = text_eq code sent

module _ {P : Type 0} where
  -- CheckSmsCode
  unfoldable pub check_sms_code : Text → Text → Exec P (Unit {0})
  unfolding get is_code
  check_sms_code phone code w =
      if w.has_sms
      then (let (found, m) = get w.now phone w.codes in
          let w' = record w { codes = m } in
          if is_code code found then (ok tt, w') else (err Error.sms_check, w'))
      else (err Error.sms_not_init, w)

  -- codeCache.Set(phoneNumber, code, time.Now().Unix()+aliveSecond)
  unfoldable pub keep_code : Text → Text → ℕ → World P → World P
  unfolding set
  keep_code phone code alive w = record w { codes = set w.now phone code (w.now + alive) w.codes }

  -- What a call of the driver leaves. `keeps` tells from whether the driver failed whether the
  -- code is kept.
  unfoldable pub deliver : (Bool → Bool) → Text → ℕ → (Text × Bool) × P → Exec P Text
  unfolding keep_code
  deliver keeps phone alive ((code, failed), p) w =
      let w' = record w { policy = p } in
      (
        if failed then err Error.other else ok code,
        if keeps failed then keep_code phone code alive w' else w',
      )

  -- A code that has not expired yet keeps another one from being sent.
  unfoldable pub deliver_unless_left :
      (Bool → Bool) → (Text → ℕ → P → (Text × Bool) × P) → Text → ℕ → Option ℕ → Exec P Text
  unfolding deliver
  deliver_unless_left keeps driver phone alive (some left) w = (err Error.sms_exist, w)
  deliver_unless_left keeps driver phone alive none w =
      deliver keeps phone alive (driver phone alive w.policy) w

  -- The time to live is an int64 of the source; SmsReq admits 0 to 100 for it.
  unfoldable pub send_by :
      (Bool → Bool) → (Text → ℕ → P → (Text × Bool) × P) → Text → ℕ → Exec P Text
  unfolding ttl alive_or_default deliver_unless_left
  send_by keeps driver phone alive w =
      if w.has_sms
      then (let (left, m) = ttl w.now phone w.codes in
          deliver_unless_left keeps driver phone (alive_or_default alive) left
            (record w { codes = m }))
      else (err Error.sms_not_init, w)

  module _ (d : SmsDriver P) where
    -- SendUserAddSms: the code is kept also if it could not be sent
    unfoldable pub send_user_add_sms : Text → ℕ → Exec P Text
    unfolding send_by
    send_user_add_sms = send_by (λ failed. true) d.send_user_add_sms

    -- SendUserLoginSms; the source sends the message for a new user
    unfoldable pub send_user_login_sms : Text → ℕ → Exec P Text
    unfolding send_by
    send_user_login_sms = send_by not d.send_user_add_sms

    -- SendGetBackPwdSms
    unfoldable pub send_get_back_pwd_sms : Text → ℕ → Exec P Text
    unfolding send_by
    send_get_back_pwd_sms = send_by not d.send_get_back_pwd_sms

    -- SendWxBindSms
    unfoldable pub send_wx_bind_sms : Text → ℕ → Exec P Text
    unfolding send_by
    send_wx_bind_sms = send_by not d.send_wx_bind_sms

    -- The send for each purpose.
    unfoldable pub send_sms : Purpose → Text → ℕ → Exec P Text
    unfolding send_user_add_sms send_user_login_sms send_get_back_pwd_sms send_wx_bind_sms
    send_sms add = send_user_add_sms
    send_sms login = send_user_login_sms
    send_sms get_back_pwd = send_get_back_pwd_sms
    send_sms wx_bind = send_wx_bind_sms
