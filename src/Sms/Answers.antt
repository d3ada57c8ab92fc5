-- ===== src/Sms/Answers.antt =====
-- The answers of CheckSmsCode.
use passport.Base.{
  ◌≡◌, inl, inr, sym, ap, subst, true, false, Bool-cases, Option, none, some, if_true, if_false,
}
use passport.Text.{Text, text_eq_iff}
use passport.Errors.{Error, Result, ok, err}
use passport.World.{World}
use passport.Cache.{ExpiredMap, get}
use passport.Sms.{is_code, check_sms_code}

is_code-some : (code : Text) (found : Option Text) → is_code code found ≡ true → found ≡ some code
unfolding is_code
is_code-some code none e = absurd (cc e)
is_code-some code (some sent) e = ap some (sym ((text_eq_iff code sent).0 e))

module _ {P : Type 0} where
  -- The three answers of CheckSmsCode: without a driver, for the code that is kept, and for another.
  pub data Checked (phone code : Text) (w : World P) : Result (Unit {0}) × World P → Type 0 where
    not_init : w.has_sms ≡ false → Checked phone code w (err Error.sms_not_init, w)
    accepted :
        (m : ExpiredMap Text)
        → (get w.now phone w.codes).0 ≡ some code
        → Checked phone code w (ok tt, record w { codes = m })
    refused :
        (m : ExpiredMap Text) → Checked phone code w (err Error.sms_check, record w { codes = m })

  pub check_sms_code-Checked :
      (phone code : Text) (w : World P) → Checked phone code w (check_sms_code phone code w)
  unfolding check_sms_code
  check_sms_code-Checked phone code w = elim (Bool-cases w.has_sms) [
    | inr off ↦ subst (Checked phone code w) (sym (if_false _ _ off)) (not_init off)
    | inl on ↦
        subst (Checked phone code w) (sym (if_true _ _ on))
          (elim (Bool-cases (is_code code (get w.now phone w.codes).0)) [
            | inl good ↦
                subst (Checked phone code w) (sym (if_true _ _ good))
                  (accepted (get w.now phone w.codes).1 (is_code-some code _ good))
            | inr bad ↦
                subst (Checked phone code w) (sym (if_false _ _ bad))
                  (refused (get w.now phone w.codes).1)
          ])
  ]
