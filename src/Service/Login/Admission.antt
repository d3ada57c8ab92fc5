-- ===== src/Service/Login/Admission.antt =====
-- Whom UserLogin lets in.
use passport.Base.{◌≡◌, ◌≢◌, false, []}
use passport.Protos.{User}
use passport.Request.{UserReq, Checks, encry_pwd}
use passport.World.{World}
use passport.Service.Login.{LoggedIn, is_disabled}
use passport.Service.Login.Accounts.{IsAccount}

module _ {P : Type 0} where
  -- What is known of a user that has been let in.
  pub record IsAdmitted (c : Checks) (p : UserReq) (w : World P) (r : LoggedIn) : Type 0 where
    pub account : User
    pub is_account : IsAccount p w account
    pub same : r.user.uid ≡ account.uid
    pub enabled : is_disabled account.ext ≡ false
    pub password : p.password ≢ [] → encry_pwd c p.password ≡ account.password
