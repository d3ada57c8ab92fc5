-- ===== src/Dao/Account.antt =====
-- dao/user.dao.go: the statements on `users` that registration, login and changes of an account
-- make. Its columns nickname, cellphone, email and wx_openid are unique.
use passport.Base.{
  ℕ, ◌+◌, ◌-◌, ◌*◌, Bool, Option, none, some, List, [], ◌∷◌, ◌++◌, not, ◌&&◌, ◌||◌, ltb, ◌==◌,
  if◌then◌else◌, keep_if, exists, length, take, drop,
}
use passport.Text.{Text, text_eq}
use passport.Errors.{Error, ok, err}
use passport.Protos.{User}
use passport.Request.{UserReq}
use passport.World.{Exec, pure, query, statement}

abbrev is_empty : Text → Bool
is_empty s = text_eq s []

-- `if v != "" { eq[column] = v }`
unfoldable pub matches_text : Text → Text → Bool
matches_text s column = is_empty s || text_eq column s

-- The WHERE clause of UserQueryOne and UserQuery.
unfoldable pub matches_user : UserReq → User → Bool
unfolding matches_text
matches_user p u =
    (not (ltb 0 p.uid) || u.uid == p.uid)
    && (matches_text p.cellphone u.cellphone
        && (matches_text p.email u.email
            && (matches_text p.nickname u.nickname && matches_text p.wx_openid u.wx_openid)))

-- The first row that passes a test.
unfoldable pub first_user : (User → Bool) → List User → Option User
first_user p [] = none
first_user p (u ∷ us) = let rest = first_user p us in if p u then some u else rest

-- A value that is not NULL stands in the column of two rows.
unfoldable pub clashes : Text → Text → Bool
clashes s column = not (is_empty s) && text_eq column s

-- The new row violates one of the unique columns.
unfoldable pub is_taken : UserReq → User → Bool
unfolding clashes
is_taken p u =
    clashes p.cellphone u.cellphone
    || (clashes p.email u.email
        || (clashes p.nickname u.nickname || clashes p.wx_openid u.wx_openid))

-- The row that UserInsert adds. The requests that AddUserService gets are decoded from JSON, so their
-- `ext` is already what the JSON column keeps.
unfoldable pub inserted_user : ℕ → UserReq → User
inserted_user uid p = record {
  uid = uid;
  tenant_id = p.tenant_id;
  password = p.password;
  cellphone = p.cellphone;
  email = p.email;
  nickname = p.nickname;
  wx_openid = p.wx_openid;
  avatar_url = [];
  addr = [];
  gender = 0;
  login_time = none;
  ext = p.ext;
}

-- `if v != "" { update[column] = v }`
unfoldable pub or_kept : Text → Text → Text
or_kept s column = if is_empty s then column else s

unfoldable pub is_gender : ℕ → Bool
is_gender g = g == 1 || g == 2

-- What UserUpdate makes of a row.
unfoldable pub updated_user : UserReq → User → User
unfolding or_kept is_gender
updated_user p u = record u {
  cellphone = or_kept p.cellphone u.cellphone;
  email = or_kept p.email u.email;
  nickname = or_kept p.nickname u.nickname;
  addr = or_kept p.addr u.addr;
  gender = if is_gender p.gender then p.gender else u.gender;
  avatar_url = or_kept p.avatar_url u.avatar_url;
}

-- Whether UserUpdate has a column to set.
unfoldable pub is_update : UserReq → Bool
unfolding is_gender
is_update p = not (
    is_empty p.cellphone
    && is_empty p.email
    && is_empty p.nickname
    && is_empty p.addr
    && not (is_gender p.gender)
    && is_empty p.avatar_url)

-- The rows that pass a test, changed.
unfoldable pub change_users : (User → Bool) → (User → User) → List User → List User
change_users p f [] = []
change_users p f (u ∷ us) = (if p u then f u else u) ∷ change_users p f us

-- OFFSET (n - 1) * size LIMIT size; page 0 is the first one
unfoldable pub page_of : {A : Type 0} → ℕ → ℕ → List A → List A
page_of page_no page_size xs = take page_size (drop ((page_no - 1) * page_size) xs)

-- A page of the rows that UserQuery selects.
unfoldable pub user_page : UserReq → ℕ → ℕ → List User → List User
unfolding matches_user page_of
user_page p page_no page_size us = page_of page_no page_size (keep_if (matches_user p) us)

module _ {P : Type 0} where
  -- UPDATE users … WHERE p, with the number of rows
  unfoldable pub update_users : (User → Bool) → (User → User) → Exec P ℕ
  unfolding change_users
  update_users p f w =
      (ok (length (keep_if p w.users)), record w { users = change_users p f w.users })

  -- INSERT INTO users. A row that clashes with another one is refused; the id of the row is used
  -- up.
  unfoldable pub insert_user : UserReq → Exec P ℕ
  unfolding is_taken inserted_user
  insert_user p w =
      let w' = record w { next_uid = w.next_uid + 1 } in
      if exists (is_taken p) w.users
      then (err Error.duplicate, w')
      else (ok w.next_uid, record w' { users = w.users ++ inserted_user w.next_uid p ∷ [] })

  -- UserInsert, outside a transaction
  unfoldable pub user_insert : UserReq → Exec P ℕ
  unfolding statement insert_user
  user_insert p = statement (insert_user p)

  -- UPDATE users … WHERE uid = u: a value that a row of another id has in a unique column is
  -- refused.
  unfoldable pub update_user : UserReq → Exec P ℕ
  unfolding is_taken updated_user update_users
  update_user p w =
      if exists (λ u. u.uid == p.uid) w.users
        && exists (λ u. not (u.uid == p.uid) && is_taken (record p { wx_openid = [] }) u) w.users
      then (err Error.duplicate, w)
      else update_users (λ u. u.uid == p.uid) (updated_user p) w

  -- UserUpdate
  unfoldable pub user_update : UserReq → Exec P ℕ
  unfolding statement is_update update_user
  user_update p = if is_update p then statement (update_user p) else pure 0

  -- UserUpdatePWD
  unfoldable pub user_update_pwd : ℕ → Text → Text → Exec P ℕ
  unfolding statement update_users
  user_update_pwd uid old_pwd new_pwd = statement (
      update_users (λ u. u.uid == uid && text_eq u.password old_pwd)
        (λ u. record u { password = new_pwd }))

  -- UserUpdatePWDByCellphone
  unfoldable pub user_update_pwd_by_cellphone : Text → Text → Exec P ℕ
  unfolding statement update_users
  user_update_pwd_by_cellphone cellphone new_pwd =
      statement
        (update_users (λ u. text_eq u.cellphone cellphone) (λ u. record u { password = new_pwd }))

  -- UserUpdateWxOpenIdByCellphone
  unfoldable pub user_update_wx_open_id_by_cellphone : Text → Text → Exec P ℕ
  unfolding statement update_users
  user_update_wx_open_id_by_cellphone cellphone wx_openid = statement (λ w.
      if exists (λ u. text_eq u.cellphone cellphone) w.users
        && exists (λ u. not (text_eq u.cellphone cellphone) && text_eq u.wx_openid wx_openid)
            w.users
      then (err Error.duplicate, w)
      else update_users (λ u. text_eq u.cellphone cellphone)
          (λ u. record u { wx_openid = wx_openid }) w)

  -- SetUserPWD: tenant 0 stands for any
  unfoldable pub set_user_pwd : ℕ → ℕ → Text → Exec P ℕ
  unfolding statement update_users
  set_user_pwd uid tid pwd = statement (
      update_users (λ u. u.uid == uid && (not (ltb 0 tid) || u.tenant_id == tid))
        (λ u. record u { password = pwd }))

  -- UserUpdateLoginTime
  unfoldable pub user_update_login_time : ℕ → ℕ → Exec P ℕ
  unfolding statement update_users
  user_update_login_time uid t =
      statement (update_users (λ u. u.uid == uid) (λ u. record u { login_time = some t }))

  -- UserQueryOne
  unfoldable pub user_query_one : UserReq → Exec P (Option User)
  unfolding query first_user matches_user
  user_query_one p = query (λ w. first_user (matches_user p) w.users)

  -- UserQuery
  unfoldable pub user_query : UserReq → ℕ → ℕ → Exec P (List User)
  unfolding query user_page
  user_query p page_no page_size = query (λ w. user_page p page_no page_size w.users)
