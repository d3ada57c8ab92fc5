-- ===== src/Service/DataScope/Members.antt =====
-- memberUIDsInDeps against a description of its result: the users of the organization that are in one
-- of the departments.
use passport.Base.{
  ℕ, zero, suc, ◌*◌, ◌<◌, ◌≤◌, ◌≡◌, refl, sym, ap, ◌∙◌, inl, inr, Bool, true, false, some, List, [],
  ◌∷◌, ◌++◌, ◌&&◌, ◌||◌, arith, ◌==◌, ==_true, if◌then◌else◌, contains, exists, length, Bool-cases,
  if_true, if_false, take, drop,
}
use passport.Errors.{Error}
use passport.Protos.{User}
use passport.World.{World, or_error, raise}
use passport.Live.{Returns, IsCalm, Returns-or_error, Returns-false, Returns-weaken}
use passport.Paging.Whole.{pages-Returns}
use passport.Dao.Closure.{add_new}
use passport.Dao.Listing.{org_users, in_order, user_query_by_org, or_default}
use passport.Dao.Listing.Order.{length-in_order, exists-in_order}
use passport.Dao.Page.Safe.{select_page-Returns}
use passport.Service.DataScope.{departments_in_ext, note_user, note_users, member_uids_in_deps}

unfoldable pub meets : List ℕ → List ℕ → Bool
meets dep_ids [] = false
meets dep_ids (d ∷ ds) = contains d dep_ids || meets dep_ids ds

-- Some department of a user is among the given ones.
unfoldable pub is_in : List ℕ → User → Bool
unfolding departments_in_ext meets
is_in dep_ids u = meets dep_ids (departments_in_ext u)

pub note_user_lem :
    (dep_ids : List ℕ) (uid : ℕ) (ds out : List ℕ)
    → note_user dep_ids uid ds out ≡ (if meets dep_ids ds then add_new uid out else out)
unfolding note_user meets
note_user_lem dep_ids uid [] out = refl
note_user_lem dep_ids uid (d ∷ ds) out = ground (arith, note_user_lem dep_ids uid ds out)

contains-append :
    (x : ℕ) (xs : List ℕ) (y : ℕ) → contains x (xs ++ y ∷ []) ≡ (contains x xs || y == x)
contains-append x [] y = ground arith
contains-append x (z ∷ xs) y = ground (arith, contains-append x xs y)

contains-add_new : (x y : ℕ) (xs : List ℕ) → contains x (add_new y xs) ≡ (contains x xs || y == x)
unfolding add_new
contains-add_new x y xs = elim (Bool-cases (contains y xs)) [
  | inl e ↦ ap (contains x) (if_true xs (xs ++ y ∷ []) e) ∙ elim (Bool-cases (y == x)) [
    | inl same ↦
        let found : contains x xs ≡ true = ap (λ z. contains z xs) (sym (==_true y x same)) ∙ e in
        ground (arith, found)
    | inr other ↦ ground (arith, other)
  ]
  | inr e ↦ ap (contains x) (if_false xs (xs ++ y ∷ []) e) ∙ contains-append x xs y
]

-- What a user adds to the ids that have been noted.
contains-note_user :
    (dep_ids : List ℕ) (x : ℕ) (u : User) (out : List ℕ)
    → contains x (note_user dep_ids u.uid (departments_in_ext u) out)
      ≡ (contains x out || (u.uid == x && is_in dep_ids u))
unfolding is_in
contains-note_user dep_ids x u out =
    ap (contains x) (note_user_lem dep_ids u.uid (departments_in_ext u) out)
    ∙ ground (arith, contains-add_new x u.uid out)

contains-note_users :
    (dep_ids : List ℕ) (x : ℕ) (us : List User) (out : List ℕ)
    → contains x (note_users dep_ids us out)
      ≡ (contains x out || exists (λ u. u.uid == x && is_in dep_ids u) us)
unfolding note_users
contains-note_users dep_ids x [] out = ground arith
contains-note_users dep_ids x (u ∷ us) out =
    contains-note_users dep_ids x us (note_user dep_ids u.uid (departments_in_ext u) out)
    ∙ ground (arith, contains-note_user dep_ids x u out)

note_users-append :
    (dep_ids : List ℕ) (ys zs : List User) (out : List ℕ)
    → note_users dep_ids (ys ++ zs) out ≡ note_users dep_ids zs (note_users dep_ids ys out)
unfolding note_users
note_users-append dep_ids [] zs out = refl
note_users-append dep_ids (y ∷ ys) zs out =
    note_users-append dep_ids ys zs (note_user dep_ids y.uid (departments_in_ext y) out)

-- The rows of the first page, in the order that the database gives them.
abbrev first_rows : {P : Type 0} → ℕ → ℕ → World P → List User
first_rows tenant_id org_id w =
    in_order (w.row_order 1) (org_users tenant_id org_id [] [] w.members w.users)

first_page-Returns :
    {P : Type 0} (tenant_id org_id j : ℕ) (w : World P)
    → IsCalm w
    → (tenant_id == 0 || org_id == 0) ≡ false
    → length (first_rows tenant_id org_id w) < 200
    → j * 200 ≤ length (first_rows tenant_id org_id w)
    → Returns
        (or_error (user_query_by_org tenant_id org_id (suc j) 200 [] []) Error.service)
        w
        (λ l v. (l ≡ take 200 (drop (j * 200) (first_rows tenant_id org_id w))) × (v ≡ w))
unfolding user_query_by_org or_default
first_page-Returns tenant_id org_id zero w calm ids small h =
    Returns-or_error (user_query_by_org tenant_id org_id 1 200 [] []) Error.service w (
      Returns-false (raise Error.param) _ w ids (
        select_page-Returns (first_rows tenant_id org_id) w 200 0 calm (omega arith)
          (omega (arith, small)) h))
first_page-Returns tenant_id org_id (suc j) w calm ids small h = absurd (omega (arith, small, h))

-- When no statement fails, and the organization has fewer than 200 rows of users, in whatever
-- order the database gives them, memberUIDsInDeps returns, and leaves the state as it was. An id is
-- among those it returns exactly when a user of the organization has it and is in one of the
-- departments.
pub member_uids_in_deps-Returns :
    {P : Type 0} (fuel tenant_id org_id d : ℕ) (ds : List ℕ) (w : World P)
    → IsCalm w
    → (tenant_id == 0 || org_id == 0) ≡ false
    → length (org_users tenant_id org_id [] [] w.members w.users) < 200
    → Returns (member_uids_in_deps (suc fuel) tenant_id org_id (d ∷ ds)) w (λ out v.
      ((ids : List ℕ) × (out ≡ some ids)
        × ((x : ℕ)
            → contains x ids
              ≡ exists
                  (λ u. u.uid == x && is_in (d ∷ ds) u)
                  (org_users tenant_id org_id [] [] w.members w.users)))
      × (v ≡ w))
unfolding member_uids_in_deps
member_uids_in_deps-Returns fuel tenant_id org_id d ds w calm ids few =
    let rows = org_users tenant_id org_id [] [] w.members w.users in
    let same : length (first_rows tenant_id org_id w) ≡ length rows =
      length-in_order (w.row_order 1) rows in
    let small : length (first_rows tenant_id org_id w) < 200 = omega (arith, few, same) in
    Returns-weaken
      (pages-Returns
        (λ page. or_error (user_query_by_org tenant_id org_id page 200 [] []) Error.service) 200
        (note_users (d ∷ ds)) (first_rows tenant_id org_id w) w []
        (λ ys zs. note_users-append (d ∷ ds) ys zs []) (unfold note_users in refl) (omega arith)
        (suc fuel) (λ j h. first_page-Returns tenant_id org_id j w calm ids small h)
        (omega (arith, small)))
      (λ out v h. (
        (
          note_users (d ∷ ds) (first_rows tenant_id org_id w) [],
          h.0,
          λ x.
              contains-note_users (d ∷ ds) x (first_rows tenant_id org_id w) []
              ∙ exists-in_order (w.row_order 1) (λ u. u.uid == x && is_in (d ∷ ds) u) rows,
        ),
        h.1,
      ))
