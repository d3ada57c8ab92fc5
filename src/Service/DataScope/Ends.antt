-- ===== src/Service/DataScope/Ends.antt =====
-- memberUIDsInDeps of service/datascope.go over any number of pages, each of which comes in an order of its own.
use passport.Base.{
  ℕ, suc, ◌*◌, ◌<◌, ◌≤◌, ◌≡◌, sym, subst, true, false, some, List, [], ◌∷◌, ◌&&◌, ◌||◌, arith, ◌==◌,
  exists, length, length-take-drop_end, take, drop, All,
}
use passport.Errors.{Error}
use passport.Protos.{User}
use passport.World.{World, statement, or_error, raise}
use passport.Live.{Returns, IsCalm, Returns-or_error, Returns-false, Returns-weaken}
use passport.Paging.Bounded.{IsPage, pages-Ends}
use passport.Dao.Listing.{org_users, in_order, user_query_by_org, or_default}
use passport.Dao.Listing.Order.{length-in_order}
use passport.Dao.Page.{select_page}
use passport.Dao.Page.Safe.{select_page-Returns}
use passport.Service.DataScope.{note_users, member_uids_in_deps}
use passport.Service.DataScope.Members.{is_in}
use passport.Service.DataScope.Own.{note_users-All, rows-IsColleague}

module _ {P : Type 0} (tenant_id org_id : ℕ) (dep_ids : List ℕ) (w : World P) where
  abbrev rows : List User
  rows = org_users tenant_id org_id [] [] w.members w.users

  -- The id of a user of the organization who is in one of the departments.
  abbrev pub IsMemberId : ℕ → Type 0
  IsMemberId x = exists (λ u. u.uid == x && is_in dep_ids u) rows ≡ true

  -- The rows as the page gives them.
  abbrev rows_at : ℕ → World P → List User
  rows_at page v = in_order (v.row_order page) (org_users tenant_id org_id [] [] v.members v.users)

  or_default-suc : (k : ℕ) → or_default (suc k) 1 ≡ suc k
  unfolding or_default
  or_default-suc k = ground arith

  page-Returns :
      (k : ℕ)
      → IsCalm w
      → (tenant_id == 0 || org_id == 0) ≡ false
      → length rows < 9223372036854775808
      → k * 200 ≤ length rows
      → Returns
          (or_error (user_query_by_org tenant_id org_id (suc k) 200 [] []) Error.service)
          w
          (λ l v. (l ≡ take 200 (drop (k * 200) (rows_at (suc k) w))) × (v ≡ w))
  unfolding user_query_by_org
  page-Returns k calm ids small h =
      let same : length (rows_at (suc k) w) ≡ length rows =
        length-in_order (w.row_order (suc k)) rows in
      Returns-or_error (user_query_by_org tenant_id org_id (suc k) 200 [] []) Error.service w (
        Returns-false (raise Error.param) _ w ids (
          subst
            (λ n.
              Returns (statement (select_page n 200 (rows_at n))) w
                (λ l v. (l ≡ take 200 (drop (k * 200) (rows_at (suc k) w))) × (v ≡ w)))
            (sym (or_default-suc k))
            (select_page-Returns (rows_at (suc k)) w 200 k calm (omega arith)
              (omega (arith, small, same)) (omega (arith, h, same)))))

  page-IsPage :
      (k : ℕ) (l : List User) (v : World P)
      → k * 200 ≤ length rows
      → (l ≡ take 200 (drop (k * 200) (rows_at (suc k) w))) × (v ≡ w)
      → IsPage
          (λ page. or_error (user_query_by_org tenant_id org_id page 200 [] []) Error.service)
          200
          (note_users dep_ids)
          (length rows)
          w
          (All IsMemberId)
          k
          l
          v
  page-IsPage k l v h (e, same_state) =
      let same : length (rows_at (suc k) w) ≡ length rows =
        length-in_order (w.row_order (suc k)) rows in
      (
        λ full.
            let long : 200 ≤ length (take 200 (drop (k * 200) (rows_at (suc k) w))) =
              subst (λ x. 200 ≤ length x) e full in
            omega (
              arith,
              long,
              same,
              length-take-drop_end (k * 200) 200 (rows_at (suc k) w) (omega (arith, h, same)),
            ),
        (
          λ out hs.
              subst (λ x. All IsMemberId (note_users dep_ids x out)) (sym e)
                (note_users-All IsMemberId dep_ids _ out
                  (rows-IsColleague w.users w.members [] 0 tenant_id org_id dep_ids
                    (w.row_order (suc k)) 200 (k * 200))
                  hs),
          same_state,
        ),
      )

-- When no statement fails, and the rows of the organization's users are fewer than 2 ^ 63, then with
-- fuel for more pages of 200 than these rows fill, and whatever order the database gives to each
-- page, memberUIDsInDeps returns, and leaves the state as it was. Each id that it returns is that of
-- a user of the organization who is in one of the departments.
pub member_uids_in_deps_ends :
    {P : Type 0} (fuel tenant_id org_id d : ℕ) (ds : List ℕ) (w : World P)
    → IsCalm w
    → (tenant_id == 0 || org_id == 0) ≡ false
    → length (org_users tenant_id org_id [] [] w.members w.users) < 9223372036854775808
    → length (org_users tenant_id org_id [] [] w.members w.users) < fuel * 200
    → Returns (member_uids_in_deps fuel tenant_id org_id (d ∷ ds)) w (λ out v.
      ((ids : List ℕ) × (out ≡ some ids) × All (IsMemberId tenant_id org_id (d ∷ ds) w) ids)
      × (v ≡ w))
unfolding member_uids_in_deps
member_uids_in_deps_ends fuel tenant_id org_id d ds w calm ids small enough =
    pages-Ends (λ page. or_error (user_query_by_org tenant_id org_id page 200 [] []) Error.service)
      200 (note_users (d ∷ ds)) (length (org_users tenant_id org_id [] [] w.members w.users)) w
      (All (IsMemberId tenant_id org_id (d ∷ ds) w)) fuel []
      (λ k h.
        Returns-weaken (page-Returns tenant_id org_id (d ∷ ds) w k calm ids small h)
          (λ l v q. page-IsPage tenant_id org_id (d ∷ ds) w k l v h q))
      tt enough
