-- ===== src/Dao/Page/Safe.antt =====
-- What reading a page gives, and that it does.
use passport.Base.{
  ℕ, suc, ◌*◌, ◌≤◌, ◌<◌, ◌≡◌, refl, ap, true, List, ◌&&◌, take, drop, length, arith,
}
use passport.Errors.{Error}
use passport.World.{World, raise, statement}
use passport.Hoare.{Triple, returned, Triple-if, Triple-raise}
use passport.Live.{Returns, IsCalm, Returns-gets, Returns-true, Returns-statement}
use passport.Dao.Page.{offset_of, is_bigint, select_page}

pub select_page-Triple :
    {P A : Type 0} {Pre Fail : World P → Type 0} {Post : List A → World P → Type 0} (page size : ℕ)
    (rows : World P → List A)
    → ((w : World P) → Pre w → Fail w)
    → ((w : World P) → Pre w → Post (take size (drop (offset_of page size) (rows w))) w)
    → Triple Pre (select_page page size rows) Post Fail
unfolding select_page
select_page-Triple page size rows bad good =
    Triple-if (is_bigint (offset_of page size) && is_bigint size) _ (raise Error.db)
      (λ _. record { at = λ w h. returned (good w h) }) (λ _. Triple-raise Error.db bad)

-- A page number within uint64 gives its place.
offset_of-suc : (k size : ℕ) → k * size < 9223372036854775808 → offset_of (suc k) size ≡ k * size
unfolding offset_of
offset_of-suc k size h = omega arith

is_bigint-suc :
    (k size : ℕ)
    → k * size < 9223372036854775808
    → size < 9223372036854775808
    → (is_bigint (offset_of (suc k) size) && is_bigint size) ≡ true
unfolding is_bigint
is_bigint-suc k size h h' = ground (arith, offset_of-suc k size h)

-- When no statement fails, a page within a list of fewer than 2 ^ 63 rows is read.
pub select_page-Returns :
    {P A : Type 0} (rows : World P → List A) (w : World P) (size k : ℕ)
    → IsCalm w
    → size < 9223372036854775808
    → length (rows w) < 9223372036854775808
    → k * size ≤ length (rows w)
    → Returns
        (statement (select_page (suc k) size rows))
        w
        (λ l v. (l ≡ take size (drop (k * size) (rows w))) × (v ≡ w))
unfolding select_page
select_page-Returns rows w size k calm small_page small h =
    Returns-statement (select_page (suc k) size rows) w calm (
      Returns-true _ (raise Error.db) w (is_bigint-suc k size (omega (arith, h, small)) small_page)
        (Returns-gets (λ v. take size (drop (offset_of (suc k) size) (rows v))) w
          (
            ap (λ m. take size (drop m (rows w))) (offset_of-suc k size (omega (arith, h, small))),
            refl,
          )))
