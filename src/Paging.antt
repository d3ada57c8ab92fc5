-- ===== src/Paging.antt =====
-- The loop `for { list := query(page); …; page++ }` of service/, which ends after a page that is empty
-- or short. It runs on fuel: `none` is out of fuel.
pub mod Whole
pub mod Bounded
pub mod Holds
use passport.Base.{ℕ, zero, suc, ◌+◌, Option, none, some, List, ltb, ◌==◌, if◌then◌else◌, length}
use passport.World.{Exec, pure, ◌>>=◌}

module _ {P A S : Type 0} (query_page : ℕ → Exec P (List A)) (size : ℕ)
    (step : List A → S → S) where
  -- The end of the loop's body.
  unfoldable pub after_page : List A → S → Exec P (Option S) → Exec P (Option S)
  after_page list s next =
      if length list == 0
      then pure (some s)
      else if ltb (length list) size
      then pure (some (step list s))
      else next

  unfoldable pub pages : ℕ → ℕ → S → Exec P (Option S)
  unfolding after_page
  pages zero page s = pure none
  pages (suc n) page s = do
    list ← query_page page
    after_page list s (pages n (page + 1) (step list s))
