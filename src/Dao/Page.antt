-- ===== src/Dao/Page.antt =====
-- The pages of the queries of dao/: `Offset((page - 1) * pageSize).Limit(pageSize)`.
pub mod Safe
use passport.Base.{ℕ, zero, suc, ◌*◌, ◌%◌, Bool, List, ◌&&◌, ltb, if◌then◌else◌, take, drop}
use passport.Errors.{Error}
use passport.World.{World, Exec, gets, raise}

-- (page - 1) * pageSize, in uint64
unfoldable pub offset_of : ℕ → ℕ → ℕ
offset_of zero size = (18446744073709551615 * size) % 18446744073709551616
offset_of (suc k) size = (k * size) % 18446744073709551616

-- OFFSET and LIMIT are bigints of the database.
unfoldable pub is_bigint : ℕ → Bool
is_bigint n = ltb n 9223372036854775808

-- The rows of a page.
unfoldable pub select_page : {P A : Type 0} → ℕ → ℕ → (World P → List A) → Exec P (List A)
unfolding offset_of is_bigint
select_page page size rows =
    if is_bigint (offset_of page size) && is_bigint size
    then gets (λ w. take size (drop (offset_of page size) (rows w)))
    else raise Error.db
