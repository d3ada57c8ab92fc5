-- ===== src/Tests/Forests.antt =====
-- The closure table of a small forest: 1 over 2 and 3, and 2 over 4.
use passport.Base.{
  ℕ, zero, suc, ◌<◌, ◌≡◌, refl, none, some, [], ◌∷◌, ◌&&◌, ◌||◌, ◌==◌, arith, if◌then◌else◌,
}
use passport.Closure.{row, Table, find_depth, related, insert_tenant, move_subtree}
use passport.Closure.Forest.{Forest, Represents, climb}
use passport.Closure.Insert.{add_leaf, insert_tenant-Represents}
use passport.Closure.Move.{hang, move_subtree-Represents, related-move_subtree, move_subtree_stale}

abbrev only_root : Forest
only_root = record { node = λ x. x == 1; parent = λ x. none }

abbrev root_table : Table
root_table = row 1 1 0 ∷ []

root_climb : (a d k : ℕ) → d ≡ 1 → climb only_root k d ≡ some a → find_depth a d root_table ≡ some k
unfolding climb find_depth
root_climb a d zero h e = ground arith
root_climb a d (suc k) h e = ground arith

only_root-Represents : Represents only_root root_table
only_root-Represents = record {
  keyed = (unfold find_depth in refl, tt);
  closed = λ d p h e. ground arith;
  sound = λ a d k e. unfold find_depth climb in ground arith;
  complete = λ a d k h e. root_climb a d k (ground arith) e;
}

abbrev two_tenants : Forest
two_tenants = add_leaf 1 2 only_root

abbrev two_table : Table
two_table = insert_tenant 1 2 root_table

two_tenants-Represents : Represents two_tenants two_table
two_tenants-Represents = insert_tenant-Represents 1 2 only_root only_root-Represents refl refl

abbrev three_tenants : Forest
three_tenants = add_leaf 1 3 two_tenants

abbrev three_table : Table
three_table = insert_tenant 1 3 two_table

three_tenants-Represents : Represents three_tenants three_table
three_tenants-Represents = insert_tenant-Represents 1 3 two_tenants two_tenants-Represents refl refl

abbrev pub four_tenants : Forest
four_tenants = add_leaf 2 4 three_tenants

abbrev pub four_table : Table
four_table = insert_tenant 2 4 three_table

pub four_tenants-Represents : Represents four_tenants four_table
four_tenants-Represents =
    insert_tenant-Represents 2 4 three_tenants three_tenants-Represents refl refl

-- The depths in the table.
four_table_example : find_depth 1 4 four_table ≡ some 2
unfolding insert_tenant find_depth related
four_table_example = refl

-- A fifth tenant below the fourth.
insert_tenant-Represents_example :
    Represents (add_leaf 4 5 four_tenants) (insert_tenant 4 5 four_table)
insert_tenant-Represents_example =
    insert_tenant-Represents 4 5 four_tenants four_tenants-Represents refl refl

apart_4_3 : find_depth 4 3 four_table ≡ none
unfolding insert_tenant find_depth related
apart_4_3 = refl

-- The same table, as rows.
four_rows : Table
four_rows =
    row 1 4 2
    ∷ row 2 4 1
    ∷ row 4 4 0
    ∷ row 1 3 1
    ∷ row 3 3 0
    ∷ row 1 2 1
    ∷ row 2 2 0
    ∷ row 1 1 0
    ∷ []

nearer_rows :
    (a m i : ℕ) → find_depth a 4 four_rows ≡ some m → find_depth a 3 four_rows ≡ some i → i < m
unfolding find_depth four_rows
nearer_rows a m i low high = ground arith

-- Tenant 4 moves from 2 to 3: the only common ancestor is 1.
nearer_4_3 :
    (a m i : ℕ) → find_depth a 4 four_table ≡ some m → find_depth a 3 four_table ≡ some i → i < m
unfolding insert_tenant find_depth related four_rows
nearer_4_3 a m i low high = nearer_rows a m i low high

move_subtree-Represents_example : Represents (hang 4 3 four_tenants) (move_subtree 4 3 four_table)
move_subtree-Represents_example =
    move_subtree-Represents 4 3 four_tenants-Represents (omega arith) (omega arith) refl refl
      apart_4_3 nearer_4_3

related-move_subtree_example : related 2 4 (move_subtree 4 3 four_table) ≡ (
    if related 4 4 four_table
    then (related 4 2 four_table && related 2 4 four_table) || related 2 3 four_table
    else related 2 4 four_table)
related-move_subtree_example =
    related-move_subtree 4 3 four_tenants-Represents (omega arith) (omega arith) refl refl apart_4_3
      2 4

apart_2_3 : find_depth 2 3 four_table ≡ none
unfolding insert_tenant find_depth related
apart_2_3 = refl

depths :
    (find_depth 1 3 four_table ≡ some 1)
    × (find_depth 1 2 four_table ≡ some 1)
    × (find_depth 2 4 four_table ≡ some 1)
unfolding insert_tenant find_depth related
depths = (refl, refl, refl)

-- Tenant 2 moves under 3, one step deeper: 4 keeps its depth 2 below 1, though its path is 3 long.
move_subtree_stale_example :
    (find_depth 1 4 (move_subtree 2 3 four_table) ≡ some 2)
    × (climb (hang 2 3 four_tenants) 3 4 ≡ some 1)
    × (2 < 3)
move_subtree_stale_example =
    move_subtree_stale 2 3 four_tenants-Represents (omega arith) (omega arith) refl refl apart_2_3 1
      4 1 0 1 depths.0 depths.1 depths.2 (omega arith)
