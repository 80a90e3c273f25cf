-- ===== src/Std/UnionSet.antt =====
-- src/std/uset.c: a forest of cells. A cell is its place in `union_set_cell_vec`, and the data is
-- the address that the source makes a key of. `cells` is what the cells hold. A failed assertion
-- and the end of the fuel are `none`.
pub mod Add
pub mod Forest
pub mod Merge
use dlfree.Base.{
  ℕ, zero, suc, ◌+◌, Bool, true, false, Option, none, some, max, ltb, ◌==◌, if◌then◌else◌, ◌%◌,
}
use dlfree.Std.Bytes.{◌>>=◌}
use dlfree.Std.HashMap.{HashMap, hash_map_create, hash_map_add, hash_map_find}

pub record Cell : Type 0 where
  pub data_of : ℕ
  pub parent : Option ℕ
  pub set_of : ℕ
  pub height : ℕ

unfoldable pub union_set_cell_create : (data_of set_of : ℕ) → Cell
union_set_cell_create data_of set_of = record {
  data_of = data_of;
  parent = none;
  set_of = set_of;
  height = 0;
}

pub record UnionSet : Type 0 where
  pub cell_map : HashMap ℕ
  pub cells : ℕ → Cell
  pub ncells : ℕ
  pub nset : ℕ

-- A store of cells with one cell written.
abbrev pub put_cell : (ℕ → Cell) → ℕ → Cell → ℕ → Cell
put_cell cells i c j = if j == i then c else cells j

-- The cells that are not made yet hold what a new one does.
unfoldable pub union_set_create : UnionSet
union_set_create = record {
  cell_map = hash_map_create 100;
  cells = λ _. union_set_cell_create 0 0;
  ncells = 0;
  nset = 0;
}

unfoldable pub union_set_add : UnionSet → ℕ → Option UnionSet
union_set_add u d = do
  m ← hash_map_add u.cell_map d u.ncells
  some (record {
    cell_map = m;
    cells = put_cell u.cells u.ncells (union_set_cell_create d u.nset);
    ncells = u.ncells + 1;
    nset = u.nset + 1;
  })

-- The walk to the top parent.
unfoldable pub top_parent : (ℕ → Cell) → ℕ → ℕ → Option ℕ
top_parent cells zero cell = none
top_parent cells (suc fuel) cell = elim (cells cell).parent [
  | none ↦ some cell
  | some p ↦ top_parent cells fuel p
]

-- The largest height of the first cells; heights grow along the parents.
unfoldable pub tallest : (ℕ → Cell) → ℕ → ℕ
tallest cells zero = 0
tallest cells (suc n) = max (cells n).height (tallest cells n)

unfoldable pub union_set_find_set_parent : UnionSet → ℕ → Option ℕ
union_set_find_set_parent u d = do
  found ← hash_map_find u.cell_map d
  cell ← found
  top_parent u.cells (tallest u.cells u.ncells + 1) cell

unfoldable pub union_set_get_set : UnionSet → ℕ → Option ℕ
union_set_get_set u d = do top ← union_set_find_set_parent u d; some (u.cells top).set_of

unfoldable pub union_set_is_same_set : UnionSet → (d0 d1 : ℕ) → Option Bool
union_set_is_same_set u d0 d1 = do
  top0 ← union_set_find_set_parent u d0
  top1 ← union_set_find_set_parent u d1
  some (top0 == top1)

-- The two writes: the child's parent, and the parent's height.
unfoldable pub link_cells : (ℕ → Cell) → (child parent : ℕ) → ℕ → Cell
link_cells cells child parent =
    let linked = put_cell cells child (record (cells child) { parent = some parent }) in
    put_cell linked parent
      (record (linked parent) { height = max (linked parent).height ((linked child).height + 1) })

unfoldable pub union_set_merge_set : UnionSet → (d0 d1 : ℕ) → Option UnionSet
union_set_merge_set u d0 d1 = do
  top0 ← union_set_find_set_parent u d0
  top1 ← union_set_find_set_parent u d1
  (if top0 == top1
      then none
      else if ltb (u.cells top0).height (u.cells top1).height
      then some (record u { cells = link_cells u.cells top0 top1 })
      else some (record u { cells = link_cells u.cells top1 top0 }))
