-- ===== src/Std/UnionSet/Merge.antt =====
-- The operations of the union set, by the top parents that they find.
use dlfree.Base.{
  ℕ, ◌<◌, ◌≡◌, ◌≢◌, ◌⊎◌, refl, ap, sym, ◌∙◌, false, Option, none, some, inl, inr, arith, Bool-cases,
  Option-cases, ltb, ◌==◌, if◌then◌else◌, some_injective, none_ne_some,
}
use dlfree.Std.HashMap.View.{IsValid, view, head?, create-view, find-view}
use dlfree.Std.UnionSet.{
  UnionSet, union_set_create, union_set_find_set_parent, link_cells, union_set_merge_set,
}
use dlfree.Std.UnionSet.Forest.{
  IsForest, Top, top_parent-Top, Top-unique, Top-root, link-IsForest, link-Top,
}

-- The cell of an item, if it was added.
abbrev pub cell_of : UnionSet → ℕ → Option ℕ
cell_of u d = head? (view u.cell_map d)

pub record IsUnionSet (u : UnionSet) : Type 0 where
  pub map : IsValid u.cell_map
  pub forest : IsForest u.cells u.ncells
  pub known : (d c : ℕ) → cell_of u d ≡ some c → c < u.ncells

-- The item is in the set, in the tree of this top parent.
pub record InTree (u : UnionSet) (d t : ℕ) : Type 0 where
  pub cell : ℕ
  pub at : cell_of u d ≡ some cell
  pub tree : Top u.cells cell t

pub create-IsUnionSet : IsUnionSet union_set_create
unfolding union_set_create
create-IsUnionSet =
    let (valid, empty) = create-view {V = ℕ} 100 (omega arith) in
    record {
      map = valid;
      forest = record {
        parents = λ c p h e. absurd (omega arith);
        heights = λ c p h e. absurd (omega arith);
      };
      known = λ d c e. absurd (none_ne_some (sym (ap head? (empty d)) ∙ e));
    }

-- An item that was added has a top parent, and one that was not has none.
pub find-InTree :
    (u : UnionSet) (d c : ℕ)
    → IsUnionSet u
    → cell_of u d ≡ some c
    → (t : ℕ) × (union_set_find_set_parent u d ≡ some t) × InTree u d t × (t < u.ncells)
unfolding union_set_find_set_parent
find-InTree u d c v e =
    let (t, run, tree, lt) = top_parent-Top u.cells u.ncells c v.forest (v.known d c e) in
    (t, rw (find-view u.cell_map d v.map, e) run, record { cell = c; at = e; tree = tree }, lt)

pub find_none :
    (u : UnionSet) (d : ℕ)
    → IsUnionSet u
    → cell_of u d ≡ none
    → union_set_find_set_parent u d ≡ none
unfolding union_set_find_set_parent
find_none u d v e = rw (find-view u.cell_map d v.map, e)

-- The top parent that is found is the one of the item's tree.
pub InTree-find :
    (u : UnionSet) (d t : ℕ) → IsUnionSet u → InTree u d t → union_set_find_set_parent u d ≡ some t
InTree-find u d t v i =
    let (t', run, i', _) = find-InTree u d i.cell v i.at in
    let same : i.cell ≡ i'.cell = some_injective (sym i.at ∙ i'.at) in
    run ∙ ap some (Top-unique u.cells i'.tree (rw same at i.tree))

pub found-InTree :
    (u : UnionSet) (d t : ℕ)
    → IsUnionSet u
    → union_set_find_set_parent u d ≡ some t
    → InTree u d t × (t < u.ncells)
found-InTree u d t v run = elim (Option-cases (cell_of u d)) [
  | inl e ↦ absurd (none_ne_some (sym (find_none u d v e) ∙ run))
  | inr (c, e) ↦
      let (t', run', i, lt) = find-InTree u d c v e in
      let same : t' ≡ t = some_injective (sym run' ∙ run) in (rw same at i, rw same at lt)
]

-- An empty set has no items.
pub create_empty : (d t : ℕ) → union_set_find_set_parent union_set_create d ≡ some t → ⊥
unfolding union_set_create
create_empty d t found =
    none_ne_some (sym (find_none union_set_create d create-IsUnionSet (no_cell d)) ∙ found)
  where
    no_cell : (d : ℕ) → cell_of union_set_create d ≡ none
    no_cell d = ap head? ((create-view {V = ℕ} 100 (omega arith)).1 d)

-- The set with two trees joined.
module _ (u : UnionSet) (child parent : ℕ) (v : IsUnionSet u) (hc : child < u.ncells)
    (hp : parent < u.ncells) (distinct : child ≢ parent)
    (child_root : (u.cells child).parent ≡ none)
    (parent_root : (u.cells parent).parent ≡ none) where
  abbrev joined : UnionSet
  joined = record u { cells = link_cells u.cells child parent }

  joined-IsUnionSet : IsUnionSet joined
  joined-IsUnionSet = record {
    map = v.map;
    forest =
        link-IsForest u.cells u.ncells child parent v.forest hc hp distinct child_root parent_root;
    known = v.known;
  }

  joined-find :
      (d t : ℕ)
      → union_set_find_set_parent u d ≡ some t
      → union_set_find_set_parent joined d ≡ some (if t == child then parent else t)
  joined-find d t run =
      let (i, _) = found-InTree u d t v run in
      InTree-find joined d _ joined-IsUnionSet (record {
        cell = i.cell;
        at = i.at;
        tree =
            link-Top u.cells u.ncells child parent v.forest hc hp distinct child_root parent_root
              i.tree;
      })

root : (u : UnionSet) (d t : ℕ) → InTree u d t → (u.cells t).parent ≡ none
root u d t i = Top-root u.cells i.tree

to_second :
    (t t0 t1 : ℕ)
    → (if t == t0 then t1 else t) ≡ (if t == t0 then t1 else if t == t1 then t1 else t)
to_second t t0 t1 = ground arith

to_first :
    (t t0 t1 : ℕ)
    → (if t == t1 then t0 else t) ≡ (if t == t0 then t0 else if t == t1 then t0 else t)
to_first t t0 t1 = ground arith

-- Merging the sets of two items with different top parents returns, keeps the invariant, and makes
-- one of the two the top parent of both sets, while every other item keeps its own.
pub union_set_merge_set-joins :
    (u : UnionSet) (d0 d1 t0 t1 : ℕ)
    → IsUnionSet u
    → union_set_find_set_parent u d0 ≡ some t0
    → union_set_find_set_parent u d1 ≡ some t1
    → t0 ≢ t1
    → (u' : UnionSet) × (union_set_merge_set u d0 d1 ≡ some u')
      × IsUnionSet u'
      × ((winner : ℕ) × ((winner ≡ t0) ⊎ (winner ≡ t1))
          × ((d t : ℕ)
              → union_set_find_set_parent u d ≡ some t
              → union_set_find_set_parent u' d
                ≡ some (if t == t0 then winner else if t == t1 then winner else t)))
unfolding union_set_merge_set
union_set_merge_set-joins u d0 d1 t0 t1 v e0 e1 distinct =
    let (i0, h0) = found-InTree u d0 t0 v e0 in
    let (i1, h1) = found-InTree u d1 t1 v e1 in
    let other : (t0 == t1) ≡ false = ground (arith, distinct) in
    elim (Bool-cases (ltb (u.cells t0).height (u.cells t1).height)) [
      | inl lower ↦ (
        joined u t0 t1 v h0 h1 distinct (root u d0 t0 i0) (root u d1 t1 i1),
        rw (e0, e1, other, lower),
        joined-IsUnionSet u t0 t1 v h0 h1 distinct (root u d0 t0 i0) (root u d1 t1 i1),
        (
          t1,
          inr refl,
          λ d t run.
              joined-find u t0 t1 v h0 h1 distinct (root u d0 t0 i0) (root u d1 t1 i1) d t run
              ∙ ap some (to_second t t0 t1),
        ),
      )
      | inr higher ↦ (
        joined u t1 t0 v h1 h0 (λ e. distinct (sym e)) (root u d1 t1 i1) (root u d0 t0 i0),
        rw (e0, e1, other, higher),
        joined-IsUnionSet u t1 t0 v h1 h0 (λ e. distinct (sym e)) (root u d1 t1 i1)
            (root u d0 t0 i0),
        (
          t0,
          inl refl,
          λ d t run.
              joined-find u t1 t0 v h1 h0 (λ e. distinct (sym e)) (root u d1 t1 i1)
                (root u d0 t0 i0) d t run
              ∙ ap some (to_first t t0 t1),
        ),
      )
    ]
