-- ===== src/Std/UnionSet/Add.antt =====
-- Adding an item to a union set.
use dlfree.Base.{
  ℕ, ◌+◌, ◌<◌, ◌≡◌, ◌≢◌, ◌⊎◌, refl, ap, sym, ◌∙◌, none, some, inl, inr, arith, Option-cases, ◌==◌,
  if◌then◌else◌, some_injective, none_ne_some, ℕ_discrete, List, ◌∷◌,
}
use dlfree.Std.HashMap.View.{head?, add-view}
use dlfree.Std.UnionSet.{
  Cell, UnionSet, put_cell, union_set_cell_create, union_set_add, union_set_find_set_parent,
}
use dlfree.Std.UnionSet.Forest.{IsForest, Top, top, below}
use dlfree.Std.UnionSet.Merge.{cell_of, IsUnionSet, find-InTree, find_none, InTree-find}

head_hit : (d x : ℕ) (xs ys : List ℕ) → head? (if d == d then x ∷ xs else ys) ≡ some x
head_hit d x xs ys = ground arith

head_miss : (d' d : ℕ) (xs ys : List ℕ) → d' ≢ d → head? (if d' == d then xs else ys) ≡ head? ys
head_miss d' d xs ys other = ground (arith, other)

below_not : {t n : ℕ} → t < n → t ≡ n → ⊥
below_not h e = omega arith

-- A new item is a set of its own.
module _ (u : UnionSet) (d : ℕ) (v : IsUnionSet u) where
  abbrev grown : ℕ → Cell
  grown = put_cell u.cells u.ncells (union_set_cell_create d u.nset)

  grown-old : (c : ℕ) → c < u.ncells → grown c ≡ u.cells c
  grown-old c h = ground arith

  grown-new : (grown u.ncells).parent ≡ none
  unfolding union_set_cell_create
  grown-new = ground arith

  grown-cases : (c : ℕ) → c < u.ncells + 1 → (c < u.ncells) ⊎ (c ≡ u.ncells)
  grown-cases c h = ground arith

  grown-Top : {c t : ℕ} → c < u.ncells → Top u.cells c t → Top grown c t
  grown-Top {c} {t} h (top e no_parent) =
      top e (ap (λ (x : Cell). x.parent) (grown-old c h) ∙ no_parent)
  grown-Top {c} {t} h (below {p} up rest) =
      below (ap (λ (x : Cell). x.parent) (grown-old c h) ∙ up)
        (grown-Top (v.forest.parents c p h up) rest)

  grown-parent :
      (c p : ℕ)
      → c < u.ncells + 1
      → (grown c).parent ≡ some p
      → (c < u.ncells) × ((u.cells c).parent ≡ some p)
  grown-parent c p h e = elim (grown-cases c h) [
    | inl old ↦ (old, sym (ap (λ (x : Cell). x.parent) (grown-old c old)) ∙ e)
    | inr new ↦ absurd (none_ne_some (sym grown-new ∙ rw new at e))
  ]

  grown-IsForest : IsForest grown (u.ncells + 1)
  grown-IsForest = record {
    parents = λ c p h e.
        let (old, up) = grown-parent c p h e in let lt = v.forest.parents c p old up in omega arith;
    heights = λ c p h e.
        let (old, up) = grown-parent c p h e in
        rw (grown-old c old, grown-old p (v.forest.parents c p old up))
          (v.forest.heights c p old up);
  }

  -- Adding a new item to a valid union set returns, keeps the set valid, and gives the item a top
  -- parent of its own; every other item keeps what is found for it, and none had the new top parent.
  pub union_set_add-new :
      (u' : UnionSet) × (union_set_add u d ≡ some u')
      × IsUnionSet u'
      × (union_set_find_set_parent u' d ≡ some u.ncells)
      × ((d' : ℕ)
          → d' ≢ d
          → (union_set_find_set_parent u' d' ≡ union_set_find_set_parent u d')
            × (union_set_find_set_parent u d' ≢ some u.ncells))
  unfolding union_set_add
  union_set_add-new =
      let (m, run, valid, _, views) = add-view u.cell_map d u.ncells v.map in
      let u' : UnionSet = record {
        cell_map = m;
        cells = grown;
        ncells = u.ncells + 1;
        nset = u.nset + 1;
      } in
      let here : cell_of u' d ≡ some u.ncells = ap head? (views d) ∙ head_hit d u.ncells _ _ in
      let elsewhere : (d' : ℕ) → d' ≢ d → cell_of u' d' ≡ cell_of u d' =
        λ d' other. ap head? (views d') ∙ head_miss d' d _ _ other in
      let good : IsUnionSet u' = record {
        map = valid;
        forest = grown-IsForest;
        known = λ d' c e. elim (ℕ_discrete d' d) [
          | yes same ↦
              let at : u.ncells ≡ c = some_injective (sym here ∙ rw same at e) in omega arith
          | no other ↦ let lt = v.known d' c (sym (elsewhere d' other) ∙ e) in omega arith
        ];
      } in
      (
        u',
        rw run,
        good,
        InTree-find u' d u.ncells good
            (record { cell = u.ncells; at = here; tree = top refl grown-new }),
        λ d' other. elim (Option-cases (cell_of u d')) [
          | inl e ↦ (
            find_none u' d' good (elsewhere d' other ∙ e) ∙ sym (find_none u d' v e),
            λ found. none_ne_some (sym (find_none u d' v e) ∙ found),
          )
          | inr (c, e) ↦
              let (t, found, i, lt) = find-InTree u d' c v e in
              (
                InTree-find u' d' t good (record {
                  cell = i.cell;
                  at = elsewhere d' other ∙ i.at;
                  tree = grown-Top (v.known d' i.cell i.at) i.tree;
                })
                    ∙ sym found,
                λ at. below_not lt (some_injective (sym found ∙ at)),
              )
        ],
      )
