-- ===== src/Tests/Std.antt =====
-- The data structures on small inputs.
use dlfree.Base.{ℕ, ◌≡◌, ◌≢◌, ◌⊎◌, ◌∙◌, ap, refl, some, [], ◌∷◌, arith, ◌==◌, if◌then◌else◌}
use dlfree.Std.HashMap.{HashMap, hash_map_create, hash_map_add, hash_map_find, hash_map_pop}
use dlfree.Std.HashMap.View.{IsValid, view, head?, tail, create-view, find-view, add-view, pop-view}
use dlfree.Std.UnionSet.{
  UnionSet, union_set_create, union_set_add, union_set_find_set_parent, union_set_merge_set,
}
use dlfree.Std.UnionSet.Add.{union_set_add-new}
use dlfree.Std.UnionSet.Merge.{IsUnionSet, create-IsUnionSet, union_set_merge_set-joins}

-- Two keys of one bucket.
abbrev table : HashMap ℕ
table = record { bucket = ((4, 40) ∷ (1, 10) ∷ []) ∷ [] ∷ [] ∷ []; size = 3; c = 2; key_c = 0 }

table-IsValid : IsValid table
table-IsValid = record { nonempty = omega arith; sized = refl; counted = refl }

create-view_example : let m : HashMap ℕ = hash_map_create 3 in IsValid m × ((k : ℕ) → view m k ≡ [])
create-view_example = create-view {V = ℕ} 3 (omega arith)

find-view_example : hash_map_find table 4 ≡ some (head? (view table 4))
find-view_example = find-view table 4 table-IsValid

add-view_example :
    (m' : HashMap ℕ) × (hash_map_add table 4 41 ≡ some m')
    × IsValid m'
    × (m'.c ≡ 3)
    × ((j : ℕ) → view m' j ≡ (if j == 4 then 41 ∷ view table 4 else view table j))
add-view_example = add-view table 4 41 table-IsValid

pop-view_example :
    (m' : HashMap ℕ) × (hash_map_pop table 4 ≡ some (head? (view table 4), m'))
    × IsValid m'
    × ((j : ℕ) → view m' j ≡ (if j == 4 then tail (view table 4) else view table j))
pop-view_example = pop-view table 4 table-IsValid

union_set_add-new_example :
    (u' : UnionSet) × (union_set_add union_set_create 7 ≡ some u')
    × IsUnionSet u'
    × (union_set_find_set_parent u' 7 ≡ some union_set_create.ncells)
    × ((d' : ℕ)
        → d' ≢ 7
        → (union_set_find_set_parent u' d' ≡ union_set_find_set_parent union_set_create d')
          × (union_set_find_set_parent union_set_create d' ≢ some union_set_create.ncells))
union_set_add-new_example = union_set_add-new union_set_create 7 create-IsUnionSet

-- The items 7 and 8, in sets of their own.
add_7 :
    (u' : UnionSet) × (union_set_add union_set_create 7 ≡ some u')
    × IsUnionSet u'
    × (union_set_find_set_parent u' 7 ≡ some union_set_create.ncells)
    × ((d' : ℕ)
        → d' ≢ 7
        → (union_set_find_set_parent u' d' ≡ union_set_find_set_parent union_set_create d')
          × (union_set_find_set_parent union_set_create d' ≢ some union_set_create.ncells))
add_7 = union_set_add-new union_set_create 7 create-IsUnionSet

abbrev one_item : UnionSet
one_item = add_7.0

add_8 :
    (u' : UnionSet) × (union_set_add one_item 8 ≡ some u')
    × IsUnionSet u'
    × (union_set_find_set_parent u' 8 ≡ some one_item.ncells)
    × ((d' : ℕ)
        → d' ≢ 8
        → (union_set_find_set_parent u' d' ≡ union_set_find_set_parent one_item d')
          × (union_set_find_set_parent one_item d' ≢ some one_item.ncells))
add_8 = union_set_add-new one_item 8 add_7.2

abbrev two_items : UnionSet
two_items = add_8.0

seven_stays :
    (union_set_find_set_parent two_items 7 ≡ some union_set_create.ncells)
    × (union_set_create.ncells ≢ one_item.ncells)
seven_stays =
    let (same, apart) = add_8.4 7 (λ e. ground (arith, e)) in
    (same ∙ add_7.3, λ e. apart (add_7.3 ∙ ap some e))

union_set_merge_set-joins_example :
    (u' : UnionSet) × (union_set_merge_set two_items 7 8 ≡ some u')
    × IsUnionSet u'
    × ((winner : ℕ) × ((winner ≡ union_set_create.ncells) ⊎ (winner ≡ one_item.ncells))
        × ((d t : ℕ)
            → union_set_find_set_parent two_items d ≡ some t
            → union_set_find_set_parent u' d
              ≡ some (
                  if t == union_set_create.ncells
                  then winner
                  else if t == one_item.ncells
                  then winner
                  else t)))
union_set_merge_set-joins_example =
    union_set_merge_set-joins two_items 7 8 union_set_create.ncells one_item.ncells add_8.2
      seven_stays.0 add_8.3 seven_stays.1
