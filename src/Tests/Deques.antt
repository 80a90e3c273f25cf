-- ===== src/Tests/Deques.antt =====
-- A list of two cells.
use dlfree.Base.{
  false, if◌then◌else◌, has, ◌≤◌, ◌<◌, ◌⊎◌, ℕ, ◌≡◌, refl, Option, none, some, [], ◌∷◌, ◌==◌,
  if◌then◌else◌, has, arith,
}
use dlfree.Std.Deque.{
  Heap, Deque, list_destroy, list_insert, list_remove, list_append, list_create, list_pop,
}
use dlfree.Std.Deque.Ring.{last_next, one_next, last_prev, one_prev}
use dlfree.Std.Deque.View.{IsDeque}
use dlfree.Std.Deque.Destroy.{list_destroy-live}
use dlfree.Std.Deque.Middle.{list_insert-Represents, list_remove-Represents}
use dlfree.Std.Deque.Spec.{pop, spec, run, Represents, Agrees, run-Agrees}

-- The ring through the cells 2 and 3.
abbrev two : Heap ℕ
two = record {
  data_of = λ j. if j == 2 then 20 else (if j == 3 then 30 else 0);
  next = λ j. if j == 1 then 2 else (if j == 2 then 3 else 1);
  prev = λ j. if j == 1 then 3 else (if j == 2 then 1 else 2);
  live = λ j. has j (1 ∷ 2 ∷ 3 ∷ []);
}

abbrev two_list : Deque
two_list = record { head = 1; n = 2 }

two-IsDeque : IsDeque two two_list (2 ∷ 3 ∷ [])
two-IsDeque = record {
  nexts = one_next refl (one_next refl (last_next refl));
  prevs = one_prev refl (one_prev refl (last_prev refl));
  once = refl;
  there = λ j h. h;
  size = refl;
  null = refl;
}

two-Represents : Represents two two_list (20 ∷ 30 ∷ [])
two-Represents = (2 ∷ 3 ∷ [], two-IsDeque, refl)

run-Agrees_example : Agrees (spec pop (20 ∷ 30 ∷ [])) (run pop 4 two two_list)
run-Agrees_example =
    run-Agrees pop (20 ∷ 30 ∷ []) two two_list 4 two-Represents refl
      (λ e. absurd (omega (arith, e)))

list_insert-Represents_example :
    ((1 ≤ 2)
      × (h' : Heap ℕ) × (lt' : Deque) × (list_insert two two_list 1 25 4 ≡ some (h', lt'))
      × Represents h' lt' (20 ∷ 25 ∷ 30 ∷ []))
    ⊎ ((2 < 1) × (list_insert two two_list 1 25 4 ≡ none))
list_insert-Represents_example =
    list_insert-Represents (20 ∷ 30 ∷ []) 1 25 two two_list 4 two-Represents refl
      (λ e. absurd (omega (arith, e)))

list_remove-Represents_example :
    (h' : Heap ℕ) × (lt' : Deque) × (list_remove two two_list 3 ≡ some (30, h', lt'))
    × Represents h' lt' (20 ∷ [])
list_remove-Represents_example = list_remove-Represents two two_list (2 ∷ []) [] 3 two-IsDeque

list_destroy-live_example :
    (h' : Heap ℕ) × (list_destroy two two_list ≡ some h')
    × ((j : ℕ) → h'.live j ≡ (if has j (1 ∷ 2 ∷ 3 ∷ []) then false else two.live j))
list_destroy-live_example = list_destroy-live two two_list (2 ∷ 3 ∷ []) two-IsDeque

abbrev data_after : Option (ℕ × Heap ℕ × Deque) → Option (ℕ × ℕ)
data_after none = none
data_after (some (x, h, lt)) = some (x, lt.n)

remove-first : data_after (list_remove two two_list 2) ≡ some (20, 1)
unfolding list_remove dlfree.Std.Deque.list_cell_prev dlfree.Std.Deque.list_cell_next
    dlfree.Std.Deque.set_next dlfree.Std.Deque.set_prev dlfree.Std.Deque.list_cell_data
remove-first = refl
