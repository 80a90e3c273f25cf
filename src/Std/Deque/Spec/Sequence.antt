-- ===== src/Std/Deque/Spec/Sequence.antt =====
-- The operations at the ends of a list of src/std/list.c, on a sequence and in the code.
use dlfree.Base.{ℕ, ◌≡◌, refl, ap, Option, none, some, List, [], ◌∷◌, ◌++◌}
use dlfree.Std.Bytes.{◌>>=◌}
use dlfree.Std.Deque.{Heap, Deque, list_append, list_appendleft, list_popleft, list_pop}
use dlfree.Std.Deque.View.{IsDeque, contents}

-- The operations at the ends.
pub data Op (A : Type 0) : Type 0 where
  append : A → Op A
  appendleft : A → Op A
  popleft pop : Op A

-- What they do to a sequence, with the element that is returned. To pop from an empty one fails.
abbrev pub split_last : {A : Type 0} → List A → Option (List A × A)
split_last [] = none
split_last (x ∷ xs) = elim (split_last xs) [
  | none ↦ some ([], x)
  | some (rest, y) ↦ some (x ∷ rest, y)
]

abbrev pub spec : {A : Type 0} → Op A → List A → Option (Option A × List A)
spec (append x) xs = some (none, xs ++ x ∷ [])
spec (appendleft x) xs = some (none, x ∷ xs)
spec popleft [] = none
spec popleft (x ∷ xs) = some (some x, xs)
spec pop xs = do (rest, x) ← split_last xs; some (some x, rest)

-- The operation of the code that belongs to it; `cell` is the address of a new cell.
unfoldable pub run :
    {A : Type 0} → Op A → (cell : ℕ) → Heap A → Deque → Option (Option A × Heap A × Deque)
run (append x) cell h lt = do (h', lt') ← list_append h lt x cell; some (none, h', lt')
run (appendleft x) cell h lt = do (h', lt') ← list_appendleft h lt x cell; some (none, h', lt')
run popleft cell h lt = do (x, h', lt') ← list_popleft h lt; some (some x, h', lt')
run pop cell h lt = do (x, h', lt') ← list_pop h lt; some (some x, h', lt')

-- A ring of cells that holds the elements in order.
abbrev pub Represents : {A : Type 0} → Heap A → Deque → List A → Type 0
Represents h lt xs = (cs : List ℕ) × IsDeque h lt cs × (contents h cs ≡ xs)

-- Either both fail, or both give the same.
abbrev pub Agrees :
    {A : Type 0} → Option (Option A × List A) → Option (Option A × Heap A × Deque) → Type 0
Agrees {A} none r = r ≡ none
Agrees {A} (some (x, xs)) r =
    (h : Heap A) × (lt : Deque) × (r ≡ some (x, h, lt)) × Represents h lt xs

pub append_nil : {A : Type 0} (xs : List A) → xs ++ [] ≡ xs
append_nil [] = refl
append_nil (x ∷ xs) = ap (λ (l : List _). x ∷ l) (append_nil xs)
