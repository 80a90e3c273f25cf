-- ===== src/Std/Vector.antt =====
-- src/std/vector.c: a growing array. `vec` is what the memory holds, of which `n` slots may be read
-- and written; an access beyond them, a failed assertion and a capacity that does not fit an int
-- are `none`. The mutex is taken and given back by each operation, and is not modelled.
pub mod Shift
pub mod Reverse
use dlfree.Base.{
  ℕ, zero, suc, ◌+◌, ◌-◌, ◌*◌, ◌%◌, ◌^◌, Bool, true, false, Option, none, some, List, [], ◌∷◌, ltb,
  leb, ◌==◌, if◌then◌else◌,
}
use dlfree.Std.Bytes.{◌>>=◌}

pub record Vector (X : Type 0) : Type 0 where
  pub n : ℕ
  pub c : ℕ
  pub vec : ℕ → X

-- Memory with one slot written.
abbrev pub put_slot : {X : Type 0} → (ℕ → X) → ℕ → X → ℕ → X
put_slot f i x j = if j == i then x else f j

module _ {X : Type 0} where
  -- `fresh` is what the memory from `malloc` holds.
  unfoldable pub vector_create : (ℕ → X) → ℕ → Vector X
  vector_create fresh n = record { n = n; c = 0; vec = fresh }

  unfoldable pub read_slot : Vector X → ℕ → Option X
  read_slot v i = if ltb i v.n then some (v.vec i) else none

  unfoldable pub write_slot : Vector X → ℕ → X → Option (Vector X)
  write_slot v i x = if ltb i v.n then some (record v { vec = put_slot v.vec i x }) else none

  -- `memcpy` of the elements, within both memories.
  unfoldable pub vector_copy : (ℕ → X) → Vector X → Option (Vector X)
  vector_copy fresh v =
      if leb v.c v.n
      then some (record { n = v.n; c = v.c; vec = λ i. if ltb i v.c then v.vec i else fresh i })
      else none

  -- `realloc` keeps the elements; the slots behind them are `fresh`.
  unfoldable pub expand : (ℕ → X) → Vector X → Option (Vector X)
  expand fresh v =
      if v.c == v.n
      then (if ltb (v.n * 4) (2 ^ 31)
          then some (record v { n = v.n * 4; vec = λ i. if ltb i v.n then v.vec i else fresh i })
          else none)
      else some v

  unfoldable pub vector_add : (ℕ → X) → Vector X → X → Option (Vector X)
  vector_add fresh v x = do
    v₁ ← expand fresh v
    v₂ ← write_slot v₁ v₁.c x
    some (record v₂ { c = v₂.c + 1 })

  unfoldable pub vector_get : Vector X → ℕ → Option X
  vector_get v i = if ltb i v.c then read_slot v i else none

  unfoldable pub vector_last : Vector X → Option X
  vector_last v = if ltb 0 v.c then read_slot v (v.c - 1) else none

  unfoldable pub vector_pop : Vector X → Option (X × Vector X)
  vector_pop v =
      if ltb 0 v.c then (do x ← read_slot v (v.c - 1); some (x, record v { c = v.c - 1 })) else none

  -- The given number of slots, from `i` on, each with what stands behind it.
  unfoldable pub shift_left : ℕ → (i : ℕ) → Vector X → Option (Vector X)
  shift_left zero i v = some v
  shift_left (suc k) i v = do
    x ← read_slot v (i + 1)
    v' ← write_slot v i x
    shift_left k (i + 1) v'

  unfoldable pub vector_del : Vector X → ℕ → Option (X × Vector X)
  vector_del v i =
      if ltb i v.c
      then (do
        x ← read_slot v i
        v' ← shift_left (v.c - i) i v
        some (x, record v' { c = v'.c - 1 }))
      else none

  -- The first slot that holds the element, among the given number from `i` on; the end if none does.
  unfoldable pub find_slot : (X → Bool) → ℕ → (i : ℕ) → Vector X → Option ℕ
  find_slot same zero i v = some i
  find_slot same (suc k) i v = do
    x ← read_slot v i
    (if same x then some i else find_slot same k (i + 1) v)

  unfoldable pub vector_remove : Vector X → (X → Bool) → Option (X × Vector X)
  vector_remove v same = do
    p ← find_slot same v.c 0 v
    (if ltb p v.c
        then (do
          y ← read_slot v p
          v' ← shift_left (v.c - p) p v
          some (y, record v' { c = v'.c - 1 }))
        else none)

  unfoldable pub vector_clear : Vector X → Vector X
  vector_clear v = record v { c = 0 }

  unfoldable pub swap_slots : Vector X → (i j : ℕ) → Option (Vector X)
  swap_slots v i j = do
    x ← read_slot v i
    y ← read_slot v j
    v' ← write_slot v i y
    write_slot v' j x

  -- The two pointers of the loop; the fuel is the number of elements.
  unfoldable pub reverse_loop : ℕ → (p q : ℕ) → Vector X → Option (Vector X)
  reverse_loop zero p q v = some v
  reverse_loop (suc fuel) p q v =
      if ltb p q then (do v' ← swap_slots v p q; reverse_loop fuel (p + 1) (q - 1) v') else some v

  -- An empty vector has no last slot, and no pass.
  unfoldable pub vector_reverse : Vector X → Option (Vector X)
  vector_reverse v = if v.c == 0 then some v else reverse_loop v.c 0 (v.c - 1) v

  unfoldable pub vector_contains : Vector X → (X → Bool) → Option Bool
  vector_contains v same = do p ← find_slot same v.c 0 v; some (ltb p v.c)

  unfoldable pub vector_size : Vector X → ℕ
  vector_size v = v.c

  -- One number of `rand` for each element.
  unfoldable pub shuffle_loop : ℕ → (i : ℕ) → (rand : ℕ → ℕ) → Vector X → Option (Vector X)
  shuffle_loop zero i rand v = some v
  shuffle_loop (suc k) i rand v = do
    v' ← swap_slots v i (rand i % v.c)
    shuffle_loop k (i + 1) rand v'

  unfoldable pub vector_shuffle : (rand : ℕ → ℕ) → Vector X → Option (Vector X)
  vector_shuffle rand v = shuffle_loop v.c 0 rand v
