-- ===== src/Std/Deque.antt =====
-- src/std/list.c: a list of cells on the heap, linked both ways in a ring through a cell that holds
-- nothing. A cell is known by its address; the address of a new cell is an argument. `NULL` is 0. An
-- access to a cell that is not there and a failed assertion are `none`.
pub mod Ring
pub mod View
pub mod Refine
pub mod Spec
pub mod Middle
pub mod Destroy
use dlfree.Base.{
  ℕ, zero, suc, ◌+◌, ◌-◌, Bool, true, false, not, ◌&&◌, Option, none, some, List, [], ◌∷◌, ◌++◌,
  ltb, ◌==◌, if◌then◌else◌,
}
use dlfree.Std.Bytes.{◌>>=◌}

-- The cells, with a test for those that are allocated.
pub record Heap (A : Type 0) : Type 0 where
  pub data_of : ℕ → A
  pub next : ℕ → ℕ
  pub prev : ℕ → ℕ
  pub live : ℕ → Bool

pub record Deque : Type 0 where
  pub head : ℕ
  pub n : ℕ

abbrev pub upd : {B : Type 0} → (ℕ → B) → ℕ → B → ℕ → B
upd f i b j = if j == i then b else f j

module _ {A : Type 0} where
  unfoldable pub list_cell_create : A → (cell : ℕ) → Heap A → Heap A
  list_cell_create x cell h = record {
    data_of = upd h.data_of cell x;
    next = upd h.next cell 0;
    prev = upd h.prev cell 0;
    live = upd h.live cell true;
  }

  -- The code also returns where the cell's `next` led; `list_destroy`, which uses it, reads it first.
  unfoldable pub list_cell_destroy : (cell : ℕ) → Heap A → Heap A
  list_cell_destroy cell h = record h { next = upd h.next cell 0; live = upd h.live cell false }

  unfoldable pub list_cell_data : Heap A → ℕ → Option A
  list_cell_data h cell = if h.live cell then some (h.data_of cell) else none

  unfoldable pub list_cell_next : Heap A → ℕ → Option ℕ
  list_cell_next h cell = if h.live cell then some (h.next cell) else none

  unfoldable pub list_cell_prev : Heap A → ℕ → Option ℕ
  list_cell_prev h cell = if h.live cell then some (h.prev cell) else none

  unfoldable pub set_next : (cell to : ℕ) → Heap A → Option (Heap A)
  set_next cell to h = if h.live cell then some (record h { next = upd h.next cell to }) else none

  unfoldable pub set_prev : (cell to : ℕ) → Heap A → Option (Heap A)
  set_prev cell to h = if h.live cell then some (record h { prev = upd h.prev cell to }) else none

  -- `nothing` is what the cell of the ring holds.
  unfoldable pub list_create : (nothing : A) → (dummy : ℕ) → Heap A → Option (Heap A × Deque)
  list_create nothing dummy h = do
    h₁ ← set_next dummy dummy (list_cell_create nothing dummy h)
    h₂ ← set_prev dummy dummy h₁
    some (h₂, record { head = dummy; n = 0 })

  unfoldable pub list_append : Heap A → Deque → A → (cell : ℕ) → Option (Heap A × Deque)
  list_append h lt x cell = do
    let h₁ = list_cell_create x cell h
    tail ← list_cell_prev h₁ lt.head
    h₂ ← set_prev cell tail h₁
    h₃ ← set_next cell lt.head h₂
    tail' ← list_cell_prev h₃ lt.head
    h₄ ← set_next tail' cell h₃
    h₅ ← set_prev lt.head cell h₄
    some (h₅, record lt { n = lt.n + 1 })

  unfoldable pub list_appendleft : Heap A → Deque → A → (cell : ℕ) → Option (Heap A × Deque)
  list_appendleft h lt x cell = do
    let h₁ = list_cell_create x cell h
    first ← list_cell_next h₁ lt.head
    h₂ ← set_next cell first h₁
    h₃ ← set_prev cell lt.head h₂
    first' ← list_cell_next h₃ lt.head
    h₄ ← set_prev first' cell h₃
    h₅ ← set_next lt.head cell h₄
    some (h₅, record lt { n = lt.n + 1 })

  -- The loop of `list_insert`: `i` cells on.
  unfoldable pub walk : Heap A → (head : ℕ) → (i cell : ℕ) → Option ℕ
  walk h head zero cell = some cell
  walk h head (suc i) cell = do
    next ← list_cell_next h cell
    (if next == head then none else walk h head i next)

  unfoldable pub list_insert : Heap A → Deque → (i : ℕ) → A → (cell : ℕ) → Option (Heap A × Deque)
  list_insert h lt i x cell = do
    let h₁ = list_cell_create x cell h
    prev ← walk h₁ lt.head i lt.head
    next ← list_cell_next h₁ prev
    h₂ ← set_next cell next h₁
    h₃ ← set_prev cell prev h₂
    h₄ ← set_next prev cell h₃
    h₅ ← set_prev next cell h₄
    some (h₅, record lt { n = lt.n + 1 })

  unfoldable pub list_remove : Heap A → Deque → (cell : ℕ) → Option (A × Heap A × Deque)
  list_remove h lt cell = do
    prev ← list_cell_prev h cell
    next ← list_cell_next h cell
    after ← list_cell_next h prev
    after' ← list_cell_next h after
    (if ((not (prev == 0) && not (next == 0)) && (after' == next))
          && (not (cell == lt.head) && ltb 0 lt.n)
        then (do
          h₁ ← set_next prev next h
          h₂ ← set_prev next prev h₁
          x ← list_cell_data h₂ cell
          some (x, list_cell_destroy cell h₂, record lt { n = lt.n - 1 }))
        else none)

  unfoldable pub list_popleft : Heap A → Deque → Option (A × Heap A × Deque)
  list_popleft h lt = do
    first ← list_cell_next h lt.head
    (if first == lt.head then none else (do
      second ← list_cell_next h first
      h₁ ← set_prev second lt.head h
      second' ← list_cell_next h₁ first
      h₂ ← set_next lt.head second' h₁
      x ← list_cell_data h₂ first
      some (x, list_cell_destroy first h₂, record lt { n = lt.n - 1 })))

  unfoldable pub list_pop : Heap A → Deque → Option (A × Heap A × Deque)
  list_pop h lt = do
    tail ← list_cell_prev h lt.head
    (if tail == lt.head then none else (do
      before ← list_cell_prev h tail
      h₁ ← set_prev lt.head before h
      before' ← list_cell_prev h₁ tail
      h₂ ← set_next before' lt.head h₁
      x ← list_cell_data h₂ tail
      some (x, list_cell_destroy tail h₂, record lt { n = lt.n - 1 })))

abbrev pub list_size : Deque → ℕ
list_size lt = lt.n

module _ {A : Type 0} where
  -- The loop of `list_destroy`, from `cell` on; `none` also means that the fuel ran out.
  unfoldable pub destroy_loop : (fuel : ℕ) → (head cell : ℕ) → Heap A → Option (Heap A)
  destroy_loop zero head cell h = none
  destroy_loop (suc fuel) head cell h = do
    next ← list_cell_next h cell
    let h' = list_cell_destroy cell h
    let rest = destroy_loop fuel head next h'
    (if next == head then some h' else rest)

  unfoldable pub list_destroy : Heap A → Deque → Option (Heap A)
  list_destroy h lt = destroy_loop (suc lt.n) lt.head lt.head h
