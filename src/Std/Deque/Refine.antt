-- ===== src/Std/Deque/Refine.antt =====
-- The operations of src/std/list.c do to the ring what they do to a sequence.
use dlfree.Base.{
  ℕ, ◌+◌, ◌-◌, ◌≡◌, ◌≢◌, refl, sym, ◌∙◌, Bool, true, false, Option, some, ◌==◌, if◌then◌else◌,
  arith,
}
use dlfree.Std.Bytes.{◌>>=◌}
use dlfree.Std.Deque.{
  Heap, Deque, upd, list_cell_create, list_cell_destroy, list_cell_data, list_cell_next,
  list_cell_prev, set_next, set_prev, list_append, list_appendleft, list_popleft, list_pop,
}
use dlfree.Std.Deque.View.{Linked, Unlinked}

pub then_run :
    {B C : Type 0} {m : Option B} (f : B → Option C) {b : B} {r : Option C}
    → m ≡ some b
    → f b ≡ r
    → (m >>= f) ≡ r
then_run f e e' = rw e e'

pub upd_same : {B : Type 0} (f : ℕ → B) (i : ℕ) (b : B) → upd f i b i ≡ b
upd_same f i b = ground arith

pub upd_other : {B : Type 0} (f : ℕ → B) (i j : ℕ) (b : B) → j ≢ i → upd f i b j ≡ f j
upd_other f i j b h = ground (arith, h)

module _ {A : Type 0} (h : Heap A) (c v : ℕ) (live : h.live c ≡ true) where
  pub next_at : h.next c ≡ v → list_cell_next h c ≡ some v
  unfolding list_cell_next
  next_at e = rw (live, e) refl

  pub prev_at : h.prev c ≡ v → list_cell_prev h c ≡ some v
  unfolding list_cell_prev
  prev_at e = rw (live, e) refl

  pub set_next_at : set_next c v h ≡ some (record h { next = upd h.next c v })
  unfolding set_next
  set_next_at = simp (live)

  pub set_prev_at : set_prev c v h ≡ some (record h { prev = upd h.prev c v })
  unfolding set_prev
  set_prev_at = simp (live)

  pub data_at : list_cell_data h c ≡ some (h.data_of c)
  unfolding list_cell_data
  data_at = rw live refl

module _ {A : Type 0} (h : Heap A) (lt : Deque) (cell : ℕ) (x : A) where
  abbrev pub made : Heap A
  made = record {
    data_of = upd h.data_of cell x;
    next = upd h.next cell 0;
    prev = upd h.prev cell 0;
    live = upd h.live cell true;
  }

  pub made_live : (j : ℕ) → h.live j ≡ true → upd h.live cell true j ≡ true
  made_live j e = by_bit (j == cell)
    where
      by_bit : (t : Bool) → (if t then true else h.live j) ≡ true
      by_bit true = refl
      by_bit false = e

  -- The heap after `cell` was linked in between `p` and `q`.
  abbrev pub joined : (p q : ℕ) → Heap A
  joined p q = record made {
    next = upd (upd made.next cell q) p cell;
    prev = upd (upd made.prev cell p) q cell;
  }

  pub joined-Linked : (p q : ℕ) → p ≢ cell → q ≢ cell → Linked h (joined p q) cell p q x
  joined-Linked p q new new' = record {
    next_p = upd_same (upd made.next cell q) p cell;
    next_cell =
        upd_other (upd made.next cell q) p cell cell (λ e. new (sym e)) ∙ upd_same made.next cell q;
    next_else = λ j a b.
        upd_other (upd made.next cell q) p j cell a
        ∙ (upd_other made.next cell j q b ∙ upd_other h.next cell j 0 b);
    prev_q = upd_same (upd made.prev cell p) q cell;
    prev_cell =
        upd_other (upd made.prev cell p) q cell cell (λ e. new' (sym e))
        ∙ upd_same made.prev cell p;
    prev_else = λ j a b.
        upd_other (upd made.prev cell p) q j cell a
        ∙ (upd_other made.prev cell j p b ∙ upd_other h.prev cell j 0 b);
    live = λ j. refl;
    data_of = λ j. refl;
  }

  module _ (p : ℕ) (tail : h.prev lt.head ≡ p) (new : lt.head ≢ cell) (new' : p ≢ cell)
      (at_head : h.live lt.head ≡ true) (at_tail : h.live p ≡ true) where
    pub list_append-run :
        list_append h lt x cell ≡ some (joined p lt.head, record lt { n = lt.n + 1 })
    unfolding list_append list_cell_create
    list_append-run =
        then_run _
          (prev_at made lt.head p (made_live lt.head at_head)
            (upd_other h.prev cell lt.head 0 new ∙ tail))
          (then_run _ (set_prev_at made cell p (upd_same h.live cell true)) (
            then_run _ (set_next_at _ cell lt.head (upd_same h.live cell true)) (
              then_run _
                (prev_at _ lt.head p (made_live lt.head at_head) (
                  upd_other made.prev cell lt.head p new
                  ∙ (upd_other h.prev cell lt.head 0 new ∙ tail)))
                (then_run _ (set_next_at _ p cell (made_live p at_tail))
                  (then_run _ (set_prev_at _ lt.head cell (made_live lt.head at_head)) refl)))))

  module _ (q : ℕ) (first : h.next lt.head ≡ q) (new : lt.head ≢ cell) (new' : q ≢ cell)
      (at_head : h.live lt.head ≡ true) (at_first : h.live q ≡ true) where
    pub list_appendleft-run :
        list_appendleft h lt x cell ≡ some (joined lt.head q, record lt { n = lt.n + 1 })
    unfolding list_appendleft list_cell_create
    list_appendleft-run =
        then_run _
          (next_at made lt.head q (made_live lt.head at_head)
            (upd_other h.next cell lt.head 0 new ∙ first))
          (then_run _ (set_next_at made cell q (upd_same h.live cell true)) (
            then_run _ (set_prev_at _ cell lt.head (upd_same h.live cell true)) (
              then_run _
                (next_at _ lt.head q (made_live lt.head at_head) (
                  upd_other made.next cell lt.head q new
                  ∙ (upd_other h.next cell lt.head 0 new ∙ first)))
                (then_run _ (set_prev_at _ q cell (made_live q at_first))
                  (then_run _ (set_next_at _ lt.head cell (made_live lt.head at_head)) refl)))))

-- A cell that is linked out between `p` and `q`.
module _ {A : Type 0} (h : Heap A) (lt : Deque) (cell p q : ℕ) where
  abbrev pub parted : Heap A
  parted = record h { next = upd h.next p q; prev = upd h.prev q p }

  pub parted-Unlinked : p ≢ cell → Unlinked h (list_cell_destroy cell parted) cell p q
  unfolding list_cell_destroy
  parted-Unlinked apart = record {
    next_p = upd_other (upd h.next p q) cell p 0 apart ∙ upd_same h.next p q;
    next_else = λ j a b. upd_other (upd h.next p q) cell j 0 b ∙ upd_other h.next p j q a;
    prev_q = upd_same h.prev q p;
    prev_else = λ j a b. upd_other h.prev q j p a;
    live = λ j. refl;
    data_of = λ j. refl;
  }

  module _ (here : h.live cell ≡ true) (at_p : h.live p ≡ true) (at_q : h.live q ≡ true)
      (after : h.next cell ≡ q) (before : h.prev cell ≡ p) where
    pub list_popleft-run :
        p ≡ lt.head
        → h.next lt.head ≡ cell
        → cell ≢ lt.head
        → list_popleft h lt
          ≡ some (h.data_of cell, list_cell_destroy cell parted, record lt { n = lt.n - 1 })
    unfolding list_popleft
    list_popleft-run e first apart =
        let e' : (cell == lt.head) ≡ false = ground (arith, apart) in
        let at_head : h.live lt.head ≡ true = rw (← e) at_p in
        then_run _ (next_at h lt.head cell at_head first) (
          rw e' (
            then_run _ (next_at h cell q here after) (
              then_run _ (set_prev_at h q lt.head at_q) (
                then_run _ (next_at _ cell q here after) (
                  then_run _ (set_next_at _ lt.head q at_head)
                    (then_run _ (data_at _ cell 0 here) (rw e refl)))))))

    pub list_pop-run :
        q ≡ lt.head
        → h.prev lt.head ≡ cell
        → cell ≢ lt.head
        → list_pop h lt
          ≡ some (h.data_of cell, list_cell_destroy cell parted, record lt { n = lt.n - 1 })
    unfolding list_pop
    list_pop-run e last apart =
        let e' : (cell == lt.head) ≡ false = ground (arith, apart) in
        let at_head : h.live lt.head ≡ true = rw (← e) at_q in
        then_run _ (prev_at h lt.head cell at_head last) (
          rw e' (
            then_run _ (prev_at h cell p here before) (
              then_run _ (set_prev_at h lt.head p at_head) (
                then_run _ (prev_at _ cell p here (upd_other h.prev lt.head cell p apart ∙ before))
                  (then_run _ (set_next_at _ p lt.head at_p)
                    (then_run _ (data_at _ cell 0 here) (rw e refl)))))))
