-- ===== src/Std/Deque/Destroy.antt =====
-- `list_destroy` of src/std/list.c.
use dlfree.Base.{
  ℕ, suc, ◌≡◌, ◌≢◌, refl, ap, ◌∙◌, Bool, true, false, ◌||◌, some, List, [], ◌∷◌, ◌==◌,
  if◌then◌else◌, length, has, distinct, arith,
}
use dlfree.Std.Deque.{Heap, Deque, list_cell_destroy, destroy_loop, list_destroy}
use dlfree.Std.Deque.Ring.{
  Nexts, last_next, one_next, Nexts-frame, in_ne, distinct-front, distinct-rest, mid-has, out-rest,
}
use dlfree.Std.Deque.View.{IsDeque}
use dlfree.Std.Deque.Refine.{then_run, upd_other, next_at}

module _ {A : Type 0} (head : ℕ) where
  destroy_loop-lem :
      (h : Heap A) (a : ℕ) (cs : List ℕ)
      → Nexts h.next a cs head
      → ((j : ℕ) → has j (a ∷ cs) ≡ true → h.live j ≡ true)
      → distinct (a ∷ cs) ≡ true
      → has head cs ≡ false
      → (h' : Heap A) × (destroy_loop (suc (length cs)) head a h ≡ some h')
        × ((j : ℕ) → h'.live j ≡ (if has j (a ∷ cs) then false else h.live j))
  unfolding destroy_loop list_cell_destroy
  destroy_loop-lem h a [] (last_next e) live d out =
      let same : (head == head) ≡ true = ground arith in
      (
        list_cell_destroy a h,
        then_run _ (next_at h a head (live a (mid-has a [] [])) e) (rw same refl),
        λ j. by_bit (j == a) (h.live j),
      )
    where
      by_bit : (t b : Bool) → (if t then false else b) ≡ (if t || false then false else b)
      by_bit true b = refl
      by_bit false b = refl
  destroy_loop-lem h a (c ∷ cs) (one_next e rest) live d out =
      let h₁ = list_cell_destroy a h in
      let apart : c ≢ head = in_ne head c (c ∷ cs) out (mid-has c [] cs) in
      let e_c : (c == head) ≡ false = ground (arith, apart) in
      let not_in = distinct-front a (c ∷ cs) d in
      let other : (j : ℕ) → has j (c ∷ cs) ≡ true → j ≢ a =
        (λ j h_j. in_ne a j (c ∷ cs) not_in h_j) in
      let nexts =
        Nexts-frame h.next h₁.next c head cs (λ j h_j. upd_other h.next a j 0 (other j h_j)) rest in
      let (h', run, freed) =
        destroy_loop-lem h₁ c cs nexts
          (λ j h_j. upd_other h.live a j false (other j h_j) ∙ live j (behind j h_j))
          (distinct-rest a (c ∷ cs) d) (out-rest head c cs out) in
      (
        h',
        then_run _ (next_at h a c (live a (mid-has a [] (c ∷ cs))) e) (rw e_c run),
        λ j. freed j ∙ by_bit (j == a) (has j (c ∷ cs)) (h.live j),
      )
    where
      behind : (j : ℕ) → has j (c ∷ cs) ≡ true → has j (a ∷ c ∷ cs) ≡ true
      behind j e = ground (arith, e)

      by_bit :
          (t u b : Bool)
          → (if u then false else (if t then false else b)) ≡ (if t || u then false else b)
      by_bit true true b = refl
      by_bit true false b = refl
      by_bit false true b = refl
      by_bit false false b = refl

-- Destroying a list ends, without an access to a cell that is gone, and just the cells of its ring
-- are no longer allocated.
pub list_destroy-live :
    {A : Type 0} (h : Heap A) (lt : Deque) (cs : List ℕ)
    → IsDeque h lt cs
    → (h' : Heap A) × (list_destroy h lt ≡ some h')
      × ((j : ℕ) → h'.live j ≡ (if has j (lt.head ∷ cs) then false else h.live j))
unfolding list_destroy
list_destroy-live h lt cs v =
    let (h', run, freed) =
      destroy_loop-lem lt.head h lt.head cs v.nexts v.there v.once
        (distinct-front lt.head cs v.once) in
    (h', ap (λ n. destroy_loop (suc n) lt.head lt.head h) v.size ∙ run, freed)
