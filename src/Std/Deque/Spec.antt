-- ===== src/Std/Deque/Spec.antt =====
-- A list of src/std/list.c is a sequence: what its two ends are for.
pub mod Sequence
use dlfree.Base.{
  ℕ, ◌+◌, ◌-◌, ◌≡◌, ◌≢◌, ◌⊎◌, refl, ap, sym, ◌∙◌, true, false, Option, none, some, List, [], ◌∷◌,
  ◌++◌, ◌==◌, has, distinct, inl, inr, arith,
}
use dlfree.Std.Bytes.{◌>>=◌}
use dlfree.Std.Deque.{
  Heap, Deque, list_append, list_appendleft, list_popleft, list_pop, list_cell_destroy,
}
use dlfree.Std.Deque.Ring.{
  last_of, first_of, in_ne, last_of-has, first_of-has, first_of-past, mid-has, distinct-front,
  distinct-rest,
}
use dlfree.Std.Deque.View.{
  IsDeque, contents, map-append, next-last_of, prev-first_of, next-mid, prev-mid, linked-IsDeque,
  linked-contents, unlinked-IsDeque, unlinked-contents,
}
use dlfree.Std.Deque.Refine.{
  joined, joined-Linked, list_append-run, list_appendleft-run, parted, parted-Unlinked,
  list_popleft-run, list_pop-run, next_at, prev_at, then_run,
}
pub use dlfree.Std.Deque.Spec.Sequence.{
  Op, append, appendleft, popleft, pop, split_last, spec, Represents, Agrees,
}
unfoldable pub use dlfree.Std.Deque.Spec.Sequence.{run}
use dlfree.Std.Deque.Spec.Sequence.{append_nil}

module _ {A : Type 0} (h : Heap A) (lt : Deque) (cs : List ℕ) (v : IsDeque h lt cs) (cell : ℕ)
    (new : h.live cell ≡ false) (not_null : cell ≢ 0) (x : A) where
  pub ne_new : (j : ℕ) → h.live j ≡ true → j ≢ cell
  ne_new j live e =
      absurd (let clash : true ≡ false = sym live ∙ (ap h.live e ∙ new) in ground (arith, clash))

  pub head_live : h.live lt.head ≡ true
  head_live = v.there lt.head (ground arith)

  append-Agrees : Agrees (spec (append x) (contents h cs)) (run (append x) cell h lt)
  unfolding run
  append-Agrees =
      let p = last_of lt.head cs in
      let v' : IsDeque h lt (cs ++ []) = rw (append_nil cs) v in
      let live_p : h.live p ≡ true = v'.there p (last_of-has lt.head cs []) in
      let e_run =
        list_append-run h lt cell x p (prev-first_of h.prev lt.head lt.head cs [] v'.prevs)
          (ne_new lt.head head_live) (ne_new p live_p) head_live live_p in
      let l = joined-Linked h lt cell x p lt.head (ne_new p live_p) (ne_new lt.head head_live) in
      (
        joined h lt cell x p lt.head,
        record lt { n = lt.n + 1 },
        rw e_run refl,
        (
          cs ++ cell ∷ [],
          linked-IsDeque h lt cs [] cell (joined h lt cell x p lt.head) x v' new not_null l,
          linked-contents h lt cs [] cell (joined h lt cell x p lt.head) x v' new not_null l,
        ),
      )

  appendleft-Agrees : Agrees (spec (appendleft x) (contents h cs)) (run (appendleft x) cell h lt)
  unfolding run
  appendleft-Agrees =
      let q = first_of cs lt.head in
      let live_q : h.live q ≡ true = v.there q (first_of-has lt.head [] cs) in
      let e_run =
        list_appendleft-run h lt cell x q (next-last_of h.next lt.head lt.head [] cs v.nexts)
          (ne_new lt.head head_live) (ne_new q live_q) head_live live_q in
      let l = joined-Linked h lt cell x lt.head q (ne_new lt.head head_live) (ne_new q live_q) in
      (
        joined h lt cell x lt.head q,
        record lt { n = lt.n + 1 },
        rw e_run refl,
        (
          cell ∷ cs,
          linked-IsDeque h lt [] cs cell (joined h lt cell x lt.head q) x v new not_null l,
          linked-contents h lt [] cs cell (joined h lt cell x lt.head q) x v new not_null l,
        ),
      )

last_of-append : (a : ℕ) (xs : List ℕ) (c : ℕ) → last_of a (xs ++ c ∷ []) ≡ c
last_of-append a [] c = refl
last_of-append a (x ∷ xs) c = last_of-append x xs c

split_last-append : {A : Type 0} (xs : List A) (x : A) → split_last (xs ++ x ∷ []) ≡ some (xs, x)
split_last-append [] x = refl
split_last-append (y ∷ xs) x = rw (split_last-append xs x) refl

pub split-cases : (cs : List ℕ) → (cs ≡ []) ⊎ ((xs : List ℕ) × (c : ℕ) × (cs ≡ xs ++ c ∷ []))
split-cases [] = inl refl
split-cases (c ∷ cs) = elim (split-cases cs) [
  | inl e ↦ inr ([], c, ap (λ (l : List ℕ). c ∷ l) e)
  | inr (xs, d, e) ↦ inr (c ∷ xs, d, ap (λ (l : List ℕ). c ∷ l) e)
]

module _ {A : Type 0} (h : Heap A) (lt : Deque) (cell : ℕ) where
  pub at_head : (cs : List ℕ) → IsDeque h lt cs → h.live lt.head ≡ true
  at_head cs v = v.there lt.head (ground arith)

  list_popleft-empty : IsDeque h lt [] → list_popleft h lt ≡ none
  unfolding list_popleft
  list_popleft-empty v =
      let e : (lt.head == lt.head) ≡ true = ground arith in
      then_run _
        (next_at h lt.head lt.head (at_head [] v)
          (next-last_of h.next lt.head lt.head [] [] v.nexts))
        (rw e refl)

  list_pop-empty : IsDeque h lt [] → list_pop h lt ≡ none
  unfolding list_pop
  list_pop-empty v =
      let e : (lt.head == lt.head) ≡ true = ground arith in
      then_run _
        (prev_at h lt.head lt.head (at_head [] v)
          (prev-first_of h.prev lt.head lt.head [] [] v.prevs))
        (rw e refl)

  popleft-empty : IsDeque h lt [] → run popleft cell h lt ≡ none
  unfolding run
  popleft-empty v = rw (list_popleft-empty v) refl

  pop-empty : IsDeque h lt [] → run pop cell h lt ≡ none
  unfolding run
  pop-empty v = rw (list_pop-empty v) refl

  -- The cell `c` leaves the ring.
  module _ (xs ys : List ℕ) (c : ℕ) (v : IsDeque h lt (xs ++ c ∷ ys)) where
    c_has : has c (lt.head ∷ xs ++ c ∷ ys) ≡ true
    c_has = mid-has c (lt.head ∷ xs) ys

    pub c_apart : c ≢ lt.head
    c_apart =
        in_ne lt.head c (xs ++ c ∷ ys) (distinct-front lt.head (xs ++ c ∷ ys) v.once)
          (mid-has c xs ys)

    pub live_p : h.live (last_of lt.head xs) ≡ true
    live_p = v.there (last_of lt.head xs) (last_of-has lt.head xs (c ∷ ys))

    pub live_q : h.live (first_of ys lt.head) ≡ true
    live_q = v.there (first_of ys lt.head) (first_of-past lt.head c xs ys)

    pub p_apart : last_of lt.head xs ≢ c
    p_apart = last_apart lt.head xs v.once
      where
        last_apart : (a : ℕ) (xs : List ℕ) → distinct (a ∷ xs ++ c ∷ ys) ≡ true → last_of a xs ≢ c
        last_apart a [] d e =
            in_ne a c (c ∷ ys) (distinct-front a (c ∷ ys) d) (mid-has c [] ys) (sym e)
        last_apart a (x ∷ xs) d e = last_apart x xs (distinct-rest a (x ∷ xs ++ c ∷ ys) d) e

    abbrev pub after_part : Heap A
    after_part = list_cell_destroy c (parted h lt c (last_of lt.head xs) (first_of ys lt.head))

    pub left : Represents after_part (record lt { n = lt.n - 1 }) (contents h (xs ++ ys))
    left =
        let u = parted-Unlinked h lt c (last_of lt.head xs) (first_of ys lt.head) p_apart in
        (
          xs ++ ys,
          unlinked-IsDeque h lt xs ys c after_part v u,
          unlinked-contents h lt xs ys c after_part v u,
        )

  popleft-Agrees :
      (c : ℕ) (ys : List ℕ)
      → IsDeque h lt (c ∷ ys)
      → Agrees (spec popleft (contents h (c ∷ ys))) (run popleft cell h lt)
  unfolding run
  popleft-Agrees c ys v =
      let q = first_of ys lt.head in
      let e_run =
        list_popleft-run h lt c lt.head q (v.there c (c_has [] ys c v)) (at_head (c ∷ ys) v)
          (live_q [] ys c v) (next-mid h.next lt.head lt.head c [] ys v.nexts)
          (prev-mid h.prev lt.head lt.head c [] ys v.prevs) refl
          (next-last_of h.next lt.head lt.head [] (c ∷ ys) v.nexts) (c_apart [] ys c v) in
      (after_part [] ys c v, record lt { n = lt.n - 1 }, rw e_run refl, left [] ys c v)

  pop-Agrees :
      (xs : List ℕ) (c : ℕ)
      → IsDeque h lt (xs ++ c ∷ [])
      → Agrees (spec pop (contents h (xs ++ c ∷ []))) (run pop cell h lt)
  unfolding run
  pop-Agrees xs c v =
      let p = last_of lt.head xs in
      let e_run =
        list_pop-run h lt c p lt.head (v.there c (c_has xs [] c v)) (live_p xs [] c v)
          (at_head (xs ++ c ∷ []) v) (next-mid h.next lt.head lt.head c xs [] v.nexts)
          (prev-mid h.prev lt.head lt.head c xs [] v.prevs) refl
          (prev-first_of h.prev lt.head lt.head (xs ++ c ∷ []) []
              (rw (append_nil (xs ++ c ∷ [])) v.prevs)
            ∙ last_of-append lt.head xs c)
          (c_apart xs [] c v) in
      let e_split : split_last (contents h (xs ++ c ∷ [])) ≡ some (contents h xs, h.data_of c) =
        ap split_last (map-append h.data_of xs (c ∷ []))
        ∙ split_last-append (contents h xs) (h.data_of c) in
      let (cs, v', e') = left xs [] c v in
      rw e_split (
        after_part xs [] c v,
        record lt { n = lt.n - 1 },
        rw e_run refl,
        (cs, v', e' ∙ ap (contents h) (append_nil xs)),
      )

-- If a list holds the elements of a sequence in order, then each operation at one of its ends fails
-- where the sequence is empty and something is to be popped; else it returns what the operation on
-- the sequence returns, and then holds what that leaves. The address of the new cell must be unused
-- and not `NULL`.
pub run-Agrees :
    {A : Type 0} (op : Op A) (xs : List A) (h : Heap A) (lt : Deque) (cell : ℕ)
    → Represents h lt xs
    → h.live cell ≡ false
    → cell ≢ 0
    → Agrees (spec op xs) (run op cell h lt)
run-Agrees (append x) xs h lt cell (cs, v, e) new not_null =
    rw (← e) (append-Agrees h lt cs v cell new not_null x)
run-Agrees (appendleft x) xs h lt cell (cs, v, e) new not_null =
    rw (← e) (appendleft-Agrees h lt cs v cell new not_null x)
run-Agrees popleft xs h lt cell ([], v, e) new not_null = rw (← e) (popleft-empty h lt cell v)
run-Agrees popleft xs h lt cell (c ∷ ys, v, e) new not_null =
    rw (← e) (popleft-Agrees h lt cell c ys v)
run-Agrees pop xs h lt cell (cs, v, e) new not_null = elim (split-cases cs) [
  | inl e_cs ↦
      let e' : [] ≡ xs = rw e_cs at e in
      let v' : IsDeque h lt [] = rw e_cs at v in rw (← e') (pop-empty h lt cell v')
  | inr (ys, c, e_cs) ↦
      let e' : contents h (ys ++ c ∷ []) ≡ xs = rw e_cs at e in
      let v' : IsDeque h lt (ys ++ c ∷ []) = rw e_cs at v in
      rw (← e') (pop-Agrees h lt cell ys c v')
]
