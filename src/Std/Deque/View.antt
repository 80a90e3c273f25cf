-- ===== src/Std/Deque/View.antt =====
-- A list of src/std/list.c as a ring of cells, and what linking a cell in or out does to it.
pub mod Once
use dlfree.Base.{
  ℕ, ◌+◌, ◌-◌, ◌≡◌, ◌≢◌, refl, ap, sym, ◌∙◌, Bool, true, false, ◌&&◌, ◌||◌, List, [], ◌∷◌, ◌++◌,
  ◌==◌, if◌then◌else◌, length, length-append, map, has, distinct, inl, inr, arith, Bool-cases,
}
use dlfree.Std.Deque.{Heap, Deque, upd}
use dlfree.Std.Deque.Ring.{
  Nexts, last_next, one_next, Prevs, last_prev, one_prev, last_of, first_of, in_ne, distinct-front,
  distinct-rest, out-rest, out-front, mid-has, Nexts-insert, Prevs-insert, Nexts-remove,
  Prevs-remove,
}
pub use dlfree.Std.Deque.View.Once.{map-append}
use dlfree.Std.Deque.View.Once.{has-insert, distinct-insert, distinct-remove, out-remove, map-same}

-- The ring through `cs`, in both directions.
pub record IsDeque {A : Type 0} (h : Heap A) (lt : Deque) (cs : List ℕ) : Type 0 where
  pub nexts : Nexts h.next lt.head cs lt.head
  pub prevs : Prevs h.prev lt.head cs lt.head
  pub once : distinct (lt.head ∷ cs) ≡ true
  pub there : (j : ℕ) → has j (lt.head ∷ cs) ≡ true → h.live j ≡ true
  pub size : lt.n ≡ length cs
  pub null : h.live 0 ≡ false

abbrev pub contents : {A : Type 0} → Heap A → List ℕ → List A
contents h cs = map h.data_of cs

pub next-last_of :
    (nx : ℕ → ℕ) (a b : ℕ) (xs ys : List ℕ)
    → Nexts nx a (xs ++ ys) b
    → nx (last_of a xs) ≡ first_of ys b
next-last_of nx a b [] [] (last_next e) = e
next-last_of nx a b [] (y ∷ ys) (one_next e rest) = e
next-last_of nx a b (x ∷ xs) ys (one_next e rest) = next-last_of nx x b xs ys rest

pub prev-first_of :
    (pv : ℕ → ℕ) (a b : ℕ) (xs ys : List ℕ)
    → Prevs pv a (xs ++ ys) b
    → pv (first_of ys b) ≡ last_of a xs
prev-first_of pv a b [] [] (last_prev e) = e
prev-first_of pv a b [] (y ∷ ys) (one_prev e rest) = e
prev-first_of pv a b (x ∷ xs) ys (one_prev e rest) = prev-first_of pv x b xs ys rest

pub next-mid :
    (nx : ℕ → ℕ) (a b c : ℕ) (xs ys : List ℕ) → Nexts nx a (xs ++ c ∷ ys) b → nx c ≡ first_of ys b
next-mid nx a b c [] ys (one_next e rest) = next-last_of nx c b [] ys rest
next-mid nx a b c (x ∷ xs) ys (one_next e rest) = next-mid nx x b c xs ys rest

pub prev-mid :
    (pv : ℕ → ℕ) (a b c : ℕ) (xs ys : List ℕ) → Prevs pv a (xs ++ c ∷ ys) b → pv c ≡ last_of a xs
prev-mid pv a b c [] ys (one_prev e rest) = e
prev-mid pv a b c (x ∷ xs) ys (one_prev e rest) = prev-mid pv x b c xs ys rest

-- A new cell stands between `p` and `q`.
pub record Linked {A : Type 0} (h h' : Heap A) (cell p q : ℕ) (x : A) : Type 0 where
  pub next_p : h'.next p ≡ cell
  pub next_cell : h'.next cell ≡ q
  pub next_else : (j : ℕ) → j ≢ p → j ≢ cell → h'.next j ≡ h.next j
  pub prev_q : h'.prev q ≡ cell
  pub prev_cell : h'.prev cell ≡ p
  pub prev_else : (j : ℕ) → j ≢ q → j ≢ cell → h'.prev j ≡ h.prev j
  pub live : (j : ℕ) → h'.live j ≡ upd h.live cell true j
  pub data_of : (j : ℕ) → h'.data_of j ≡ upd h.data_of cell x j

-- A cell `cell` between `p` and `q` is gone.
pub record Unlinked {A : Type 0} (h h' : Heap A) (cell p q : ℕ) : Type 0 where
  pub next_p : h'.next p ≡ q
  pub next_else : (j : ℕ) → j ≢ p → j ≢ cell → h'.next j ≡ h.next j
  pub prev_q : h'.prev q ≡ p
  pub prev_else : (j : ℕ) → j ≢ q → j ≢ cell → h'.prev j ≡ h.prev j
  pub live : (j : ℕ) → h'.live j ≡ upd h.live cell false j
  pub data_of : (j : ℕ) → h'.data_of j ≡ h.data_of j

module _ {A : Type 0} (h : Heap A) (lt : Deque) (xs ys : List ℕ) (cell : ℕ) where
  -- A cell that is not there is not in the ring.
  pub new-out :
      IsDeque h lt (xs ++ ys) → h.live cell ≡ false → has cell (lt.head ∷ xs ++ ys) ≡ false
  new-out v new = elim (Bool-cases (has cell (lt.head ∷ xs ++ ys))) [
    | inr fine ↦ fine
    | inl clash ↦
        let e = v.there cell clash in
        absurd (let clash' : true ≡ false = sym e ∙ new in ground (arith, clash'))
  ]

  module _ (h' : Heap A) (x : A) (v : IsDeque h lt (xs ++ ys)) (new : h.live cell ≡ false)
      (not_null : cell ≢ 0)
      (l : Linked h h' cell (last_of lt.head xs) (first_of ys lt.head) x) where
    out : has cell (lt.head ∷ xs ++ ys) ≡ false
    out = new-out v new

    linked-there : (j : ℕ) → has j (lt.head ∷ xs ++ cell ∷ ys) ≡ true → h'.live j ≡ true
    linked-there j has_j =
        l.live j
        ∙ by_bit (j == cell) (has j (lt.head ∷ xs ++ ys))
            (sym (has-insert j cell (lt.head ∷ xs) ys) ∙ has_j) (v.there j)
      where
        by_bit :
            (t b : Bool)
            → (t || b) ≡ true
            → (b ≡ true → h.live j ≡ true)
            → (if t then true else h.live j) ≡ true
        by_bit true b e live = refl
        by_bit false b e live = live e

    pub linked-IsDeque : IsDeque h' (record lt { n = lt.n + 1 }) (xs ++ cell ∷ ys)
    linked-IsDeque = record {
      nexts =
          Nexts-insert h.next h'.next lt.head lt.head cell xs ys l.next_p
            (l.next_cell ∙ sym (next-last_of h.next lt.head lt.head xs ys v.nexts)) l.next_else
            v.once out v.nexts;
      prevs =
          Prevs-insert h.prev h'.prev lt.head lt.head cell xs ys l.prev_q
            (l.prev_cell ∙ sym (prev-first_of h.prev lt.head lt.head xs ys v.prevs)) l.prev_else
            v.once out v.prevs;
      once = distinct-insert cell (lt.head ∷ xs) ys v.once out;
      there = linked-there;
      size = let e = v.size in rw (e, length-append {0} xs, length-append {0} xs) (omega arith);
      null = l.live 0 ∙ (let e : (0 == cell) ≡ false = ground (arith, not_null) in rw e v.null);
    }

    pub linked-contents : contents h' (xs ++ cell ∷ ys) ≡ contents h xs ++ x ∷ contents h ys
    linked-contents =
        map-append h'.data_of xs (cell ∷ ys)
        ∙ (ap (λ (l : List A). l ++ h'.data_of cell ∷ map h'.data_of ys)
              (map-same h'.data_of h.data_of xs (λ j h_j. old j (has_left j h_j)))
            ∙ ap (λ (l : List A). map h.data_of xs ++ l)
                (ap (λ (a : A). a ∷ map h'.data_of ys) (l.data_of cell ∙ own)
                  ∙ ap (λ (l : List A). x ∷ l)
                      (map-same h'.data_of h.data_of ys (λ j h_j. old j (has_right j xs h_j)))))
      where
        own : upd h.data_of cell x cell ≡ x
        own = ground arith

        old : (j : ℕ) → has j (xs ++ ys) ≡ true → h'.data_of j ≡ h.data_of j
        old j h_j =
            let apart = in_ne cell j (xs ++ ys) (out-rest cell lt.head (xs ++ ys) out) h_j in
            let e : (j == cell) ≡ false = ground (arith, apart) in l.data_of j ∙ rw e refl

        has_right : (j : ℕ) (xs : List ℕ) → has j ys ≡ true → has j (xs ++ ys) ≡ true
        has_right j [] e = e
        has_right j (x ∷ xs) e = let e' = has_right j xs e in rw e' (or_true (j == x))
          where
            or_true : (b : Bool) → (b || true) ≡ true
            or_true true = refl
            or_true false = refl

        has_left : (j : ℕ) → has j xs ≡ true → has j (xs ++ ys) ≡ true
        has_left j e = in_front j xs e
          where
            in_front : (j : ℕ) (xs : List ℕ) → has j xs ≡ true → has j (xs ++ ys) ≡ true
            in_front j [] e = absurd (ground (arith, e))
            in_front j (x ∷ xs) e = by_bit (j == x) (has j xs) (has j (xs ++ ys)) e (in_front j xs)
              where
                by_bit : (t a b : Bool) → (t || a) ≡ true → (a ≡ true → b ≡ true) → (t || b) ≡ true
                by_bit true a b e f = refl
                by_bit false a b e f = f e

  module _ (h' : Heap A) (v : IsDeque h lt (xs ++ cell ∷ ys))
      (u : Unlinked h h' cell (last_of lt.head xs) (first_of ys lt.head)) where
    removed-out : has cell (lt.head ∷ xs ++ ys) ≡ false
    removed-out = out-remove cell (lt.head ∷ xs) ys v.once

    still_there : (j : ℕ) → has j (lt.head ∷ xs ++ ys) ≡ true → h.live j ≡ true
    still_there j h_j =
        v.there j (has-insert j cell (lt.head ∷ xs) ys ∙ rw h_j (or_true (j == cell)))
      where
        or_true : (b : Bool) → (b || true) ≡ true
        or_true true = refl
        or_true false = refl

    pub unlinked-IsDeque : IsDeque h' (record lt { n = lt.n - 1 }) (xs ++ ys)
    unlinked-IsDeque = record {
      nexts =
          Nexts-remove h.next h'.next lt.head lt.head cell xs ys
            (u.next_p ∙ sym (next-mid h.next lt.head lt.head cell xs ys v.nexts)) u.next_else v.once
            v.nexts;
      prevs =
          Prevs-remove h.prev h'.prev lt.head lt.head cell xs ys
            (u.prev_q ∙ sym (prev-mid h.prev lt.head lt.head cell xs ys v.prevs)) u.prev_else v.once
            v.prevs;
      once = distinct-remove cell (lt.head ∷ xs) ys v.once;
      there = λ j h_j.
          let apart = in_ne cell j (lt.head ∷ xs ++ ys) removed-out h_j in
          let e : (j == cell) ≡ false = ground (arith, apart) in
          u.live j ∙ rw e (still_there j h_j);
      size = let e = v.size in rw (e, length-append {0} xs, length-append {0} xs) (omega arith);
      null = u.live 0 ∙ null_after (0 == cell);
    }
      where
        null_after : (t : Bool) → (if t then false else h.live 0) ≡ false
        null_after true = refl
        null_after false = v.null

    pub unlinked-contents : contents h' (xs ++ ys) ≡ contents h (xs ++ ys)
    unlinked-contents = map-same h'.data_of h.data_of (xs ++ ys) (λ j _. u.data_of j)
