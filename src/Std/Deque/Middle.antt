-- ===== src/Std/Deque/Middle.antt =====
-- `list_insert` and `list_remove` of src/std/list.c, anywhere in a list.
use dlfree.Base.{
  ℕ, zero, suc, ◌+◌, ◌-◌, ◌<◌, ◌≤◌, ◌≡◌, ◌≢◌, ◌⊎◌, refl, ap, sym, ◌∙◌, true, false, none, some,
  List, [], ◌∷◌, ◌++◌, ltb, leb, ◌==◌, length, length-append, length-map, length-take, take, drop,
  take-append-drop, map, has, inl, inr, arith, Bool-cases,
}
use dlfree.Std.Deque.{Heap, Deque, walk, list_insert, list_remove, list_cell_create}
use dlfree.Std.Deque.Ring.{
  Nexts, last_next, one_next, Nexts-frame, last_of, first_of, in_ne, last_of-has, first_of-has,
  distinct-front, mid-has,
}
use dlfree.Std.Deque.View.{
  IsDeque, contents, map-append, next-last_of, next-mid, prev-mid, linked-IsDeque, linked-contents,
}
use dlfree.Std.Deque.Refine.{
  then_run, upd_same, upd_other, next_at, prev_at, set_next_at, set_prev_at, data_at, made,
  made_live, joined, joined-Linked,
}
use dlfree.Std.Deque.Spec.{Represents, ne_new, c_apart, live_p, live_q, after_part, left}

module _ {A : Type 0} (h : Heap A) (head : ℕ) where
  -- After as many steps as cells of the front, the loop stands at its last cell.
  walk-last_of :
      (a : ℕ) (xs ys : List ℕ)
      → Nexts h.next a (xs ++ ys) head
      → ((j : ℕ) → has j (a ∷ xs ++ ys) ≡ true → h.live j ≡ true)
      → has head (xs ++ ys) ≡ false
      → walk h head (length xs) a ≡ some (last_of a xs)
  unfolding walk
  walk-last_of a [] ys n live out = refl
  walk-last_of a (x ∷ xs) ys (one_next e rest) live out =
      let apart : x ≢ head = in_ne head x (x ∷ xs ++ ys) out (mid-has x [] (xs ++ ys)) in
      let e' : (x == head) ≡ false = ground (arith, apart) in
      let here : h.live a ≡ true = live a (mid-has a [] (x ∷ xs ++ ys)) in
      then_run _ (next_at h a x here e) (
        rw e' (
          walk-last_of x xs ys rest (λ j h_j. live j (behind j a (x ∷ xs ++ ys) h_j))
            (out_rest x (xs ++ ys) out)))
    where
      behind : (j a : ℕ) (cs : List ℕ) → has j cs ≡ true → has j (a ∷ cs) ≡ true
      behind j a cs e = ground (arith, e)

      out_rest : (x : ℕ) (cs : List ℕ) → has head (x ∷ cs) ≡ false → has head cs ≡ false
      out_rest x cs e = ground (arith, e)

  -- The assertion of the loop fails where the list is too short.
  walk-far :
      (a : ℕ) (cs : List ℕ) (i : ℕ)
      → Nexts h.next a cs head
      → ((j : ℕ) → has j (a ∷ cs) ≡ true → h.live j ≡ true)
      → length cs < i
      → walk h head i a ≡ none
  unfolding walk
  walk-far a cs zero n live far = absurd (omega (arith, far))
  walk-far a [] (suc i) (last_next e) live far =
      let same : (head == head) ≡ true = ground arith in
      then_run _ (next_at h a head (live a (mid-has a [] [])) e) (rw same refl)
  walk-far a (x ∷ cs) (suc i) (one_next e rest) live far = elim (Bool-cases (x == head)) [
    | inl met ↦ then_run _ (next_at h a x (live a (mid-has a [] (x ∷ cs))) e) (rw met refl)
    | inr apart ↦
        then_run _ (next_at h a x (live a (mid-has a [] (x ∷ cs))) e)
          (rw apart (walk-far x cs i rest (λ j h_j. live j (behind j h_j)) (omega (arith, far))))
  ]
    where
      behind : (j : ℕ) → has j (x ∷ cs) ≡ true → has j (a ∷ x ∷ cs) ≡ true
      behind j e = ground (arith, e)

module _ {A : Type 0} (h : Heap A) (lt : Deque) (cell : ℕ) (x : A) (new : h.live cell ≡ false)
    (not_null : cell ≢ 0) where
  -- The new cell changes no link of the ring.
  made-Nexts : (cs : List ℕ) → IsDeque h lt cs → Nexts (made h lt cell x).next lt.head cs lt.head
  made-Nexts cs v =
      Nexts-frame h.next (made h lt cell x).next lt.head lt.head cs
        (λ j h_j.
          upd_other h.next cell j 0 (ne_new h lt cs v cell new not_null x j (v.there j h_j)))
        v.nexts

  insert-run :
      (xs ys : List ℕ)
      → IsDeque h lt (xs ++ ys)
      → list_insert h lt (length xs) x cell
        ≡ some (
          joined h lt cell x (last_of lt.head xs) (first_of ys lt.head),
          record lt { n = lt.n + 1 },
        )
  unfolding list_insert list_cell_create
  insert-run xs ys v =
      let p = last_of lt.head xs in
      let q = first_of ys lt.head in
      let live_p : h.live p ≡ true = v.there p (last_of-has lt.head xs ys) in
      let live_q : h.live q ≡ true = v.there q (first_of-has lt.head xs ys) in
      let p_new = ne_new h lt (xs ++ ys) v cell new not_null x p live_p in
      then_run _
        (walk-last_of (made h lt cell x) lt.head lt.head xs ys (made-Nexts (xs ++ ys) v)
          (λ j h_j. made_live h lt cell x j (v.there j h_j))
          (distinct-front lt.head (xs ++ ys) v.once))
        (then_run _
          (next_at (made h lt cell x) p q (made_live h lt cell x p live_p)
            (upd_other h.next cell p 0 p_new ∙ next-last_of h.next lt.head lt.head xs ys v.nexts))
          (then_run _ (set_next_at (made h lt cell x) cell q (upd_same h.live cell true)) (
            then_run _ (set_prev_at _ cell p (upd_same h.live cell true)) (
              then_run _ (set_next_at _ p cell (made_live h lt cell x p live_p))
                (then_run _ (set_prev_at _ q cell (made_live h lt cell x q live_q)) refl)))))

  insert-far :
      (i : ℕ) (cs : List ℕ) → IsDeque h lt cs → length cs < i → list_insert h lt i x cell ≡ none
  unfolding list_insert list_cell_create
  insert-far i cs v far =
      let fails =
        walk-far (made h lt cell x) lt.head lt.head cs i (made-Nexts cs v)
          (λ j h_j. made_live h lt cell x j (v.there j h_j)) far in
      rw fails refl

map-take : {A : Type 0} (f : ℕ → A) (i : ℕ) (cs : List ℕ) → map f (take i cs) ≡ take i (map f cs)
map-take f zero cs = refl
map-take f (suc i) [] = refl
map-take f (suc i) (c ∷ cs) = ap (λ (l : List _). f c ∷ l) (map-take f i cs)

map-drop : {A : Type 0} (f : ℕ → A) (i : ℕ) (cs : List ℕ) → map f (drop i cs) ≡ drop i (map f cs)
map-drop f zero cs = refl
map-drop f (suc i) [] = refl
map-drop f (suc i) (c ∷ cs) = map-drop f i cs

-- If a list holds the elements of a sequence in order, then inserting at an index up to the length
-- of the sequence returns, and the list then holds the new element there, with the others before and
-- behind it; with a larger index it fails. The address of the new cell must be unused and not `NULL`.
pub list_insert-Represents :
    {A : Type 0} (xs : List A) (i : ℕ) (x : A) (h : Heap A) (lt : Deque) (cell : ℕ)
    → Represents h lt xs
    → h.live cell ≡ false
    → cell ≢ 0
    → ((i ≤ length xs)
        × (h' : Heap A) × (lt' : Deque) × (list_insert h lt i x cell ≡ some (h', lt'))
        × Represents h' lt' (take i xs ++ x ∷ drop i xs))
      ⊎ ((length xs < i) × (list_insert h lt i x cell ≡ none))
list_insert-Represents xs i x h lt cell (cs, v, e) new not_null =
    elim (Bool-cases (leb i (length xs))) [
      | inl le ↦
          let v' : IsDeque h lt (take i cs ++ drop i cs) = rw (take-append-drop i cs) v in
          let p = last_of lt.head (take i cs) in
          let q = first_of (drop i cs) lt.head in
          let p_new =
            ne_new h lt _ v' cell new not_null x p
              (v'.there p (last_of-has lt.head (take i cs) (drop i cs))) in
          let q_new =
            ne_new h lt _ v' cell new not_null x q
              (v'.there q (first_of-has lt.head (take i cs) (drop i cs))) in
          let l = joined-Linked h lt cell x p q p_new q_new in
          let long : length cs ≡ length xs =
            sym (length-map cs h.data_of) ∙ ap (λ (l : List _). length l) e in
          let below : i ≤ length xs = ground (arith, le) in
          let e_len : length (take i cs) ≡ i = length-take i cs ∙ omega (arith, long, below) in
          let h' = joined h lt cell x p q in
          inl (
            below,
            h',
            record lt { n = lt.n + 1 },
            ap (λ k. list_insert h lt k x cell) (sym e_len)
                ∙ insert-run h lt cell x new not_null (take i cs) (drop i cs) v',
            (
              take i cs ++ cell ∷ drop i cs,
              linked-IsDeque h lt (take i cs) (drop i cs) cell h' x v' new not_null l,
              linked-contents h lt (take i cs) (drop i cs) cell h' x v' new not_null l
                  ∙ rw (map-take h.data_of i cs, map-drop h.data_of i cs, e) refl,
            ),
          )
      | inr gt ↦
          let long : length cs ≡ length xs =
            sym (length-map cs h.data_of) ∙ ap (λ (l : List _). length l) e in
          inr (
            ground (arith, gt),
            insert-far h lt cell x new not_null i cs v (ground (arith, gt, long)),
          )
    ]

-- Removing a cell of a list returns its element, and the list then holds the others in their order.
pub list_remove-Represents :
    {A : Type 0} (h : Heap A) (lt : Deque) (xs ys : List ℕ) (c : ℕ)
    → IsDeque h lt (xs ++ c ∷ ys)
    → (h' : Heap A) × (lt' : Deque) × (list_remove h lt c ≡ some (h.data_of c, h', lt'))
      × Represents h' lt' (contents h xs ++ contents h ys)
unfolding list_remove
list_remove-Represents h lt xs ys c v =
    let p = last_of lt.head xs in
    let q = first_of ys lt.head in
    let here : h.live c ≡ true = v.there c (mid-has c (lt.head ∷ xs) ys) in
    let at_p = live_p h lt c xs ys c v in
    let at_q = live_q h lt c xs ys c v in
    let after = next-mid h.next lt.head lt.head c xs ys v.nexts in
    let before = prev-mid h.prev lt.head lt.head c xs ys v.prevs in
    let front : h.next p ≡ c = next-last_of h.next lt.head lt.head xs (c ∷ ys) v.nexts in
    let e_p : (p == 0) ≡ false = not_zero p at_p in
    let e_q : (q == 0) ≡ false = not_zero q at_q in
    let apart = c_apart h lt c xs ys c v in
    let e_c : (c == lt.head) ≡ false = ground (arith, apart) in
    let e_qq : (q == q) ≡ true = ground arith in
    let size = v.size in
    let long : length (xs ++ c ∷ ys) ≡ length xs + suc (length ys) =
      length-append {0} xs (c ∷ ys) in
    let e_n : ltb 0 lt.n ≡ true = ground (arith, size, long) in
    let (cs, v', e') = left h lt c xs ys c v in
    (
      after_part h lt c xs ys c v,
      record lt { n = lt.n - 1 },
      then_run _ (prev_at h c p here before) (
          then_run _ (next_at h c q here after) (
            then_run _ (next_at h p c at_p front) (
              then_run _ (next_at h c q here after) (
                rw (e_p, e_q, e_qq, e_c, e_n)
                  (then_run _ (set_next_at h p q at_p) (
                    then_run _ (set_prev_at _ q p at_q)
                      (then_run _ (data_at _ c 0 here) refl))))))),
      (cs, v', e' ∙ map-append h.data_of xs ys),
    )
  where
    not_zero : (j : ℕ) → h.live j ≡ true → (j == 0) ≡ false
    not_zero j live = elim (Bool-cases (j == 0)) [
      | inr fine ↦ fine
      | inl null ↦
          let e : j ≡ 0 = ground (arith, null) in
          absurd
            (let clash : true ≡ false = sym live ∙ (ap h.live e ∙ v.null) in ground (arith, clash))
    ]
