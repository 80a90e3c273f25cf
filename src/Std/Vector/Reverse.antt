-- ===== src/Std/Vector/Reverse.antt =====
-- Reversing a vector.
use dlfree.Base.{
  ℕ, zero, suc, ◌+◌, ◌-◌, ◌*◌, ◌<◌, ◌≤◌, ◌≡◌, refl, ap, ◌∙◌, true, false, ◌&&◌, some, ltb, leb,
  ◌==◌, if◌then◌else◌, arith, inl, inr, Bool-cases,
}
use dlfree.Std.Vector.{
  Vector, put_slot, read_slot, write_slot, vector_get, swap_slots, reverse_loop, vector_reverse,
}

module _ {X : Type 0} where
  abbrev swapped : Vector X → ℕ → ℕ → Vector X
  swapped v i j = record v { vec = put_slot (put_slot v.vec i (v.vec j)) j (v.vec i) }

  swap_slots-some :
      (v : Vector X) (i j : ℕ) → i < v.n → j < v.n → swap_slots v i j ≡ some (swapped v i j)
  unfolding swap_slots read_slot write_slot
  swap_slots-some v i j h h' = ground arith

  still :
      (f : ℕ → X) (p q j : ℕ) → q ≤ p → f j ≡ (if leb p j && leb j q then f (p + q - j) else f j)
  still f p q j h = elim (Bool-cases (leb p j && leb j q)) [
    | inl inside ↦ rw inside (ap f (ground (arith, inside)))
    | inr outside ↦ rw outside
  ]

  -- One exchange, and the reversal of what lies between.
  between :
      (f : ℕ → X) (p q j : ℕ)
      → p < q
      → (if leb (p + 1) j && leb j (q - 1)
          then put_slot (put_slot f p (f q)) q (f p) (p + 1 + (q - 1) - j)
          else put_slot (put_slot f p (f q)) q (f p) j)
        ≡ (if leb p j && leb j q then f (p + q - j) else f j)
  between f p q j h = elim (Bool-cases (leb (p + 1) j && leb j (q - 1))) [
    | inl inside ↦
        let wide : (leb p j && leb j q) ≡ true = ground (arith, inside) in
        let not_p : (p + 1 + (q - 1) - j == p) ≡ false = ground (arith, inside) in
        let not_q : (p + 1 + (q - 1) - j == q) ≡ false = ground (arith, inside) in
        rw (inside, wide, not_q, not_p) (ap f (omega arith))
    | inr outside ↦ elim (Bool-cases (j == q)) [
      | inl at_q ↦
          let wide : (leb p j && leb j q) ≡ true = ground (arith, at_q) in
          rw (outside, at_q, wide) (ap f (ground (arith, at_q)))
      | inr not_q ↦ elim (Bool-cases (j == p)) [
        | inl at_p ↦
            let wide : (leb p j && leb j q) ≡ true = ground (arith, at_p) in
            rw (outside, not_q, at_p, wide) (ap f (ground (arith, at_p)))
        | inr not_p ↦
            let narrow : (leb p j && leb j q) ≡ false = ground (arith, outside, not_q, not_p) in
            rw (outside, not_q, not_p, narrow)
      ]
    ]
  ]

  -- The slots from p to q change places, and the others stay.
  reverse_loop-slots :
      (fuel p q : ℕ) (v : Vector X)
      → q < v.n
      → q ≤ p + 2 * fuel
      → (v' : Vector X) × (reverse_loop fuel p q v ≡ some v')
        × (v'.n ≡ v.n)
        × (v'.c ≡ v.c)
        × ((j : ℕ) → v'.vec j ≡ (if leb p j && leb j q then v.vec (p + q - j) else v.vec j))
  unfolding reverse_loop
  reverse_loop-slots zero p q v h enough =
      (v, refl, refl, refl, λ j. still v.vec p q j (omega arith))
  reverse_loop-slots (suc fuel) p q v h enough = elim (Bool-cases (ltb p q)) [
    | inr done ↦ (v, rw done, refl, refl, λ j. still v.vec p q j (ground (arith, done)))
    | inl more ↦
        let (v', run, n, c, slots) =
          reverse_loop-slots fuel (p + 1) (q - 1) (swapped v p q) (omega arith) (omega arith) in
        (
          v',
          rw (more, swap_slots-some v p q (ground (arith, more)) h) run,
          n,
          c,
          λ j. slots j ∙ between v.vec p q j (ground (arith, more)),
        )
  ]

  -- Reversing a vector returns, keeps its size, and puts its i-th element from the front where the
  -- i-th from the back stood.
  pub vector_reverse-get :
      (v : Vector X)
      → v.c ≤ v.n
      → (v' : Vector X) × (vector_reverse v ≡ some v')
        × (v'.c ≡ v.c)
        × ((i : ℕ) → i < v.c → vector_get v' i ≡ vector_get v (v.c - 1 - i))
  unfolding vector_reverse vector_get read_slot
  vector_reverse-get v fits = elim (Bool-cases (v.c == 0)) [
    | inl empty ↦ (v, rw empty, refl, λ i h. absurd (ground (arith, empty, h)))
    | inr some_slots ↦
        let (v', run, n, c, slots) =
          reverse_loop-slots v.c 0 (v.c - 1) v (ground (arith, some_slots)) (omega arith) in
        (v', rw some_slots run, c, λ i h. reversed v v' i h fits n c (slots i))
  ]
    where
      reversed :
          (v v' : Vector X) (i : ℕ)
          → i < v.c
          → v.c ≤ v.n
          → v'.n ≡ v.n
          → v'.c ≡ v.c
          → v'.vec i ≡ (if leb 0 i && leb i (v.c - 1) then v.vec (0 + (v.c - 1) - i) else v.vec i)
          → vector_get v' i ≡ vector_get v (v.c - 1 - i)
      reversed v v' i h fits n c slot =
          let a : ltb i v'.c ≡ true = ground arith in
          let a' : ltb i v'.n ≡ true = ground arith in
          let b : ltb (v.c - 1 - i) v.c ≡ true = ground arith in
          let b' : ltb (v.c - 1 - i) v.n ≡ true = ground arith in
          let inside : (leb 0 i && leb i (v.c - 1)) ≡ true = ground arith in
          rw (a, a', b, b') (ap some (rw inside at slot ∙ ap v.vec (omega arith)))
