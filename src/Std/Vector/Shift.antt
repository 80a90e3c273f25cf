-- ===== src/Std/Vector/Shift.antt =====
-- Adding and deleting elements of a vector.
use dlfree.Base.{
  ℕ, zero, suc, ◌+◌, ◌-◌, ◌*◌, ◌^◌, ◌<◌, ◌≤◌, ◌≡◌, ◌⊎◌, refl, true, false, ◌&&◌, none, some, ltb,
  leb, ◌==◌, if◌then◌else◌, arith, inl, inr, Bool-cases,
}
use dlfree.Std.Vector.{
  Vector, put_slot, read_slot, write_slot, expand, vector_add, vector_get, shift_left, vector_del,
}

module _ {X : Type 0} where
  -- In a vector that has room, or whose capacity is not 0 and can be multiplied by four within an
  -- int, adding an element returns: the element comes behind the others, which stay as they were.
  pub vector_add-last :
      (fresh : ℕ → X) (v : Vector X) (x : X)
      → v.c ≤ v.n
      → (v.c < v.n) ⊎ ((0 < v.n) × (v.n * 4 < 2 ^ 31))
      → (v' : Vector X) × (vector_add fresh v x ≡ some v')
        × (v'.c ≡ v.c + 1)
        × (v'.c ≤ v'.n)
        × (vector_get v' v.c ≡ some x)
        × ((i : ℕ) → i < v.c → vector_get v' i ≡ vector_get v i)
  unfolding vector_add expand write_slot vector_get read_slot
  vector_add-last fresh v x fits (inl room) =
      let e : (v.c == v.n) ≡ false = ground (arith, room) in
      let within : ltb v.c v.n ≡ true = ground (arith, room) in
      (
        record v { c = v.c + 1; vec = put_slot v.vec v.c x },
        rw (e, within) refl,
        refl,
        omega (arith, room),
        ground (arith, room),
        λ i h. ground (arith, room, h),
      )
  vector_add-last fresh v x fits (inr (some_room, small)) = elim (Bool-cases (v.c == v.n)) [
    | inl full ↦ (
      record {
        n = v.n * 4;
        c = v.c + 1;
        vec = put_slot (λ i. if ltb i v.n then v.vec i else fresh i) v.c x;
      },
      ground arith,
      refl,
      ground arith,
      ground arith,
      λ i h. ground arith,
    )
    | inr room ↦ (
      record v { c = v.c + 1; vec = put_slot v.vec v.c x },
      ground arith,
      refl,
      ground arith,
      ground arith,
      λ i h. ground arith,
    )
  ]

  -- What the shift does: it fails where the slot behind the last one is out of bounds, and otherwise
  -- moves the slots down by one.
  shift_left-slots :
      (k i : ℕ) (v : Vector X)
      → i + k < v.n
      → (v' : Vector X) × (shift_left k i v ≡ some v')
        × (v'.n ≡ v.n)
        × (v'.c ≡ v.c)
        × ((j : ℕ) → v'.vec j ≡ (if leb i j && ltb j (i + k) then v.vec (j + 1) else v.vec j))
  unfolding shift_left read_slot write_slot
  shift_left-slots zero i v h = (v, refl, refl, refl, λ j. ground arith)
  shift_left-slots (suc k) i v h =
      let (v', run, n, c, slots) =
        shift_left-slots k (i + 1) (record v { vec = put_slot v.vec i (v.vec (i + 1)) })
          (omega arith) in
      (v', ground (arith, run), n, c, λ j. ground (arith, slots j))

  shift_left-fault : (k i : ℕ) (v : Vector X) → v.n ≤ i + k → 0 < k → shift_left k i v ≡ none
  unfolding shift_left read_slot write_slot
  shift_left-fault zero i v h p = absurd (omega arith)
  shift_left-fault (suc k) i v h p = elim (Bool-cases (ltb (i + 1) v.n)) [
    | inr out ↦ rw out
    | inl within ↦
        let here : ltb i v.n ≡ true = ground (arith, within) in
        let later : 0 < k = ground (arith, within) in
        rw (within, here)
          (shift_left-fault k (i + 1) (record v { vec = put_slot v.vec i (v.vec (i + 1)) })
            (omega arith) later)
  ]

  -- Deleting the i-th element of a vector that is not full returns it and moves the later ones down
  -- by one; in a full vector it reads past the end of the memory.
  pub vector_del-cases :
      (v : Vector X) (i : ℕ)
      → v.c ≤ v.n
      → i < v.c
      → ((v.c < v.n)
          × ((x : X) × (v' : Vector X) × (vector_del v i ≡ some (x, v'))
              × (vector_get v i ≡ some x)
              × (v'.c + 1 ≡ v.c)
              × (v'.n ≡ v.n)
              × ((j : ℕ)
                  → j < v'.c
                  → vector_get v' j ≡ (if ltb j i then vector_get v j else vector_get v (j + 1)))))
        ⊎ ((v.c ≡ v.n) × (vector_del v i ≡ none))
  unfolding vector_del vector_get read_slot
  vector_del-cases v i fits h = elim (Bool-cases (ltb v.c v.n)) [
    | inl room ↦
        let (v', run, n, c, slots) = shift_left-slots (v.c - i) i v (ground (arith, room)) in
        let inside : ltb i v.c ≡ true = ground arith in
        let inside' : ltb i v.n ≡ true = ground arith in
        inl (
          ground (arith, room),
          (
            v.vec i,
            record v' { c = v'.c - 1 },
            rw (inside, inside', run),
            rw (inside, inside'),
            omega arith,
            n,
            λ j lt. ground (arith, slots j, lt, n, c, room),
          ),
        )
    | inr full ↦
        let inside : ltb i v.c ≡ true = ground arith in
        let inside' : ltb i v.n ≡ true = ground arith in
        inr (
          ground (arith, full),
          rw (inside, inside', shift_left-fault (v.c - i) i v (ground (arith, full)) (omega arith)),
        )
  ]
