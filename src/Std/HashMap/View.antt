-- ===== src/Std/HashMap/View.antt =====
-- The table seen as a stack of values for each key: the last value added is found and popped first.
use dlfree.Base.{
  ℕ, zero, suc, ◌+◌, ◌-◌, ◌%◌, ◌<◌, ◌≡◌, refl, false, Option, none, some, List, [], ◌∷◌, ◌==◌,
  if◌then◌else◌, get_or, set, replicate, length, length-set, length-replicate, arith, sym, ap, ◌∙◌,
  Option-cases, inl, inr, get_elem?-get_or, get_or-set, get_or-replicate,
}
use native.Mathlib.Nat.{mod-lt}
use dlfree.Std.HashMap.{
  Chain, HashMap, hash_map_create, hash_map_hash, locate, hash_map_add, chain_find, chain_unlink,
  hash_map_pop, hash_map_find,
}

module _ {V : Type 0} where
  abbrev pub values : ℕ → Chain V → List V
  values k [] = []
  values k (e ∷ chain) = if e.0 == k then e.1 ∷ values k chain else values k chain

  abbrev pub cells : List (Chain V) → ℕ
  cells [] = 0
  cells (chain ∷ bs) = length chain + cells bs

  abbrev pub view : HashMap V → ℕ → List V
  view m k = values k (get_or m.bucket (k % m.size) [])

  pub record IsValid (m : HashMap V) : Type 0 where
    pub nonempty : 0 < m.size
    pub sized : length m.bucket ≡ m.size
    pub counted : m.c ≡ cells m.bucket

  abbrev pub head? : List V → Option V
  head? [] = none
  head? (x ∷ xs) = some x

  abbrev pub tail : List V → List V
  tail [] = []
  tail (x ∷ xs) = xs

  chain_find-values : (k : ℕ) (chain : Chain V) → chain_find k chain ≡ head? (values k chain)
  unfolding chain_find
  chain_find-values k [] = refl
  chain_find-values k (e ∷ chain) = ground (arith, chain_find-values k chain)

  values-unlink :
      (k j : ℕ) (chain : Chain V)
      → values j (chain_unlink k chain) ≡ (if j == k then tail (values k chain) else values j chain)
  unfolding chain_unlink
  values-unlink k j [] = ground arith
  values-unlink k j (e ∷ chain) = ground (arith, values-unlink k j chain)

  length-unlink :
      (k : ℕ) (chain : Chain V) (d : V)
      → chain_find k chain ≡ some d
      → suc (length (chain_unlink k chain)) ≡ length chain
  unfolding chain_find chain_unlink
  length-unlink k [] d h = ground arith
  length-unlink k (e ∷ chain) d h = ground (arith, length-unlink k chain d)

  cells-set :
      (bs : List (Chain V)) (i : ℕ) (chain : Chain V)
      → i < length bs
      → cells (set bs i chain) + length (get_or bs i []) ≡ cells bs + length chain
  cells-set [] i chain h = absurd (omega arith)
  cells-set (b ∷ bs) zero chain h = omega arith
  cells-set (b ∷ bs) (suc i) chain h = omega (arith, cells-set bs i chain)

  cells-replicate : (n : ℕ) {bs : List (Chain V)} → bs ≡ replicate n [] → cells bs ≡ 0
  cells-replicate zero e = rw e
  cells-replicate (suc n) e = rw e (omega (arith, cells-replicate n {bs = replicate n []} refl))

  -- A new table of a positive size is valid, and holds nothing under any key.
  pub create-view :
      (size : ℕ)
      → 0 < size
      → let m : HashMap V = hash_map_create size in IsValid m × ((k : ℕ) → view m k ≡ [])
  unfolding hash_map_create
  create-view size h = (
    record {
      nonempty = h;
      sized = length-replicate size [];
      counted = sym (cells-replicate size refl);
    },
    λ k. ap (values k) (get_or-replicate size (k % size) []),
  )

  home-lt : (m : HashMap V) (k : ℕ) → IsValid m → k % m.size < length m.bucket
  home-lt m k v = let open_lt : k % m.size < m.size = mod-lt k v.nonempty in omega arith

  locate-home :
      (m : HashMap V) (k : ℕ)
      → IsValid m
      → locate m k ≡ some (k % m.size, get_or m.bucket (k % m.size) [])
  unfolding locate hash_map_hash
  locate-home m k v =
      let positive : (m.size == 0) ≡ false = ground arith in
      rw (positive, get_elem?-get_or m.bucket (k % m.size) [] (home-lt m k v))

  -- `hash_map_find` does not fault, and returns the value that was added last.
  pub find-view : (m : HashMap V) (k : ℕ) → IsValid m → hash_map_find m k ≡ some (head? (view m k))
  unfolding hash_map_find
  find-view m k v = rw (locate-home m k v, chain_find-values k (get_or m.bucket (k % m.size) []))

  -- What a write of a chain at the home of `k` does to the values of every key.
  view-set :
      (m : HashMap V) (k j : ℕ) (chain : Chain V) (n : ℕ)
      → IsValid m
      → view (record m { bucket = set m.bucket (k % m.size) chain; c = n }) j
        ≡ (if j % m.size == k % m.size then values j chain else view m j)
  view-set m k j chain n v =
      rw (get_or-set m.bucket (k % m.size) (j % m.size) chain [] (home-lt m k v)) (ground arith)

  -- `hash_map_add` does not fault; it puts the value before those of its key, and leaves the
  -- values of every other key.
  pub add-view :
      (m : HashMap V) (k : ℕ) (d : V)
      → IsValid m
      → (m' : HashMap V) × (hash_map_add m k d ≡ some m')
        × IsValid m'
        × (m'.c ≡ m.c + 1)
        × ((j : ℕ) → view m' j ≡ (if j == k then d ∷ view m k else view m j))
  unfolding hash_map_add
  add-view m k d v =
      let chain = get_or m.bucket (k % m.size) [] in
      let m' = record m { bucket = set m.bucket (k % m.size) ((k, d) ∷ chain); c = m.c + 1 } in
      (
        m',
        rw (locate-home m k v),
        record {
          nonempty = v.nonempty;
          sized = length-set m.bucket (k % m.size) ((k, d) ∷ chain) ∙ v.sized;
          counted = omega (arith, cells-set m.bucket (k % m.size) ((k, d) ∷ chain) (home-lt m k v));
        },
        refl,
        λ j. rw (view-set m k j ((k, d) ∷ chain) (m.c + 1) v) (ground arith),
      )

  -- `hash_map_pop` does not fault; it returns the value that was added last under the key, removes
  -- that one and no other, and changes nothing where there is none.
  pub pop-view :
      (m : HashMap V) (k : ℕ)
      → IsValid m
      → (m' : HashMap V) × (hash_map_pop m k ≡ some (head? (view m k), m'))
        × IsValid m'
        × ((j : ℕ) → view m' j ≡ (if j == k then tail (view m k) else view m j))
  unfolding hash_map_pop
  pop-view m k v =
      let chain = get_or m.bucket (k % m.size) [] in
      elim (Option-cases (chain_find k chain)) [
        | inl e ↦ (
          m,
          ground (arith, locate-home m k v, chain_find-values k chain),
          v,
          λ j. ground (arith, chain_find-values k chain),
        )
        | inr (d, e) ↦ (
          record m { bucket = set m.bucket (k % m.size) (chain_unlink k chain); c = m.c - 1 },
          ground (arith, locate-home m k v, chain_find-values k chain),
          record {
            nonempty = v.nonempty;
            sized = length-set m.bucket (k % m.size) (chain_unlink k chain) ∙ v.sized;
            counted = omega (
              arith,
              cells-set m.bucket (k % m.size) (chain_unlink k chain) (home-lt m k v),
              length-unlink k chain d e,
            );
          },
          λ j.
              rw (view-set m k j (chain_unlink k chain) (m.c - 1) v, values-unlink k j chain)
                (ground arith),
        )
      ]
