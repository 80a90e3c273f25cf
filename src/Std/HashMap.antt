-- ===== src/Std/HashMap.antt =====
-- src/std/map.c: a chained hash table over `unsigned long` keys. A chain of cells is a list, its
-- first cell in front. A table of size 0 faults, since the key is taken modulo the size.
pub mod View
use dlfree.Base.{
  ℕ, zero, suc, ◌+◌, ◌-◌, ◌%◌, ◌^◌, Bool, true, false, Option, none, some, List, [], ◌∷◌, ◌==◌,
  if◌then◌else◌, get_elem?, set, replicate,
}
use dlfree.Std.Bytes.{◌>>=◌}

abbrev pub Chain {ℓ} : Type ℓ → Type ℓ
Chain V = List (ℕ × V)

pub record HashMap {ℓ} (V : Type ℓ) : Type ℓ where
  pub bucket : List (Chain V)
  pub size : ℕ
  pub c : ℕ
  pub key_c : ℕ

module _ {ℓ} {V : Type ℓ} where
  unfoldable pub hash_map_create : ℕ → HashMap V
  hash_map_create size = record { bucket = replicate size []; size = size; c = 0; key_c = 0 }

  unfoldable pub hash_map_size : HashMap V → ℕ
  hash_map_size m = m.c

  -- The key, and the map with the counter moved on.
  unfoldable pub hash_map_new_key : HashMap V → ℕ × HashMap V
  hash_map_new_key m = (m.key_c, record m { key_c = (m.key_c + 1) % 2 ^ 64 })

  unfoldable pub hash_map_hash : HashMap V → ℕ → Option ℕ
  hash_map_hash m key = if m.size == 0 then none else some (key % m.size)

  -- The chain of a key, with its place.
  unfoldable pub locate : HashMap V → ℕ → Option (ℕ × Chain V)
  locate m key = do h ← hash_map_hash m key; chain ← get_elem? m.bucket h; some (h, chain)

  unfoldable pub hash_map_add : HashMap V → ℕ → V → Option (HashMap V)
  hash_map_add m key d = do
    (h, chain) ← locate m key
    some (record m { bucket = set m.bucket h ((key, d) ∷ chain); c = m.c + 1 })

  unfoldable pub chain_find : ℕ → Chain V → Option V
  chain_find key [] = none
  chain_find key (e ∷ chain) = if e.0 == key then some e.1 else chain_find key chain

  -- The cell that `hash_map_pop` unlinks: the first with the key.
  unfoldable pub chain_unlink : ℕ → Chain V → Chain V
  chain_unlink key [] = []
  chain_unlink key (e ∷ chain) = if e.0 == key then chain else e ∷ chain_unlink key chain

  unfoldable pub hash_map_pop : HashMap V → ℕ → Option (Option V × HashMap V)
  hash_map_pop m key = do
    (h, chain) ← locate m key
    elim (chain_find key chain) [
      | none ↦ some (none, m)
      | some d ↦
          some (some d, record m { bucket = set m.bucket h (chain_unlink key chain); c = m.c - 1 })
    ]

  unfoldable pub hash_map_find : HashMap V → ℕ → Option (Option V)
  hash_map_find m key = do (_, chain) ← locate m key; some (chain_find key chain)

  -- `hash_map_remove` looks for the data, by the test `same`; the buckets are gone through in order.
  unfoldable pub chain_remove : (V → Bool) → Chain V → Option (Chain V)
  chain_remove same [] = none
  chain_remove same (e ∷ chain) =
      let rest = chain_remove same chain in
      if same e.1 then some chain else elim rest [ none ↦ none | some r ↦ some (e ∷ r) ]

  unfoldable pub buckets_remove : (V → Bool) → List (Chain V) → Option (List (Chain V))
  buckets_remove same [] = none
  buckets_remove same (chain ∷ bs) =
      let rest = buckets_remove same bs in
      elim (chain_remove same chain) [
        | some chain' ↦ some (chain' ∷ bs)
        | none ↦ elim rest [ none ↦ none | some r ↦ some (chain ∷ r) ]
      ]

  -- `true` stands for the result 0, `false` for -1.
  unfoldable pub hash_map_remove : HashMap V → (V → Bool) → Bool × HashMap V
  hash_map_remove m same = elim (buckets_remove same m.bucket) [
    | none ↦ (false, m)
    | some bs ↦ (true, record m { bucket = bs; c = m.c - 1 })
  ]
