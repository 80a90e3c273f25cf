-- ===== src/Graph/Dijkstra/Count.antt =====
-- The number of pairs that are not reached yet.
use dlfree.Base.{
  ℕ, zero, suc, ◌+◌, ◌*◌, ◌<◌, ◌≤◌, ◌≡◌, refl, Bool, true, false, arith, ◌==◌, Bool-cases, inl, inr,
}
use dlfree.Graph.Dijkstra.{write}

abbrev flag : Bool → ℕ
flag true = 0
flag false = 1

-- In a row, below level `l`; and in the rows below `n`.
pub row_left : (ℕ → Bool) → ℕ → ℕ
row_left r zero = 0
row_left r (suc l) = flag (r l) + row_left r l

pub left : (ℕ → ℕ → Bool) → ℕ → ℕ → ℕ
left r zero l = 0
left r (suc n) l = row_left (r n) l + left r n l

row_left-le : (r : ℕ → Bool) (l : ℕ) → row_left r l ≤ l
unfolding row_left
row_left-le r zero = omega arith
row_left-le r (suc l) = ground (arith, row_left-le r l)

pub left-le : (r : ℕ → ℕ → Bool) (n l : ℕ) → left r n l ≤ n * l
unfolding left
left-le r zero l = omega arith
left-le r (suc n) l = grind (arith, left-le r n l, row_left-le (r n) l)

row_left-same :
    (r r' : ℕ → Bool) (l k : ℕ)
    → l ≤ k
    → ((j : ℕ) → j < k → r' j ≡ r j)
    → row_left r' l ≡ row_left r l
unfolding row_left
row_left-same r r' zero k h same = refl
row_left-same r r' (suc l) k h same =
    rw (same l (omega arith), row_left-same r r' l k (omega arith) same)

left-same :
    (r r' : ℕ → ℕ → Bool) (n m l : ℕ)
    → n ≤ m
    → ((p : ℕ) → p < m → (j : ℕ) → r' p j ≡ r p j)
    → left r' n l ≡ left r n l
unfolding left
left-same r r' zero m l h same = refl
left-same r r' (suc n) m l h same = rw (
  row_left-same (r n) (r' n) l l (omega arith) (λ j _. same n (omega arith) j),
  left-same r r' n m l (omega arith) same,
)

row_left-write :
    (r : ℕ → ℕ → Bool) (p k l : ℕ)
    → k < l
    → r p k ≡ false
    → suc (row_left (write r p k true p) l) ≡ row_left (r p) l
unfolding row_left
row_left-write r p k zero h e = absurd (omega arith)
row_left-write r p k (suc l) h e = elim (Bool-cases (l == k)) [
  | inl same ↦
      let same' : l ≡ k = ground arith in
      rw
        (
          same',
          row_left-same (r p) (write r p k true p) k k (omega arith) (λ j lt. ground arith),
          e,
        )
        (ground arith)
  | inr other ↦ ground (arith, row_left-write r p k l)
]

pub left-write :
    (r : ℕ → ℕ → Bool) (p k n l : ℕ)
    → p < n
    → k < l
    → r p k ≡ false
    → suc (left (write r p k true) n l) ≡ left r n l
unfolding left
left-write r p k zero l hp hk e = absurd (omega arith)
left-write r p k (suc n) l hp hk e = elim (Bool-cases (n == p)) [
  | inl same ↦
      let same' : n ≡ p = ground arith in
      rw
        (
          same',
          left-same r (write r p k true) p p l (omega arith) (λ q lt j. ground arith),
          ← row_left-write r p k l hk e,
        )
        (omega arith)
  | inr other ↦
      rw (row_left-same (r n) (write r p k true n) l l (omega arith) (λ j lt. ground arith))
        (omega (arith, left-write r p k n l (ground arith) hk e))
]
