-- ===== src/Graph/Dijkstra/Order.antt =====
-- The order of the weights.
use dlfree.Base.{◌≡◌, true, false, Bool-cases, inl, inr}
use dlfree.Graph.Weight.{Weight}

module _ (w : Weight) where
  open w use {
    Carrier, zero_weight, add, less, max_dist, less_irrefl, le_trans, add_grows, less_asymm,
  }

  abbrev pub Le : Carrier → Carrier → Type 0
  Le a b = less b a ≡ false

  pub less_trans : (a b c : Carrier) → less a b ≡ true → less b c ≡ true → less a c ≡ true
  less_trans a b c h k = elim (Bool-cases (less a c)) [
    | inl e ↦ e
    | inr e ↦ let back = le_trans b c a (less_asymm b c k) e in cc
  ]

  pub less_of_less_of_le : (a b c : Carrier) → less a b ≡ true → Le b c → less a c ≡ true
  less_of_less_of_le a b c h k = elim (Bool-cases (less a c)) [
    | inl e ↦ e
    | inr e ↦ let back = le_trans b c a k e in cc
  ]
