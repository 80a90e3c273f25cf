-- ===== src/Graph/Weight.antt =====
-- The `float` of lengths and widths, as a parameter: the order and the sum of C, of which the code
-- relies on the laws below. They hold of all values but NaN.
use dlfree.Base.{ℕ, ◌+◌, ◌≡◌, Bool, true, false, ltb, arith, refl}

pub record Weight : Type 1 where
  pub Carrier : Type 0
  pub zero_weight : Carrier
  pub add : Carrier → Carrier → Carrier
  pub less : Carrier → Carrier → Bool
  -- `MAX_DIJKSTRA_DIST` and `MAX_DIJKSTRA_WIDTH`
  pub max_dist : Carrier
  pub max_width : Carrier
  -- the conversion `(int)` of a length and of a width
  pub to_int : Carrier → ℕ
  pub less_irrefl : (a : Carrier) → less a a ≡ false
  -- `a ≤ b` and `b ≤ c` give `a ≤ c`, where `a ≤ b` is the failure of `b < a`
  pub le_trans : (a b c : Carrier) → less b a ≡ false → less c b ≡ false → less c a ≡ false
  -- a positive summand makes no sum smaller, rounded or not
  pub add_grows : (a d : Carrier) → less zero_weight d ≡ true → less (add a d) a ≡ false
  pub less_asymm : (a b : Carrier) → less a b ≡ true → less b a ≡ false
  pub max_dist_pos : less zero_weight max_dist ≡ true

-- The numbers as weights.
pub nat_irrefl : (a : ℕ) → ltb a a ≡ false
nat_irrefl a = ground arith

pub nat_trans : (a b c : ℕ) → ltb b a ≡ false → ltb c b ≡ false → ltb c a ≡ false
nat_trans a b c h k = ground arith

pub nat_grows : (a d : ℕ) → ltb 0 d ≡ true → ltb (a + d) a ≡ false
nat_grows a d h = ground arith

pub nat_asymm : (a b : ℕ) → ltb a b ≡ true → ltb b a ≡ false
nat_asymm a b h = ground arith

abbrev pub nat_weight : Weight
nat_weight = record {
  Carrier = ℕ;
  zero_weight = 0;
  add = λ a b. a + b;
  less = ltb;
  max_dist = 10_000_000;
  max_width = 1_000_000_000;
  to_int = λ a. a;
  less_irrefl = nat_irrefl;
  le_trans = nat_trans;
  add_grows = nat_grows;
  less_asymm = nat_asymm;
  max_dist_pos = refl;
}
