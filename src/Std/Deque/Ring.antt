-- ===== src/Std/Deque/Ring.antt =====
-- The links of src/std/list.c in each direction, from one cell over others to a last one.
use dlfree.Base.{
  ℕ, ◌≡◌, ◌≢◌, refl, sym, ◌∙◌, Bool, true, false, not, ◌&&◌, ◌||◌, List, [], ◌∷◌, ◌++◌, ◌==◌, has,
  distinct, arith,
}

pub data Nexts (nx : ℕ → ℕ) : (a : ℕ) → List ℕ → (b : ℕ) → Type 0 where
  last_next : {a b : ℕ} → nx a ≡ b → Nexts nx a [] b
  one_next : {a b c : ℕ} {cs : List ℕ} → nx a ≡ c → Nexts nx c cs b → Nexts nx a (c ∷ cs) b

pub data Prevs (pv : ℕ → ℕ) : (a : ℕ) → List ℕ → (b : ℕ) → Type 0 where
  last_prev : {a b : ℕ} → pv b ≡ a → Prevs pv a [] b
  one_prev : {a b c : ℕ} {cs : List ℕ} → pv c ≡ a → Prevs pv c cs b → Prevs pv a (c ∷ cs) b

abbrev pub last_of : ℕ → List ℕ → ℕ
last_of a [] = a
last_of a (c ∷ cs) = last_of c cs

abbrev pub first_of : List ℕ → ℕ → ℕ
first_of [] b = b
first_of (c ∷ cs) b = c

has_self : (a : ℕ) (xs : List ℕ) → has a (a ∷ xs) ≡ true
has_self a xs = ground arith

has_tail : (j a : ℕ) (xs : List ℕ) → has j xs ≡ true → has j (a ∷ xs) ≡ true
has_tail j a xs h = rw h (or_true (j == a))
  where
    or_true : (b : Bool) → (b || true) ≡ true
    or_true true = refl
    or_true false = refl

-- Changes outside do not matter.
pub Nexts-frame :
    (nx nx' : ℕ → ℕ) (a b : ℕ) (cs : List ℕ)
    → ((j : ℕ) → has j (a ∷ cs) ≡ true → nx' j ≡ nx j)
    → Nexts nx a cs b
    → Nexts nx' a cs b
Nexts-frame nx nx' a b [] same (last_next e) = last_next (same a (has_self a []) ∙ e)
Nexts-frame nx nx' a b (c ∷ cs) same (one_next e rest) =
    one_next (same a (has_self a (c ∷ cs)) ∙ e)
      (Nexts-frame nx nx' c b cs (λ j h. same j (has_tail j a (c ∷ cs) h)) rest)

pub Prevs-frame :
    (pv pv' : ℕ → ℕ) (a b : ℕ) (cs : List ℕ)
    → ((j : ℕ) → has j (b ∷ cs) ≡ true → pv' j ≡ pv j)
    → Prevs pv a cs b
    → Prevs pv' a cs b
Prevs-frame pv pv' a b [] same (last_prev e) = last_prev (same b (has_self b []) ∙ e)
Prevs-frame pv pv' a b (c ∷ cs) same (one_prev e rest) =
    one_prev (same c (has_tail c b (c ∷ cs) (has_self c cs)) ∙ e)
      (Prevs-frame pv pv' c b cs (λ j h. same j (in_front j h)) rest)
  where
    in_front : (j : ℕ) → has j (b ∷ cs) ≡ true → has j (b ∷ c ∷ cs) ≡ true
    in_front j h = swapped (j == b) (j == c) (has j cs) h
      where
        swapped : (p q r : Bool) → (p || r) ≡ true → (p || (q || r)) ≡ true
        swapped true q r e = refl
        swapped false true r e = refl
        swapped false false r e = e

-- Who is in a list, and who is not.
pub in_ne : (c j : ℕ) (xs : List ℕ) → has c xs ≡ false → has j xs ≡ true → j ≢ c
in_ne c j xs out h e = let h' = rw e at h in cc

pub distinct-front : (a : ℕ) (xs : List ℕ) → distinct (a ∷ xs) ≡ true → has a xs ≡ false
distinct-front a xs d = by_bits (has a xs) (distinct xs) d
  where
    by_bits : (h r : Bool) → (not h && r) ≡ true → h ≡ false
    by_bits true r e = sym e
    by_bits false r e = refl

pub distinct-rest : (a : ℕ) (xs : List ℕ) → distinct (a ∷ xs) ≡ true → distinct xs ≡ true
distinct-rest a xs d = by_bits (has a xs) (distinct xs) d
  where
    by_bits : (h r : Bool) → (not h && r) ≡ true → r ≡ true
    by_bits true r e = absurd (ground (arith, e))
    by_bits false r e = e

pub out-rest : (c a : ℕ) (xs : List ℕ) → has c (a ∷ xs) ≡ false → has c xs ≡ false
out-rest c a xs e = by_bits (c == a) (has c xs) e
  where
    by_bits : (p q : Bool) → (p || q) ≡ false → q ≡ false
    by_bits true q e = absurd (ground (arith, e))
    by_bits false q e = e

pub out-front : (c a : ℕ) (xs : List ℕ) → has c (a ∷ xs) ≡ false → a ≢ c
out-front c a xs e = in_ne c a (a ∷ xs) e (has_self a xs)

pub last_of-has : (a : ℕ) (xs ys : List ℕ) → has (last_of a xs) (a ∷ xs ++ ys) ≡ true
last_of-has a [] ys = has_self a ys
last_of-has a (x ∷ xs) ys = has_tail (last_of x xs) a (x ∷ xs ++ ys) (last_of-has x xs ys)

swap-has : (j a b : ℕ) (xs : List ℕ) → has j (a ∷ b ∷ xs) ≡ has j (b ∷ a ∷ xs)
swap-has j a b xs = by_bits (j == a) (j == b) (has j xs)
  where
    by_bits : (p q r : Bool) → (p || (q || r)) ≡ (q || (p || r))
    by_bits true true r = refl
    by_bits true false r = refl
    by_bits false true r = refl
    by_bits false false r = refl

pub first_of-has : (b : ℕ) (xs ys : List ℕ) → has (first_of ys b) (b ∷ xs ++ ys) ≡ true
first_of-has b [] [] = has_self b []
first_of-has b [] (y ∷ ys) = has_tail y b (y ∷ ys) (has_self y ys)
first_of-has b (x ∷ xs) ys =
    swap-has (first_of ys b) b x (xs ++ ys)
    ∙ has_tail (first_of ys b) x (b ∷ xs ++ ys) (first_of-has b xs ys)

pub mid-has : (c : ℕ) (xs ys : List ℕ) → has c (xs ++ c ∷ ys) ≡ true
mid-has c [] ys = has_self c ys
mid-has c (x ∷ xs) ys = has_tail c x (xs ++ c ∷ ys) (mid-has c xs ys)

pub first_of-past : (b c : ℕ) (xs ys : List ℕ) → has (first_of ys b) (b ∷ xs ++ c ∷ ys) ≡ true
first_of-past b c [] ys =
    swap-has (first_of ys b) b c ys ∙ has_tail (first_of ys b) c (b ∷ ys) (first_of-has b [] ys)
first_of-past b c (x ∷ xs) ys =
    swap-has (first_of ys b) b x (xs ++ c ∷ ys)
    ∙ has_tail (first_of ys b) x (b ∷ xs ++ c ∷ ys) (first_of-past b c xs ys)

-- The last cell does not stand among the others, nor does it in a rest of these.
distinct-tail : (b x : ℕ) (xs : List ℕ) → distinct (b ∷ x ∷ xs) ≡ true → distinct (b ∷ xs) ≡ true
distinct-tail b x xs d =
    let out = out-rest b x xs (distinct-front b (x ∷ xs) d) in
    let d' = distinct-rest x xs (distinct-rest b (x ∷ xs) d) in rw (out, d') refl

not_among : (b x : ℕ) (xs : List ℕ) → distinct (b ∷ x ∷ xs) ≡ true → has x (b ∷ xs) ≡ false
not_among b x xs d =
    let out = distinct-front b (x ∷ xs) d in
    let apart : x ≢ b = (λ e. out-front b x xs out e) in
    let e : (x == b) ≡ false = ground (arith, apart) in
    rw e (distinct-front x xs (distinct-rest b (x ∷ xs) d))

-- A cell `c` is linked in between `xs` and `ys`.
pub Nexts-insert :
    (nx nx' : ℕ → ℕ) (a b c : ℕ) (xs ys : List ℕ)
    → nx' (last_of a xs) ≡ c
    → nx' c ≡ nx (last_of a xs)
    → ((j : ℕ) → j ≢ last_of a xs → j ≢ c → nx' j ≡ nx j)
    → distinct (a ∷ xs ++ ys) ≡ true
    → has c (a ∷ xs ++ ys) ≡ false
    → Nexts nx a (xs ++ ys) b
    → Nexts nx' a (xs ++ c ∷ ys) b
Nexts-insert nx nx' a b c [] [] to from same d out (last_next e) =
    one_next to (last_next (from ∙ e))
Nexts-insert nx nx' a b c [] (y ∷ ys) to from same d out (one_next e rest) = one_next to (
    one_next (from ∙ e) (
      Nexts-frame nx nx' y b ys
        (λ j h.
          same j (in_ne a j (y ∷ ys) (distinct-front a (y ∷ ys) d) h)
            (in_ne c j (y ∷ ys) (out-rest c a (y ∷ ys) out) h))
        rest))
Nexts-insert nx nx' a b c (x ∷ xs) ys to from same d out (one_next e rest) =
    let apart : a ≢ last_of x xs = (λ e.
      in_ne a (last_of x xs) (x ∷ xs ++ ys) (distinct-front a (x ∷ xs ++ ys) d)
        (last_of-has x xs ys) (sym e)) in
    one_next (same a apart (out-front c a (x ∷ xs ++ ys) out) ∙ e) (
      Nexts-insert nx nx' x b c xs ys to from same (distinct-rest a (x ∷ xs ++ ys) d)
        (out-rest c a (x ∷ xs ++ ys) out) rest)

pub Prevs-insert :
    (pv pv' : ℕ → ℕ) (a b c : ℕ) (xs ys : List ℕ)
    → pv' (first_of ys b) ≡ c
    → pv' c ≡ pv (first_of ys b)
    → ((j : ℕ) → j ≢ first_of ys b → j ≢ c → pv' j ≡ pv j)
    → distinct (b ∷ xs ++ ys) ≡ true
    → has c (b ∷ xs ++ ys) ≡ false
    → Prevs pv a (xs ++ ys) b
    → Prevs pv' a (xs ++ c ∷ ys) b
Prevs-insert pv pv' a b c [] [] to from same d out (last_prev e) =
    one_prev (from ∙ e) (last_prev to)
Prevs-insert pv pv' a b c [] (y ∷ ys) to from same d out (one_prev e rest) = one_prev (from ∙ e) (
    one_prev to (
      Prevs-frame pv pv' y b ys
        (λ j h.
          same j (in_ne y j (b ∷ ys) (not_among b y ys d) h)
            (in_ne c j (b ∷ ys) (out-rest c y (b ∷ ys) (sym (swap-has c b y ys) ∙ out)) h))
        rest))
Prevs-insert pv pv' a b c (x ∷ xs) ys to from same d out (one_prev e rest) =
    let apart : x ≢ first_of ys b = (λ e.
      in_ne x (first_of ys b) (b ∷ xs ++ ys) (not_among b x (xs ++ ys) d) (first_of-has b xs ys)
        (sym e)) in
    one_prev (same x apart (out-front c x (xs ++ ys) (out-rest c b (x ∷ xs ++ ys) out)) ∙ e) (
      Prevs-insert pv pv' x b c xs ys to from same (distinct-tail b x (xs ++ ys) d)
        (out-rest c x (b ∷ xs ++ ys) (sym (swap-has c b x (xs ++ ys)) ∙ out)) rest)

-- The cell `c` between `xs` and `ys` is linked out.
pub Nexts-remove :
    (nx nx' : ℕ → ℕ) (a b c : ℕ) (xs ys : List ℕ)
    → nx' (last_of a xs) ≡ nx c
    → ((j : ℕ) → j ≢ last_of a xs → j ≢ c → nx' j ≡ nx j)
    → distinct (a ∷ xs ++ c ∷ ys) ≡ true
    → Nexts nx a (xs ++ c ∷ ys) b
    → Nexts nx' a (xs ++ ys) b
Nexts-remove nx nx' a b c [] [] to same d (one_next e (last_next e')) = last_next (to ∙ e')
Nexts-remove nx nx' a b c [] (y ∷ ys) to same d (one_next e (one_next e' rest)) =
    one_next (to ∙ e') (
      Nexts-frame nx nx' y b ys
        (λ j h.
          same j (in_ne a j (y ∷ ys) (out-rest a c (y ∷ ys) (distinct-front a (c ∷ y ∷ ys) d)) h)
            (in_ne c j (y ∷ ys) (distinct-front c (y ∷ ys) (distinct-rest a (c ∷ y ∷ ys) d)) h))
        rest)
Nexts-remove nx nx' a b c (x ∷ xs) ys to same d (one_next e rest) =
    let apart : a ≢ last_of x xs = (λ e.
      in_ne a (last_of x xs) (x ∷ xs ++ c ∷ ys) (distinct-front a (x ∷ xs ++ c ∷ ys) d)
        (last_of-has x xs (c ∷ ys)) (sym e)) in
    let apart' : a ≢ c = (λ e.
      in_ne a c (x ∷ xs ++ c ∷ ys) (distinct-front a (x ∷ xs ++ c ∷ ys) d) (mid-has c (x ∷ xs) ys)
        (sym e)) in
    one_next (same a apart apart' ∙ e)
      (Nexts-remove nx nx' x b c xs ys to same (distinct-rest a (x ∷ xs ++ c ∷ ys) d) rest)

pub Prevs-remove :
    (pv pv' : ℕ → ℕ) (a b c : ℕ) (xs ys : List ℕ)
    → pv' (first_of ys b) ≡ pv c
    → ((j : ℕ) → j ≢ first_of ys b → j ≢ c → pv' j ≡ pv j)
    → distinct (b ∷ xs ++ c ∷ ys) ≡ true
    → Prevs pv a (xs ++ c ∷ ys) b
    → Prevs pv' a (xs ++ ys) b
Prevs-remove pv pv' a b c [] [] to same d (one_prev e (last_prev e')) = last_prev (to ∙ e)
Prevs-remove pv pv' a b c [] (y ∷ ys) to same d (one_prev e (one_prev e' rest)) =
    one_prev (to ∙ e) (
      Prevs-frame pv pv' y b ys
        (λ j h. same j (in_ne y j (b ∷ ys) (not_among b y ys (distinct-tail b c (y ∷ ys) d)) h) (
          in_ne c j (b ∷ ys)
            (out-rest c y (b ∷ ys) (sym (swap-has c b y ys) ∙ not_among b c (y ∷ ys) d)) h))
        rest)
Prevs-remove pv pv' a b c (x ∷ xs) ys to same d (one_prev e rest) =
    let apart : x ≢ first_of ys b = (λ e.
      in_ne x (first_of ys b) (b ∷ xs ++ c ∷ ys) (not_among b x (xs ++ c ∷ ys) d)
        (first_of-past b c xs ys) (sym e)) in
    let apart' : x ≢ c = (λ e.
      in_ne x c (xs ++ c ∷ ys)
        (distinct-front x (xs ++ c ∷ ys) (distinct-rest b (x ∷ xs ++ c ∷ ys) d)) (mid-has c xs ys)
        (sym e)) in
    one_prev (same x apart apart' ∙ e)
      (Prevs-remove pv pv' x b c xs ys to same (distinct-tail b x (xs ++ c ∷ ys) d) rest)
