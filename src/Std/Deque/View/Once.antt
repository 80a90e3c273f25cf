-- ===== src/Std/Deque/View/Once.antt =====
-- Lists without repetition that get an element more or one less, and functions over such lists.
use dlfree.Base.{
  ℕ, ◌≡◌, ◌≢◌, refl, ap, sym, ◌∙◌, Bool, true, false, ◌&&◌, ◌||◌, List, [], ◌∷◌, ◌++◌, ◌==◌, map,
  has, distinct, arith,
}
use dlfree.Std.Deque.Ring.{in_ne, distinct-front, distinct-rest, out-rest, out-front, mid-has}

pub has-insert : (j c : ℕ) (xs ys : List ℕ) → has j (xs ++ c ∷ ys) ≡ ((j == c) || has j (xs ++ ys))
has-insert j c [] ys = refl
has-insert j c (x ∷ xs) ys =
    ap (λ (b : Bool). (j == x) || b) (has-insert j c xs ys)
    ∙ swapped (j == x) (j == c) (has j (xs ++ ys))
  where
    swapped : (p q r : Bool) → (p || (q || r)) ≡ (q || (p || r))
    swapped true true r = refl
    swapped true false r = refl
    swapped false true r = refl
    swapped false false r = refl

and_both : (a b : Bool) → a ≡ true → b ≡ true → (a && b) ≡ true
and_both a b e e' = rw (e, e') refl

pub distinct-insert :
    (c : ℕ) (xs ys : List ℕ)
    → distinct (xs ++ ys) ≡ true
    → has c (xs ++ ys) ≡ false
    → distinct (xs ++ c ∷ ys) ≡ true
distinct-insert c [] ys d out = rw (out, d) refl
distinct-insert c (x ∷ xs) ys d out =
    let apart = out-front c x (xs ++ ys) out in
    let e : (x == c) ≡ false = ground (arith, apart) in
    let not_in : has x (xs ++ c ∷ ys) ≡ false =
      has-insert x c xs ys ∙ rw e (distinct-front x (xs ++ ys) d) in
    let rest =
      distinct-insert c xs ys (distinct-rest x (xs ++ ys) d) (out-rest c x (xs ++ ys) out) in
    rw (not_in, rest) refl

pub distinct-remove :
    (c : ℕ) (xs ys : List ℕ) → distinct (xs ++ c ∷ ys) ≡ true → distinct (xs ++ ys) ≡ true
distinct-remove c [] ys d = distinct-rest c ys d
distinct-remove c (x ∷ xs) ys d =
    let rest = distinct-remove c xs ys (distinct-rest x (xs ++ c ∷ ys) d) in
    let among = distinct-front x (xs ++ c ∷ ys) d in
    let not_in : has x (xs ++ ys) ≡ false =
      right_false (x == c) (has x (xs ++ ys)) (sym (has-insert x c xs ys) ∙ among) in
    rw (not_in, rest) refl
  where
    right_false : (p q : Bool) → (p || q) ≡ false → q ≡ false
    right_false true q e = absurd (ground (arith, e))
    right_false false q e = e

pub out-remove :
    (c : ℕ) (xs ys : List ℕ) → distinct (xs ++ c ∷ ys) ≡ true → has c (xs ++ ys) ≡ false
out-remove c [] ys d = distinct-front c ys d
out-remove c (x ∷ xs) ys d =
    let rest = out-remove c xs ys (distinct-rest x (xs ++ c ∷ ys) d) in
    let apart : c ≢ x =
      in_ne x c (xs ++ c ∷ ys) (distinct-front x (xs ++ c ∷ ys) d) (mid-has c xs ys) in
    let e : (c == x) ≡ false = ground (arith, apart) in rw (e, rest) refl

pub map-same :
    {A : Type 0} (f g : ℕ → A) (xs : List ℕ)
    → ((j : ℕ) → has j xs ≡ true → f j ≡ g j)
    → map f xs ≡ map g xs
map-same f g [] same = refl
map-same f g (x ∷ xs) same =
    let e = same x (ground arith) in
    let e' = map-same f g xs (λ j h. same j (rw h (or_true (j == x)))) in rw (e, e') refl
  where
    or_true : (b : Bool) → (b || true) ≡ true
    or_true true = refl
    or_true false = refl

pub map-append : {A : Type 0} (f : ℕ → A) (xs ys : List ℕ) → map f (xs ++ ys) ≡ map f xs ++ map f ys
map-append f [] ys = refl
map-append f (x ∷ xs) ys = ap (λ (l : List _). f x ∷ l) (map-append f xs ys)
