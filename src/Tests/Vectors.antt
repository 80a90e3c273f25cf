-- ===== src/Tests/Vectors.antt =====
-- A vector of three elements in four slots.
use dlfree.Base.{ℕ, ◌+◌, ◌-◌, ◌*◌, ◌<◌, ◌≤◌, ◌≡◌, ◌⊎◌, none, some, arith, inl, ltb, if◌then◌else◌}
use dlfree.Std.Vector.{Vector, vector_add, vector_get, vector_del, vector_reverse}
use dlfree.Std.Vector.Shift.{vector_add-last, vector_del-cases}
use dlfree.Std.Vector.Reverse.{vector_reverse-get}

abbrev fresh : ℕ → ℕ
fresh i = 99

abbrev three : Vector ℕ
three = record { n = 4; c = 3; vec = λ i. i * 10 }

vector_add-last_example :
    (v' : Vector ℕ) × (vector_add fresh three 30 ≡ some v')
    × (v'.c ≡ 4)
    × (v'.c ≤ v'.n)
    × (vector_get v' 3 ≡ some 30)
    × ((i : ℕ) → i < 3 → vector_get v' i ≡ vector_get three i)
vector_add-last_example = vector_add-last fresh three 30 (omega arith) (inl (omega arith))

vector_del-cases_example :
    ((3 < 4)
      × ((x : ℕ) × (v' : Vector ℕ) × (vector_del three 1 ≡ some (x, v'))
          × (vector_get three 1 ≡ some x)
          × (v'.c + 1 ≡ 3)
          × (v'.n ≡ 4)
          × ((j : ℕ)
              → j < v'.c
              → vector_get v' j
                ≡ (if ltb j 1 then vector_get three j else vector_get three (j + 1)))))
    ⊎ ((three.c ≡ three.n) × (vector_del three 1 ≡ none))
vector_del-cases_example = vector_del-cases three 1 (omega arith) (omega arith)

vector_reverse-get_example :
    (v' : Vector ℕ) × (vector_reverse three ≡ some v')
    × (v'.c ≡ 3)
    × ((i : ℕ) → i < 3 → vector_get v' i ≡ vector_get three (3 - 1 - i))
vector_reverse-get_example = vector_reverse-get three (omega arith)
