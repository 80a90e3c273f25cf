-- ===== src/Comm/Data/Sid.antt =====
-- Message ids: distinct where they are made, and no longer so where they are received.
use dlfree.Base.{ℕ, ◌+◌, ◌^◌, ◌<◌, ◌≡◌, some, List, [], ◌++◌, arith}
use dlfree.Std.Bytes.{Endian, pack_uint64, unpack_uint64}
use dlfree.Std.Bytes.RoundTrip.{sign_extended, unpack_uint64-pack_uint64}
use dlfree.Comm.Data.{get_new_sid}

-- Below 2 ^ 44 messages and for node ids of 20 bits, two ids are equal only where both the counter
-- and the node are.
pub get_new_sid_injective :
    (c d n m : ℕ) {s : ℕ} {c' d' : ℕ}
    → c < 2 ^ 44
    → d < 2 ^ 44
    → get_new_sid c n ≡ some (s, c')
    → get_new_sid d m ≡ some (s, d')
    → (c ≡ d) × (n ≡ m)
unfolding get_new_sid
get_new_sid_injective c d n m h k p q = ground arith

sid_same_low :
    (c n : ℕ) {s t : ℕ} {c' d' : ℕ}
    → c + 4096 < 2 ^ 44
    → get_new_sid c n ≡ some (s, c')
    → get_new_sid (c + 4096) n ≡ some (t, d')
    → (sign_extended s ≡ sign_extended t) × (s < 2 ^ 64) × (t < 2 ^ 64)
unfolding get_new_sid
sid_same_low c n h p q = ground arith

-- The ids of two messages of one node that are 4096 messages apart are unpacked as one number, by
-- hosts of any byte order.
pub sid_collision :
    (e e' : Endian) (c n : ℕ) (rest : List ℕ) {s t : ℕ} {c' d' : ℕ}
    → c + 4096 < 2 ^ 44
    → get_new_sid c n ≡ some (s, c')
    → get_new_sid (c + 4096) n ≡ some (t, d')
    → unpack_uint64 e' (pack_uint64 e [] s ++ rest) ≡ unpack_uint64 e' (pack_uint64 e [] t ++ rest)
sid_collision e e' c n rest {s} {t} h p q =
    let (same, s_small, t_small) = sid_same_low c n h p q in
    rw (
      unpack_uint64-pack_uint64 e e' s rest s_small,
      unpack_uint64-pack_uint64 e e' t rest t_small,
      same,
    )

sid_small :
    (c n : ℕ) {s c' : ℕ}
    → c < 2048
    → get_new_sid c n ≡ some (s, c')
    → (sign_extended s ≡ s) × (s < 2 ^ 64)
unfolding get_new_sid
sid_small c n h p = ground arith

-- The ids of the first 2048 messages of a node arrive as they were sent.
pub sid_arrives :
    (e e' : Endian) (c n : ℕ) (rest : List ℕ) {s c' : ℕ}
    → c < 2048
    → get_new_sid c n ≡ some (s, c')
    → unpack_uint64 e' (pack_uint64 e [] s ++ rest) ≡ some (s, rest)
sid_arrives e e' c n rest {s} h p =
    let (same, small) = sid_small c n h p in rw (unpack_uint64-pack_uint64 e e' s rest small, same)
