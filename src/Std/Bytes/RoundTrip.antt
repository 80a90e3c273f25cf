-- ===== src/Std/Bytes/RoundTrip.antt =====
-- What is written by a host of either byte order is read back by a host of either byte order.
use mathlib.Core.List.{append_assoc}
use dlfree.Base.{
  ℕ, ◌+◌, ◌-◌, ◌*◌, ◌/◌, ◌%◌, ◌^◌, ◌<◌, ◌≡◌, refl, ap, some, List, [], ◌++◌, arith, ltb, length,
  length-append, if◌then◌else◌,
}
use dlfree.Base.Int.{ℤ, pos, negsuc}
use dlfree.Std.Bytes.{
  Endian, little, big, word32, int32, word64, IsInt32, byte, store32, store64, join32, join64,
  load32, load64, swap32, htonl, htonll, ntohll, pack_int, unpack_int, pack_uint64, unpack_uint64,
}

swap-byte :
    (w : ℕ)
    → (byte (swap32 w) 0 ≡ byte w 3)
      × (byte (swap32 w) 1 ≡ byte w 2)
      × (byte (swap32 w) 2 ≡ byte w 1)
      × (byte (swap32 w) 3 ≡ byte w 0)
unfolding swap32
swap-byte w = omega arith

-- The bytes of a word on the wire, the highest first.
pub wire32 : (e : Endian) (w : ℕ) → w < 2 ^ 32 → store32 e (htonl e w) ≡ store32 big w
unfolding store32 htonl
wire32 big w h = refl
wire32 little w h = ground (arith, swap-byte w)

pub load32-wire :
    (e : Endian) (w : ℕ) (rest : List ℕ)
    → w < 2 ^ 32
    → (r : ℕ) × (load32 e (store32 big w ++ rest) ≡ some (r, rest)) × (htonl e r ≡ w) × (r < 2 ^ 32)
unfolding load32 join32 store32 htonl swap32
load32-wire big w rest h = (w, ap (λ (r : ℕ). some (r, rest)) (omega arith), refl, h)
load32-wire little w rest h =
    (swap32 w, ap (λ (r : ℕ). some (r, rest)) (omega arith), omega arith, omega arith)

word32-lt : (i : ℤ) → word32 i < 2 ^ 32
unfolding word32
word32-lt (pos n) = omega arith
word32-lt (negsuc n) = omega arith

int32-word32 : (i : ℤ) → IsInt32 i → int32 (word32 i) ≡ i
unfolding int32 word32
int32-word32 (pos n) h = ground arith
int32-word32 (negsuc n) h = ground arith

-- An `int` that a host packs is what any host unpacks, and the bytes that follow it are left.
pub unpack_int-pack_int :
    (e e' : Endian) (i : ℤ) (rest : List ℕ)
    → IsInt32 i
    → unpack_int e' (pack_int e [] i ++ rest) ≡ some (i, rest)
unfolding pack_int unpack_int
unpack_int-pack_int e e' i rest h =
    let (r, read, back, _) = load32-wire e' (word32 i) rest (word32-lt i) in
    rw (wire32 e (word32 i) (word32-lt i), read, back, int32-word32 i h)

htonl-lt : (e : Endian) (w : ℕ) → w < 2 ^ 32 → htonl e w < 2 ^ 32
unfolding htonl swap32
htonl-lt big w h = h
htonl-lt little w h = omega arith

halves :
    (a b : ℕ)
    → a < 2 ^ 32
    → b < 2 ^ 32
    → ((a + b * 2 ^ 32) % 2 ^ 64 % 2 ^ 32 ≡ a) × ((a + b * 2 ^ 32) % 2 ^ 64 / 2 ^ 32 % 2 ^ 32 ≡ b)
halves a b h k = omega arith

wire64 :
    (e : Endian) (v : ℕ)
    → v < 2 ^ 64
    → store64 e (htonll e v) ≡ store32 big (v / 2 ^ 32 % 2 ^ 32) ++ store32 big (v % 2 ^ 32)
unfolding htonll store64
wire64 big v h = refl
wire64 little v h =
    let hi = v / 2 ^ 32 % 2 ^ 32 in
    let lo = v % 2 ^ 32 in
    let two =
      halves (htonl little hi) (htonl little lo) (htonl-lt little hi (omega arith))
        (htonl-lt little lo (omega arith)) in
    rw (two.0, two.1, wire32 little hi (omega arith), wire32 little lo (omega arith))

ntohll-join64 :
    (e : Endian) (a b : ℕ)
    → a < 2 ^ 32
    → b < 2 ^ 32
    → ntohll e (join64 e a b) ≡ htonl e a * 2 ^ 32 + htonl e b
unfolding ntohll join64
ntohll-join64 big a b h k = unfold htonl in refl
ntohll-join64 little a b h k =
    let split : ((b * 2 ^ 32 + a) / 2 ^ 32 % 2 ^ 32 ≡ b) × ((b * 2 ^ 32 + a) % 2 ^ 32 ≡ a) =
      omega arith in
    rw (split.0, split.1) (omega (arith, htonl-lt little a h, htonl-lt little b k))

load64-wire :
    (e : Endian) (hi lo : ℕ) (rest : List ℕ)
    → hi < 2 ^ 32
    → lo < 2 ^ 32
    → (r : ℕ) × (load64 e ((store32 big hi ++ store32 big lo) ++ rest) ≡ some (r, rest))
      × (ntohll e r ≡ hi * 2 ^ 32 + lo)
unfolding load64
load64-wire e hi lo rest h k =
    let (a, read_a, back_a, small_a) = load32-wire e hi (store32 big lo ++ rest) h in
    let (b, read_b, back_b, small_b) = load32-wire e lo rest k in
    (
      join64 e a b,
      rw (append_assoc (store32 big hi) (store32 big lo) rest, read_a, read_b),
      rw (ntohll-join64 e a b small_a small_b, back_a, back_b),
    )

-- The 64-bit value of the low 32 bits of `v` read as a signed number.
abbrev pub sign_extended : ℕ → ℕ
sign_extended v = if ltb (v % 2 ^ 32) (2 ^ 31) then v % 2 ^ 32 else 2 ^ 64 - 2 ^ 32 + v % 2 ^ 32

word64-int32 : (v : ℕ) → word64 (int32 (v % 2 ^ 32)) ≡ sign_extended v
unfolding word64 int32
word64-int32 v = ground arith

low_word : (v : ℕ) → (v / 2 ^ 32 % 2 ^ 32 * 2 ^ 32 + v % 2 ^ 32) % 2 ^ 32 ≡ v % 2 ^ 32
low_word v = omega arith

-- Only the low 32 bits of a packed `uint64_t` come back, extended by their sign.
pub unpack_uint64-pack_uint64 :
    (e e' : Endian) (v : ℕ) (rest : List ℕ)
    → v < 2 ^ 64
    → unpack_uint64 e' (pack_uint64 e [] v ++ rest) ≡ some (sign_extended v, rest)
unfolding pack_uint64 unpack_uint64
unpack_uint64-pack_uint64 e e' v rest h =
    let (r, read, back) =
      load64-wire e' (v / 2 ^ 32 % 2 ^ 32) (v % 2 ^ 32) rest (omega arith) (omega arith) in
    rw (wire64 e v h, read, back, low_word v, word64-int32 v)

-- Packing appends to the bytes that are written already.
pub pack_int-append :
    (e : Endian) (out : List ℕ) (i : ℤ) → pack_int e out i ≡ out ++ pack_int e [] i
unfolding pack_int
pack_int-append e out i = refl

pub pack_uint64-append :
    (e : Endian) (out : List ℕ) (v : ℕ) → pack_uint64 e out v ≡ out ++ pack_uint64 e [] v
unfolding pack_uint64
pack_uint64-append e out v = refl

length-store32 : (e : Endian) (w : ℕ) → length (store32 e w) ≡ 4
unfolding store32
length-store32 big w = refl
length-store32 little w = refl

pub length-pack_int :
    (e : Endian) (out : List ℕ) (i : ℤ) → length (pack_int e out i) ≡ length out + 4
unfolding pack_int
length-pack_int e out i =
    rw (length-append out (store32 e (htonl e (word32 i))), length-store32 e (htonl e (word32 i)))

length-store64 : (e : Endian) (v : ℕ) → length (store64 e v) ≡ 8
unfolding store64 store32
length-store64 big v = refl
length-store64 little v = refl

pub length-pack_uint64 :
    (e : Endian) (out : List ℕ) (v : ℕ) → length (pack_uint64 e out v) ≡ length out + 8
unfolding pack_uint64
length-pack_uint64 e out v =
    rw (length-append out (store64 e (htonll e v)), length-store64 e (htonll e v))
