-- ===== src/Std/Bytes.antt =====
-- src/std/bytes.c: integers in network byte order. Memory is a list of bytes: the bytes written so
-- far for a `void **pp` that is written through, the bytes that are left for one that is read.
pub mod RoundTrip
use dlfree.Base.{
  ℕ, suc, ◌+◌, ◌-◌, ◌*◌, ◌/◌, ◌%◌, ◌^◌, ◌<◌, Option, none, some, List, [], ◌∷◌, ◌++◌, ltb,
  if◌then◌else◌,
}
use dlfree.Base.Int.{ℤ, pos, negsuc}

-- `__BYTE_ORDER` of the host.
pub data Endian : Type 0 where
  little big : Endian

-- The bit pattern of an `int`, and the `int` of a bit pattern below 2 ^ 32.
unfoldable pub word32 : ℤ → ℕ
word32 (pos n) = n % 2 ^ 32
word32 (negsuc n) = 2 ^ 32 - 1 - n % 2 ^ 32

unfoldable pub int32 : ℕ → ℤ
int32 w = if ltb w (2 ^ 31) then pos w else negsuc (2 ^ 32 - w - 1)

-- The conversion of an `int` to `uint64_t`.
unfoldable pub word64 : ℤ → ℕ
word64 (pos n) = n % 2 ^ 64
word64 (negsuc n) = 2 ^ 64 - 1 - n % 2 ^ 64

-- The numbers that an `int` holds.
abbrev pub IsInt32 : ℤ → Type 0
IsInt32 (pos n) = n < 2 ^ 31
IsInt32 (negsuc n) = n < 2 ^ 31

abbrev pub byte : ℕ → ℕ → ℕ
byte v k = v / 2 ^ (8 * k) % 256

-- A 32-bit and a 64-bit object in memory.
unfoldable pub store32 : Endian → ℕ → List ℕ
store32 big w = byte w 3 ∷ byte w 2 ∷ byte w 1 ∷ byte w 0 ∷ []
store32 little w = byte w 0 ∷ byte w 1 ∷ byte w 2 ∷ byte w 3 ∷ []

unfoldable pub store64 : Endian → ℕ → List ℕ
store64 big v = store32 big (v / 2 ^ 32 % 2 ^ 32) ++ store32 big (v % 2 ^ 32)
store64 little v = store32 little (v % 2 ^ 32) ++ store32 little (v / 2 ^ 32 % 2 ^ 32)

unfoldable pub join32 : Endian → ℕ → ℕ → ℕ → ℕ → ℕ
join32 big a b c d = a * 2 ^ 24 + b * 2 ^ 16 + c * 2 ^ 8 + d
join32 little a b c d = d * 2 ^ 24 + c * 2 ^ 16 + b * 2 ^ 8 + a

unfoldable pub join64 : Endian → ℕ → ℕ → ℕ
join64 big a b = a * 2 ^ 32 + b
join64 little a b = b * 2 ^ 32 + a

-- A read past the end of the memory is a fault.
unfoldable pub load32 : Endian → List ℕ → Option (ℕ × List ℕ)
load32 e (a ∷ b ∷ c ∷ d ∷ rest) = some (join32 e a b c d, rest)
load32 e _ = none

infixl 5 ◌>>=◌
abbrev pub ◌>>=◌ {ℓ κ} : {A : Type ℓ} {B : Type κ} → Option A → (A → Option B) → Option B
none >>= f = none
some a >>= f = f a

unfoldable pub load64 : Endian → List ℕ → Option (ℕ × List ℕ)
load64 e bytes = do
  (a, bytes') ← load32 e bytes
  (b, rest) ← load32 e bytes'
  some (join64 e a b, rest)

unfoldable pub swap32 : ℕ → ℕ
swap32 w = byte w 0 * 2 ^ 24 + byte w 1 * 2 ^ 16 + byte w 2 * 2 ^ 8 + byte w 3

-- The library's `htonl` and `ntohl`.
unfoldable pub htonl : Endian → ℕ → ℕ
htonl big w = w
htonl little w = swap32 w

unfoldable pub htonll : Endian → ℕ → ℕ
htonll big v = v
htonll little v = (htonl little (v / 2 ^ 32 % 2 ^ 32) + htonl little (v % 2 ^ 32) * 2 ^ 32) % 2 ^ 64

unfoldable pub ntohll : Endian → ℕ → ℕ
ntohll big v = v
ntohll little v = (htonl little (v / 2 ^ 32 % 2 ^ 32) + htonl little (v % 2 ^ 32) * 2 ^ 32) % 2 ^ 64

unfoldable pub pack_int : Endian → List ℕ → ℤ → List ℕ
pack_int e out i = out ++ store32 e (htonl e (word32 i))

unfoldable pub unpack_int : Endian → List ℕ → Option (ℤ × List ℕ)
unpack_int e bytes = do (w, rest) ← load32 e bytes; some (int32 (htonl e w), rest)

unfoldable pub pack_uint64 : Endian → List ℕ → ℕ → List ℕ
pack_uint64 e out v = out ++ store64 e (htonll e v)

-- The value passes through the variable `int val`.
unfoldable pub unpack_uint64 : Endian → List ℕ → Option (ℕ × List ℕ)
unpack_uint64 e bytes = do
  (w, rest) ← load64 e bytes
  some (word64 (int32 (ntohll e w % 2 ^ 32)), rest)

unfoldable pub pack_buff : List ℕ → List ℕ → List ℕ
pack_buff out src = out ++ src
