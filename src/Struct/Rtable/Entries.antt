-- ===== src/Struct/Rtable/Entries.antt =====
-- An entry of a routing table survives the way through its bytes.
use mathlib.Core.List.{append_assoc, append-nil}
use dlfree.Base.{
  ℕ, zero, suc, ◌+◌, ◌*◌, ◌^◌, ◌<◌, ◌≡◌, refl, ap, sym, ◌∙◌, some, List, [], ◌∷◌, ◌++◌, length,
  length-append, take, arith,
}
use dlfree.Base.Int.{pos}
use dlfree.Std.Bytes.{Endian, pack_int}
use dlfree.Std.Bytes.RoundTrip.{unpack_int-pack_int, pack_int-append, length-pack_int}
use dlfree.Struct.Rtable.{Entry, overlay_rtable_entry_create}
use dlfree.Struct.Rtable.Pack.{
  pack_path, overlay_rtable_entry_pack, overlay_rtable_entry_pack_len, unpack_nat, unpack_path,
  overlay_rtable_entry_create_by_unpack,
}

pub data AllSmall : List ℕ → Type 0 where
  none_left : AllSmall []
  small : {x : ℕ} {xs : List ℕ} → x < 2 ^ 31 → AllSmall xs → AllSmall (x ∷ xs)

-- An entry whose numbers fit an int, with a whole path.
pub record IsEntry (pid : ℕ) (entry : Entry) : Type 0 where
  pub dst_pid : entry.dst_pid ≡ pid
  pub dst_small : entry.dst_pid < 2 ^ 31
  pub hops_small : entry.hops < 2 ^ 31
  pub metric_small : entry.metric < 2 ^ 31
  pub width_small : entry.width < 2 ^ 31
  pub whole : length entry.path ≡ entry.hops + 1
  pub path_small : AllSmall entry.path

pub nat_bytes : Endian → ℕ → List ℕ
nat_bytes e n = pack_int e [] (pos n)

pub unpack_nat-nat_bytes :
    (e e' : Endian) (n : ℕ) (rest : List ℕ)
    → n < 2 ^ 31
    → unpack_nat e' (nat_bytes e n ++ rest) ≡ some (n, rest)
unfolding unpack_nat nat_bytes
unpack_nat-nat_bytes e e' n rest h = rw (unpack_int-pack_int e e' (pos n) rest h)

pub pack_nat : (e : Endian) (p : List ℕ) (n : ℕ) → pack_int e p (pos n) ≡ p ++ nat_bytes e n
unfolding nat_bytes
pack_nat e p n = pack_int-append e p (pos n)

pub length-nat_bytes : (e : Endian) (n : ℕ) → length (nat_bytes e n) ≡ 4
unfolding nat_bytes
length-nat_bytes e n = length-pack_int e [] (pos n)

path_bytes : Endian → List ℕ → List ℕ
path_bytes e [] = []
path_bytes e (x ∷ path) = nat_bytes e x ++ path_bytes e path

pack_path-append :
    (e : Endian) (k : ℕ) (path p : List ℕ)
    → length path ≡ k
    → pack_path e k path p ≡ some (p ++ path_bytes e path)
unfolding pack_path path_bytes
pack_path-append e zero [] p h = ap some (sym (append-nil p))
pack_path-append e zero (x ∷ path) p h = absurd (omega arith)
pack_path-append e (suc k) [] p h = absurd (omega arith)
pack_path-append e (suc k) (x ∷ path) p h = rw (pack_nat e p x) (
    pack_path-append e k path (p ++ nat_bytes e x) (omega arith)
    ∙ ap some (append_assoc p (nat_bytes e x) (path_bytes e path)))

unpack_path-path_bytes :
    (e e' : Endian) (k : ℕ) (path rest : List ℕ)
    → length path ≡ k
    → AllSmall path
    → unpack_path e' k (path_bytes e path ++ rest) ≡ some (path, rest)
unfolding unpack_path path_bytes
unpack_path-path_bytes e e' zero [] rest h s = refl
unpack_path-path_bytes e e' zero (x ∷ path) rest h s = absurd (omega arith)
unpack_path-path_bytes e e' (suc k) [] rest h s = absurd (omega arith)
unpack_path-path_bytes e e' (suc k) (x ∷ path) rest h (small lt s) = rw (
  append_assoc (nat_bytes e x) (path_bytes e path) rest,
  unpack_nat-nat_bytes e e' x (path_bytes e path ++ rest) lt,
  unpack_path-path_bytes e e' k path rest (omega arith) s,
)

length-path_bytes : (e : Endian) (path : List ℕ) → length (path_bytes e path) ≡ 4 * length path
unfolding path_bytes
length-path_bytes e [] = refl
length-path_bytes e (x ∷ path) =
    rw
      (
        length-append (nat_bytes e x) (path_bytes e path),
        length-nat_bytes e x,
        length-path_bytes e path,
      )
      (omega arith)

pub entry_bytes : Endian → Entry → List ℕ
entry_bytes e entry =
    nat_bytes e entry.dst_pid
    ++ (nat_bytes e entry.hops
        ++ (nat_bytes e entry.metric ++ (nat_bytes e entry.width ++ path_bytes e entry.path)))

pub entry_pack-append :
    (e : Endian) (pid : ℕ) (entry : Entry) (p : List ℕ)
    → IsEntry pid entry
    → overlay_rtable_entry_pack e entry p ≡ some (p ++ entry_bytes e entry)
unfolding overlay_rtable_entry_pack entry_bytes
entry_pack-append e pid entry p h =
    rw (pack_path-append e (entry.hops + 1) entry.path _ h.whole) (simp (pack_nat, append_assoc))

take_all : (n : ℕ) (xs : List ℕ) → length xs ≡ n → take n xs ≡ xs
take_all zero [] h = refl
take_all zero (x ∷ xs) h = absurd (omega arith)
take_all (suc n) [] h = refl
take_all (suc n) (x ∷ xs) h = ap (λ ys. x ∷ ys) (take_all n xs (omega arith))

entry_bytes-rest :
    (e : Endian) (entry : Entry) (rest : List ℕ)
    → entry_bytes e entry ++ rest
      ≡ nat_bytes e entry.dst_pid
        ++ (nat_bytes e entry.hops
            ++ (nat_bytes e entry.metric
                ++ (nat_bytes e entry.width ++ (path_bytes e entry.path ++ rest))))
unfolding entry_bytes
entry_bytes-rest e entry rest = simp append_assoc

pub entry_unpack-bytes :
    (e e' : Endian) (pid : ℕ) (entry : Entry) (rest : List ℕ)
    → IsEntry pid entry
    → overlay_rtable_entry_create_by_unpack e' (entry_bytes e entry ++ rest) ≡ some (entry, rest)
unfolding overlay_rtable_entry_create_by_unpack overlay_rtable_entry_create
entry_unpack-bytes e e' pid entry rest h = rw (
  entry_bytes-rest e entry rest,
  unpack_nat-nat_bytes e e' entry.dst_pid _ h.dst_small,
  unpack_nat-nat_bytes e e' entry.hops _ h.hops_small,
  unpack_nat-nat_bytes e e' entry.metric _ h.metric_small,
  unpack_nat-nat_bytes e e' entry.width _ h.width_small,
  unpack_path-path_bytes e e' (entry.hops + 1) entry.path rest h.whole h.path_small,
  take_all (entry.hops + 1) entry.path h.whole,
)

pub length-entry_bytes :
    (e : Endian) (pid : ℕ) (entry : Entry)
    → IsEntry pid entry
    → length (entry_bytes e entry) ≡ overlay_rtable_entry_pack_len entry
unfolding entry_bytes overlay_rtable_entry_pack_len
length-entry_bytes e pid entry h =
    let whole : length entry.path ≡ entry.hops + 1 = h.whole in
    simp (length-append, length-nat_bytes, length-path_bytes) (omega arith)
