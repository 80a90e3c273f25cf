-- ===== src/Struct/Rtable/RoundTrip.antt =====
-- A full routing table survives the way through its bytes, and takes as many as are said.
use mathlib.Core.List.{append_assoc, append-nil}
use dlfree.Base.{
  ℕ, ◌+◌, ◌^◌, ◌<◌, ◌≡◌, ◌≢◌, refl, ap, sym, ◌∙◌, true, false, Option, none, some, List, [], ◌∷◌,
  ◌++◌, ◌==◌, length, length-append, get_elem?, set, replicate, arith,
}
use dlfree.Base.Int.{pos}
use dlfree.Std.Bytes.{Endian, pack_int}
use dlfree.Struct.Rtable.{
  Entry, Rtable, overlay_rtable_create, overlay_rtable_get_entry, overlay_rtable_add_entry,
}
use dlfree.Struct.Rtable.Add.{add_entry-free}
use dlfree.Struct.Rtable.Pack.{
  pack_entries, overlay_rtable_pack, pack_len_entries, overlay_rtable_pack_len, unpack_entries,
  overlay_rtable_create_by_unpack,
}
use dlfree.Struct.Rtable.Entries.{
  IsEntry, nat_bytes, unpack_nat-nat_bytes, pack_nat, length-nat_bytes, entry_bytes,
  entry_pack-append, entry_unpack-bytes, length-entry_bytes,
}

-- The slots from `pid` on: the source's own is free, the others are filled.
pub data Slots (srcpid : ℕ) : ℕ → List (Option Entry) → Type 0 where
  end : {pid : ℕ} → Slots srcpid pid []
  own :
      {pid : ℕ} {slots : List (Option Entry)}
      → pid ≡ srcpid
      → Slots srcpid (pid + 1) slots
      → Slots srcpid pid (none ∷ slots)
  other :
      {pid : ℕ} {entry : Entry} {slots : List (Option Entry)}
      → pid ≢ srcpid
      → IsEntry pid entry
      → Slots srcpid (pid + 1) slots
      → Slots srcpid pid (some entry ∷ slots)

slots_bytes : Endian → List (Option Entry) → List ℕ
slots_bytes e [] = []
slots_bytes e (none ∷ slots) = slots_bytes e slots
slots_bytes e (some entry ∷ slots) = entry_bytes e entry ++ slots_bytes e slots

get_elem?-middle :
    {A : Type 0} (pre : List A) (x : A) (xs : List A)
    → get_elem? (pre ++ x ∷ xs) (length pre) ≡ some x
get_elem?-middle [] x xs = refl
get_elem?-middle (y ∷ pre) x xs = get_elem?-middle pre x xs

set-middle :
    {A : Type 0} (pre : List A) (x y : A) (xs : List A)
    → set (pre ++ x ∷ xs) (length pre) y ≡ pre ++ y ∷ xs
set-middle [] x y xs = refl
set-middle (z ∷ pre) x y xs = ap (λ ys. z ∷ ys) (set-middle pre x y xs)

-- A table with its entries.
abbrev pub table : (srcpid nentry : ℕ) → List (Option Entry) → Rtable
table srcpid nentry entries = record { srcpid = srcpid; nentry = nentry; entries = entries }

pub slot_at :
    (srcpid n pid : ℕ) (pre slots : List (Option Entry)) (slot : Option Entry)
    → pid ≡ length pre
    → overlay_rtable_get_entry (table srcpid n (pre ++ slot ∷ slots)) pid ≡ some slot
unfolding overlay_rtable_get_entry
slot_at srcpid n pid pre slots slot e = rw e (get_elem?-middle pre slot slots)

pub next_slots :
    (pre slots : List (Option Entry)) (slot : Option Entry)
    → pre ++ slot ∷ slots ≡ (pre ++ slot ∷ []) ++ slots
next_slots pre slots slot = sym (append_assoc pre (slot ∷ []) slots)

pack_entries-append :
    (e : Endian) (srcpid n pid : ℕ) (pre slots : List (Option Entry)) (p : List ℕ)
    → pid ≡ length pre
    → Slots srcpid pid slots
    → pack_entries e (table srcpid n (pre ++ slots)) (length slots) pid p
      ≡ some (p ++ slots_bytes e slots)
unfolding pack_entries slots_bytes
pack_entries-append e srcpid n pid pre [] p at s = ap some (sym (append-nil p))
pack_entries-append e srcpid n pid pre (none ∷ slots) p at (own same s) =
    let here : (pid == srcpid) ≡ true = ground arith in
    rw here (
      ap (λ xs. pack_entries e (table srcpid n xs) (length slots) (pid + 1) p)
        (next_slots pre slots none)
      ∙ pack_entries-append e srcpid n (pid + 1) (pre ++ none ∷ []) slots p
          (omega (arith, length-append pre (none ∷ []))) s)
pack_entries-append e srcpid n pid pre (some entry ∷ slots) p at (other ne h s) =
    let away : (pid == srcpid) ≡ false = ground (arith, ne) in
    rw (away, slot_at srcpid n pid pre slots (some entry) at, entry_pack-append e pid entry p h)
      (ap
          (λ xs.
            pack_entries e (table srcpid n xs) (length slots) (pid + 1) (p ++ entry_bytes e entry))
          (next_slots pre slots (some entry))
        ∙ pack_entries-append e srcpid n (pid + 1) (pre ++ some entry ∷ []) slots
            (p ++ entry_bytes e entry) (omega (arith, length-append pre (some entry ∷ []))) s
        ∙ ap some (append_assoc p (entry_bytes e entry) (slots_bytes e slots)))

pack_len_entries-length :
    (e : Endian) (srcpid n pid : ℕ) (pre slots : List (Option Entry)) (c : ℕ)
    → pid ≡ length pre
    → Slots srcpid pid slots
    → pack_len_entries (table srcpid n (pre ++ slots)) (length slots) pid c
      ≡ some (c + length (slots_bytes e slots))
unfolding pack_len_entries slots_bytes
pack_len_entries-length e srcpid n pid pre [] c at s = ap some (omega arith)
pack_len_entries-length e srcpid n pid pre (none ∷ slots) c at (own same s) =
    let here : (pid == srcpid) ≡ true = ground arith in
    rw here (
      ap (λ xs. pack_len_entries (table srcpid n xs) (length slots) (pid + 1) c)
        (next_slots pre slots none)
      ∙ pack_len_entries-length e srcpid n (pid + 1) (pre ++ none ∷ []) slots c
          (omega (arith, length-append pre (none ∷ []))) s)
pack_len_entries-length e srcpid n pid pre (some entry ∷ slots) c at (other ne h s) =
    let away : (pid == srcpid) ≡ false = ground (arith, ne) in
    rw (away, slot_at srcpid n pid pre slots (some entry) at, ← length-entry_bytes e pid entry h)
      (ap
          (λ xs.
            pack_len_entries (table srcpid n xs) (length slots) (pid + 1)
              (c + length (entry_bytes e entry)))
          (next_slots pre slots (some entry))
        ∙ pack_len_entries-length e srcpid n (pid + 1) (pre ++ some entry ∷ []) slots
            (c + length (entry_bytes e entry)) (omega (arith, length-append pre (some entry ∷ [])))
            s
        ∙ ap some (omega (arith, length-append (entry_bytes e entry) (slots_bytes e slots))))

add_at :
    (srcpid n pid : ℕ) (pre slots : List (Option Entry)) (entry : Entry)
    → pid ≡ length pre
    → entry.dst_pid ≡ pid
    → overlay_rtable_add_entry (table srcpid n (pre ++ none ∷ slots)) entry
      ≡ some (table srcpid n (pre ++ some entry ∷ slots))
add_at srcpid n pid pre slots entry at e =
    add_entry-free pid (table srcpid n (pre ++ none ∷ slots)) entry
      (rw at (get_elem?-middle pre none slots)) e
    ∙ ap (λ xs. some (table srcpid n xs)) (rw at (set-middle pre none (some entry) slots))

unpack_entries-bytes :
    (e e' : Endian) (srcpid n pid : ℕ) (pre slots : List (Option Entry)) (rest : List ℕ)
    → pid ≡ length pre
    → Slots srcpid pid slots
    → unpack_entries e' srcpid
        (length slots)
        pid
        (table srcpid n (pre ++ replicate (length slots) none))
        (slots_bytes e slots ++ rest)
      ≡ some (table srcpid n (pre ++ slots), rest)
unfolding unpack_entries slots_bytes
unpack_entries-bytes e e' srcpid n pid pre [] rest at s = refl
unpack_entries-bytes e e' srcpid n pid pre (none ∷ slots) rest at (own same s) =
    let here : (pid == srcpid) ≡ true = ground arith in
    rw (here, next_slots pre (replicate (length slots) none) none, next_slots pre slots none)
      (unpack_entries-bytes e e' srcpid n (pid + 1) (pre ++ none ∷ []) slots rest
        (omega (arith, length-append pre (none ∷ []))) s)
unpack_entries-bytes e e' srcpid n pid pre (some entry ∷ slots) rest at (other ne h s) =
    let away : (pid == srcpid) ≡ false = ground (arith, ne) in
    rw
      (
        away,
        append_assoc (entry_bytes e entry) (slots_bytes e slots) rest,
        entry_unpack-bytes e e' pid entry (slots_bytes e slots ++ rest) h,
        add_at srcpid n pid pre (replicate (length slots) none) entry at h.dst_pid,
        next_slots pre (replicate (length slots) none) (some entry),
        next_slots pre slots (some entry),
      )
      (unpack_entries-bytes e e' srcpid n (pid + 1) (pre ++ some entry ∷ []) slots rest
        (omega (arith, length-append pre (some entry ∷ []))) s)

-- A table with an entry for every node but its own, and with numbers that fit an int.
pub record IsFull (rt : Rtable) : Type 0 where
  pub src_small : rt.srcpid < 2 ^ 31
  pub size_small : rt.nentry < 2 ^ 31
  pub size : length rt.entries ≡ rt.nentry
  pub slots : Slots rt.srcpid 0 rt.entries

table_bytes : Endian → Rtable → List ℕ
table_bytes e rt = nat_bytes e rt.srcpid ++ (nat_bytes e rt.nentry ++ slots_bytes e rt.entries)

pack-table_bytes :
    (e : Endian) (rt : Rtable) (p : List ℕ)
    → IsFull rt
    → overlay_rtable_pack e rt p ≡ some (p ++ table_bytes e rt)
unfolding overlay_rtable_pack table_bytes
pack-table_bytes e rt p f =
    ap (λ k. pack_entries e rt k 0 (pack_int e (pack_int e p (pos rt.srcpid)) (pos rt.nentry)))
      (sym f.size)
    ∙ (pack_entries-append e rt.srcpid rt.nentry 0 [] rt.entries _ refl f.slots
        ∙ ap some (simp (pack_nat, append_assoc)))

length-table_bytes :
    (e : Endian) (rt : Rtable) → 8 + length (slots_bytes e rt.entries) ≡ length (table_bytes e rt)
unfolding table_bytes
length-table_bytes e rt = simp (length-append, length-nat_bytes) (omega arith)

table_bytes-rest :
    (e : Endian) (rt : Rtable) (rest : List ℕ)
    → table_bytes e rt ++ rest
      ≡ nat_bytes e rt.srcpid ++ (nat_bytes e rt.nentry ++ (slots_bytes e rt.entries ++ rest))
unfolding table_bytes
table_bytes-rest e rt rest = simp append_assoc

from_size : {A : Type 0} (f : ℕ → A) (a : A) (k n : ℕ) → k ≡ n → f k ≡ a → f n ≡ a
from_size f a k n e h = ap f (sym e) ∙ h

-- A full table is packed behind the bytes that are already there, in as many bytes as
-- `overlay_rtable_pack_len` says, and unpacking gives it back, with the bytes behind it, whatever
-- the byte orders of the two hosts.
pub overlay_rtable_create_by_unpack-pack :
    (e e' : Endian) (rt : Rtable) (p rest : List ℕ)
    → IsFull rt
    → (bytes : List ℕ) × (overlay_rtable_pack e rt p ≡ some (p ++ bytes))
      × (overlay_rtable_pack_len rt ≡ some (length bytes))
      × (overlay_rtable_create_by_unpack e' (bytes ++ rest) ≡ some (rt, rest))
unfolding overlay_rtable_pack_len overlay_rtable_create_by_unpack overlay_rtable_create
overlay_rtable_create_by_unpack-pack e e' rt p rest f = (
  table_bytes e rt,
  pack-table_bytes e rt p f,
  ap (λ k. pack_len_entries rt k 0 (4 + 4)) (sym f.size)
      ∙ (pack_len_entries-length e rt.srcpid rt.nentry 0 [] rt.entries 8 refl f.slots
          ∙ ap some (length-table_bytes e rt)),
  rw
      (
        table_bytes-rest e rt rest,
        unpack_nat-nat_bytes e e' rt.srcpid _ f.src_small,
        unpack_nat-nat_bytes e e' rt.nentry _ f.size_small,
      )
      (from_size
        (λ k.
          unpack_entries e' rt.srcpid k 0 (table rt.srcpid rt.nentry (replicate k none))
            (slots_bytes e rt.entries ++ rest))
        (some (rt, rest)) (length rt.entries) rt.nentry f.size
        (unpack_entries-bytes e e' rt.srcpid rt.nentry 0 [] rt.entries rest refl f.slots)),
)
