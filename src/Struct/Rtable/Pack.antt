-- ===== src/Struct/Rtable/Pack.antt =====
-- src/struct/rtable.c: routing tables as bytes. A path that is shorter than its hops say, a missing
-- entry and a number that is negative where an index or a count is read give `none`.
use dlfree.Base.{ℕ, zero, suc, ◌+◌, ◌*◌, Option, none, some, List, [], ◌∷◌, ◌==◌, if◌then◌else◌}
use dlfree.Base.Int.{pos, negsuc}
use dlfree.Std.Bytes.{Endian, pack_int, unpack_int, ◌>>=◌}
use dlfree.Struct.Rtable.{
  Entry, Rtable, overlay_rtable_entry_create, overlay_rtable_create, overlay_rtable_get_entry,
  overlay_rtable_add_entry,
}

-- The first nodes of the path.
unfoldable pub pack_path : Endian → ℕ → List ℕ → List ℕ → Option (List ℕ)
pack_path e zero path p = some p
pack_path e (suc k) [] p = none
pack_path e (suc k) (x ∷ path) p = pack_path e k path (pack_int e p (pos x))

unfoldable pub overlay_rtable_entry_pack : Endian → Entry → List ℕ → Option (List ℕ)
overlay_rtable_entry_pack e entry p =
    let p₁ = pack_int e p (pos entry.dst_pid) in
    let p₂ = pack_int e p₁ (pos entry.hops) in
    let p₃ = pack_int e p₂ (pos entry.metric) in
    let p₄ = pack_int e p₃ (pos entry.width) in pack_path e (entry.hops + 1) entry.path p₄

unfoldable pub overlay_rtable_entry_pack_len : Entry → ℕ
overlay_rtable_entry_pack_len entry = 4 + 4 + 4 + 4 + 4 * (entry.hops + 1)

unfoldable pub unpack_nat : Endian → List ℕ → Option (ℕ × List ℕ)
unpack_nat e p = do (i, rest) ← unpack_int e p; elim i [ pos n ↦ some (n, rest) | negsuc _ ↦ none ]

unfoldable pub unpack_path : Endian → ℕ → List ℕ → Option (List ℕ × List ℕ)
unpack_path e zero p = some ([], p)
unpack_path e (suc k) p = do
  (x, p₁) ← unpack_nat e p
  (path, p₂) ← unpack_path e k p₁
  some (x ∷ path, p₂)

unfoldable pub overlay_rtable_entry_create_by_unpack : Endian → List ℕ → Option (Entry × List ℕ)
overlay_rtable_entry_create_by_unpack e p = do
  (dst_pid, p₁) ← unpack_nat e p
  (hops, p₂) ← unpack_nat e p₁
  (metric, p₃) ← unpack_nat e p₂
  (width, p₄) ← unpack_nat e p₃
  (path, p₅) ← unpack_path e (hops + 1) p₄
  some (overlay_rtable_entry_create dst_pid path hops metric width, p₅)

-- The given number of slots, from `pid` on.
unfoldable pub pack_entries : Endian → Rtable → ℕ → (pid : ℕ) → List ℕ → Option (List ℕ)
pack_entries e rt zero pid p = some p
pack_entries e rt (suc k) pid p = if pid == rt.srcpid then pack_entries e rt k (pid + 1) p else (do
  slot ← overlay_rtable_get_entry rt pid
  entry ← slot
  p' ← overlay_rtable_entry_pack e entry p
  pack_entries e rt k (pid + 1) p')

unfoldable pub overlay_rtable_pack : Endian → Rtable → List ℕ → Option (List ℕ)
overlay_rtable_pack e rt p =
    pack_entries e rt rt.nentry 0 (pack_int e (pack_int e p (pos rt.srcpid)) (pos rt.nentry))

unfoldable pub pack_len_entries : Rtable → ℕ → (pid : ℕ) → ℕ → Option ℕ
pack_len_entries rt zero pid c = some c
pack_len_entries rt (suc k) pid c =
    if pid == rt.srcpid then pack_len_entries rt k (pid + 1) c else (do
      slot ← overlay_rtable_get_entry rt pid
      entry ← slot
      pack_len_entries rt k (pid + 1) (c + overlay_rtable_entry_pack_len entry))

-- The sum in ℕ; the code adds in an int, which holds it below 2 GB.
unfoldable pub overlay_rtable_pack_len : Rtable → Option ℕ
overlay_rtable_pack_len rt = pack_len_entries rt rt.nentry 0 (4 + 4)

unfoldable pub unpack_entries :
    Endian → (srcpid : ℕ) → ℕ → (pid : ℕ) → Rtable → List ℕ → Option (Rtable × List ℕ)
unpack_entries e srcpid zero pid rt p = some (rt, p)
unpack_entries e srcpid (suc k) pid rt p =
    if pid == srcpid then unpack_entries e srcpid k (pid + 1) rt p else (do
      (entry, p₁) ← overlay_rtable_entry_create_by_unpack e p
      rt' ← overlay_rtable_add_entry rt entry
      unpack_entries e srcpid k (pid + 1) rt' p₁)

unfoldable pub overlay_rtable_create_by_unpack : Endian → List ℕ → Option (Rtable × List ℕ)
overlay_rtable_create_by_unpack e p = do
  (srcpid, p₁) ← unpack_nat e p
  (nentry, p₂) ← unpack_nat e p₁
  unpack_entries e srcpid nentry 0 (overlay_rtable_create srcpid nentry) p₂
