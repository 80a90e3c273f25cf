-- ===== src/Struct/Rtable.antt =====
-- src/struct/rtable.c: a routing table has an entry, with a whole path, for every node but its own.
pub mod Add
pub mod Entries
pub mod Pack
pub mod RoundTrip
use dlfree.Base.{ℕ, ◌+◌, Option, none, some, List, get_elem?, set, replicate, take}
use dlfree.Std.Bytes.{◌>>=◌}

pub record Entry : Type 0 where
  pub dst_pid : ℕ
  pub path : List ℕ
  pub hops : ℕ
  pub metric : ℕ
  pub width : ℕ

-- The path is copied: `hops + 1` nodes of it.
unfoldable pub overlay_rtable_entry_create :
    (dst_pid : ℕ) → List ℕ → (hops metric width : ℕ) → Entry
overlay_rtable_entry_create dst_pid path hops metric width = record {
  dst_pid = dst_pid;
  path = take (hops + 1) path;
  hops = hops;
  metric = metric;
  width = width;
}

pub record Rtable : Type 0 where
  pub srcpid : ℕ
  pub nentry : ℕ
  pub entries : List (Option Entry)

unfoldable pub overlay_rtable_create : (srcpid nentry : ℕ) → Rtable
overlay_rtable_create srcpid nentry = record {
  srcpid = srcpid;
  nentry = nentry;
  entries = replicate nentry none;
}

unfoldable pub overlay_rtable_size : Rtable → ℕ
overlay_rtable_size rt = rt.nentry

-- `NULL` is the inner `none`; the outer one is an index out of bounds.
unfoldable pub overlay_rtable_get_entry : Rtable → ℕ → Option (Option Entry)
overlay_rtable_get_entry rt pid = get_elem? rt.entries pid

-- The slot must be free.
unfoldable pub overlay_rtable_add_entry : Rtable → Entry → Option Rtable
unfolding overlay_rtable_get_entry
overlay_rtable_add_entry rt entry = do
  old ← overlay_rtable_get_entry rt entry.dst_pid
  elim old [
    | some _ ↦ none
    | none ↦ some (record rt { entries = set rt.entries entry.dst_pid (some entry) })
  ]
