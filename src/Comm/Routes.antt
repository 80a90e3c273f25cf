-- ===== src/Comm/Routes.antt =====
-- The routing tables that a node of src/comm/comm.c keeps: `comm_node_register_rt`,
-- `comm_node_exchange_rt` and `comm_node_lookup_rt`. The lock and the waiting are not modelled. An
-- access beyond the 1024 tables, a failed assertion and a read through `NULL` are `none`.
pub mod Forward
pub mod Register
use dlfree.Base.{
  ℕ, zero, suc, ◌+◌, Bool, true, false, ◌&&◌, Option, none, some, List, [], ◌∷◌, max, min, ltb,
  ◌==◌, if◌then◌else◌,
}
use dlfree.Std.Bytes.{Endian, ◌>>=◌}
use dlfree.Struct.Rtable.{Entry, Rtable, overlay_rtable_get_entry, overlay_rtable_size}
use dlfree.Struct.Rtable.Pack.{overlay_rtable_create_by_unpack, overlay_rtable_pack}

pub record Routes : Type 0 where
  pub node_id : ℕ
  pub rts : ℕ → Option Rtable
  pub num_rts : ℕ
  pub max_width : ℕ
  pub min_width : ℕ

-- `COMM_MAX_PEER`
abbrev pub max_peer : ℕ
max_peer = 1024

abbrev pub put_rt : (ℕ → Option Rtable) → ℕ → Rtable → ℕ → Option Rtable
put_rt rts i rt j = if j == i then some rt else rts j

-- The given number of entries, from `pid` on, and the widths so far.
unfoldable pub widths : Rtable → ℕ → (pid max_width min_width : ℕ) → Option (ℕ × ℕ)
widths rt zero pid max_width min_width = some (max_width, min_width)
widths rt (suc k) pid max_width min_width =
    if pid == rt.srcpid then widths rt k (pid + 1) max_width min_width else (do
      slot ← overlay_rtable_get_entry rt pid
      entry ← slot
      widths rt k (pid + 1) (max max_width entry.width) (min min_width entry.width))

-- Whether the table was new, and the bytes behind it.
unfoldable pub comm_node_register_rt : Endian → Routes → List ℕ → Option (Bool × Routes × List ℕ)
comm_node_register_rt e node buff = do
  (rt, rest) ← overlay_rtable_create_by_unpack e buff
  (if ltb rt.srcpid max_peer
      then elim (node.rts rt.srcpid) [
        | some _ ↦ some (false, node, rest)
        | none ↦ do
          (most, least) ← widths rt (overlay_rtable_size rt) 0 node.max_width node.min_width
          some (
            true,
            record node {
              rts = put_rt node.rts rt.srcpid rt;
              num_rts = node.num_rts + 1;
              max_width = most;
              min_width = least;
            },
            rest,
          )
      ]
      else none)

-- What is broadcast, and the node with its own table.
unfoldable pub comm_node_exchange_rt : Endian → Routes → Rtable → Option (List ℕ × Routes)
comm_node_exchange_rt e node rt = do
  buff ← overlay_rtable_pack e rt []
  (if (node.node_id == rt.srcpid) && ltb rt.srcpid max_peer
      then elim (node.rts rt.srcpid) [
        | some _ ↦ none
        | none ↦
            some
              (buff, record node { rts = put_rt node.rts rt.srcpid rt; num_rts = node.num_rts + 1 })
      ]
      else none)

-- The loop over the path: `none` inside is the result -1.
unfoldable pub next_on_path : (hops node_id : ℕ) → List ℕ → Option (Option ℕ)
next_on_path zero node_id path = some none
next_on_path (suc hops) node_id (x ∷ y ∷ path) =
    if x == node_id then some (some y) else next_on_path hops node_id (y ∷ path)
next_on_path (suc hops) node_id (x ∷ []) =
    if x == node_id then none else next_on_path hops node_id []
next_on_path (suc hops) node_id [] = none

unfoldable pub comm_node_lookup_rt : Routes → (src_pid dst_pid : ℕ) → Option (Option ℕ)
comm_node_lookup_rt node src_pid dst_pid =
    if ltb src_pid max_peer
    then (do
      rt ← node.rts src_pid
      slot ← overlay_rtable_get_entry rt dst_pid
      entry ← slot
      next_on_path entry.hops node.node_id entry.path)
    else none
