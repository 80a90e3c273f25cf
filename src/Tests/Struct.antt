-- ===== src/Tests/Struct.antt =====
-- A routing table of two nodes, its bytes and its use.
use dlfree.Base.{ℕ, ◌≡◌, refl, none, some, List, [], ◌∷◌, ◌++◌, arith, length}
use dlfree.Std.Bytes.{little, big}
use dlfree.Struct.Rtable.{Entry, Rtable}
use dlfree.Struct.Rtable.Pack.{
  overlay_rtable_pack, overlay_rtable_pack_len, overlay_rtable_create_by_unpack,
}
use dlfree.Struct.Rtable.Entries.{none_left, small}
use dlfree.Struct.Rtable.RoundTrip.{IsFull, end, own, other, overlay_rtable_create_by_unpack-pack}

abbrev entry_1 : Entry
entry_1 = record { dst_pid = 1; path = 0 ∷ 1 ∷ []; hops = 1; metric = 4; width = 10 }

abbrev rt : Rtable
rt = record { srcpid = 0; nentry = 2; entries = none ∷ some entry_1 ∷ [] }

rt-IsFull : IsFull rt
rt-IsFull = record {
  src_small = omega arith;
  size_small = omega arith;
  size = refl;
  slots = own refl (
      other (λ e. ground (arith, e))
        (record {
          dst_pid = refl;
          dst_small = omega arith;
          hops_small = omega arith;
          metric_small = omega arith;
          width_small = omega arith;
          whole = refl;
          path_small = small (omega arith) (small (omega arith) none_left);
        })
        end);
}

overlay_rtable_create_by_unpack-pack_example :
    (bytes : List ℕ) × (overlay_rtable_pack little rt (7 ∷ []) ≡ some ((7 ∷ []) ++ bytes))
    × (overlay_rtable_pack_len rt ≡ some (length bytes))
    × (overlay_rtable_create_by_unpack big (bytes ++ 9 ∷ []) ≡ some (rt, 9 ∷ []))
overlay_rtable_create_by_unpack-pack_example =
    overlay_rtable_create_by_unpack-pack little big rt (7 ∷ []) (9 ∷ []) rt-IsFull
