-- ===== src/Tests/Routes.antt =====
-- Three nodes in a row: the table of the first one, at all of them.
use dlfree.Base.{ℕ, ◌≡◌, refl, true, false, none, some, List, [], ◌∷◌, ◌++◌, arith, length}
use dlfree.Std.Bytes.{little, big}
use dlfree.Struct.Rtable.{Entry, Rtable, overlay_rtable_get_entry}
use dlfree.Struct.Rtable.Pack.{
  overlay_rtable_pack, pack_entries, overlay_rtable_entry_pack, pack_path,
}
use dlfree.Struct.Rtable.Entries.{IsEntry, none_left, small}
use dlfree.Struct.Rtable.RoundTrip.{IsFull, end, own, other}
use dlfree.Comm.Routes.{Routes, comm_node_exchange_rt, comm_node_register_rt}
use dlfree.Comm.Routes.Forward.{
  off_nil, off_cons, Simple, simple_nil, simple_cons, forward, forward-path,
}
use dlfree.Comm.Routes.Register.{comm_node_register_rt-exchange}

abbrev entry_1 : Entry
entry_1 = record { dst_pid = 1; path = 0 ∷ 1 ∷ []; hops = 1; metric = 4; width = 10 }

abbrev entry_2 : Entry
entry_2 = record { dst_pid = 2; path = 0 ∷ 1 ∷ 2 ∷ []; hops = 2; metric = 9; width = 10 }

abbrev rt : Rtable
rt = record { srcpid = 0; nentry = 3; entries = none ∷ some entry_1 ∷ some entry_2 ∷ [] }

abbrev nodes : ℕ → Routes
nodes p = record { node_id = p; rts = λ _. some rt; num_rts = 3; max_width = 10; min_width = 10 }

path_2-Simple : Simple (0 ∷ 1 ∷ 2 ∷ [])
path_2-Simple =
    simple_cons (off_cons (λ e. ground (arith, e)) (off_cons (λ e. ground (arith, e)) off_nil))
      (simple_cons (off_cons (λ e. ground (arith, e)) off_nil) (simple_cons off_nil simple_nil))

forward-path_example : forward nodes 0 2 (length entry_2.path) 0 ≡ some entry_2.path
forward-path_example =
    forward-path nodes 0 2 rt entry_2 (λ p. refl) (λ p. refl) (omega arith) refl refl path_2-Simple
      refl 0 (1 ∷ 2 ∷ []) refl

paths-IsEntry : IsEntry 1 entry_1 × IsEntry 2 entry_2
paths-IsEntry = (
  record {
    dst_pid = refl;
    dst_small = omega arith;
    hops_small = omega arith;
    metric_small = omega arith;
    width_small = omega arith;
    whole = refl;
    path_small = small (omega arith) (small (omega arith) none_left);
  },
  record {
    dst_pid = refl;
    dst_small = omega arith;
    hops_small = omega arith;
    metric_small = omega arith;
    width_small = omega arith;
    whole = refl;
    path_small = small (omega arith) (small (omega arith) (small (omega arith) none_left));
  },
)

rt-IsFull : IsFull rt
rt-IsFull = record {
  src_small = omega arith;
  size_small = omega arith;
  size = refl;
  slots = own refl (
      other (λ e. ground (arith, e)) paths-IsEntry.0
        (other (λ e. ground (arith, e)) paths-IsEntry.1 end));
}

-- A node before any table was exchanged.
abbrev fresh : ℕ → Routes
fresh p = record { node_id = p; rts = λ _. none; num_rts = 0; max_width = 0; min_width = 1000 }

-- The bytes that node 0 broadcasts, and node 0 afterwards.
sent :
    (buff : List ℕ) × (node : Routes) × (comm_node_exchange_rt little (fresh 0) rt
      ≡ some (buff, node))
unfolding comm_node_exchange_rt overlay_rtable_pack pack_entries overlay_rtable_entry_pack pack_path
    overlay_rtable_get_entry
sent = (_, _, refl)

comm_node_register_rt-exchange_example :
    (receiver' : Routes) × (comm_node_register_rt big (fresh 1) (sent.0 ++ 9 ∷ [])
      ≡ some (true, receiver', 9 ∷ []))
    × (receiver'.rts rt.srcpid ≡ some rt)
    × (receiver'.num_rts ≡ 1)
    × (comm_node_register_rt big receiver' (sent.0 ++ 9 ∷ []) ≡ some (false, receiver', 9 ∷ []))
comm_node_register_rt-exchange_example =
    comm_node_register_rt-exchange little big (fresh 0) sent.1 (fresh 1) rt sent.0 (9 ∷ [])
      rt-IsFull sent.2 refl
