-- ===== src/Comm/Routes/Register.antt =====
-- A routing table that is broadcast is registered once.
use dlfree.Base.{
  ℕ, ◌+◌, ◌<◌, ◌≡◌, refl, ap, sym, ◌∙◌, true, false, ◌&&◌, Option, none, some, List, [], ◌∷◌, ◌++◌,
  ltb, ◌==◌, max, min, length, length-append, arith, inl, inr, Bool-cases, Option-cases,
  some_injective, none_ne_some,
}
use dlfree.Std.Bytes.{Endian}
use dlfree.Struct.Rtable.{Entry, Rtable, overlay_rtable_size}
use dlfree.Struct.Rtable.Pack.{overlay_rtable_create_by_unpack, overlay_rtable_pack}
use dlfree.Struct.Rtable.RoundTrip.{
  IsFull, Slots, own, other, overlay_rtable_create_by_unpack-pack, slot_at, next_slots, table,
}
use dlfree.Comm.Routes.{
  Routes, max_peer, put_rt, widths, comm_node_register_rt, comm_node_exchange_rt,
}

widths-some :
    (srcpid n pid : ℕ) (pre slots : List (Option Entry)) (a b : ℕ)
    → pid ≡ length pre
    → Slots srcpid pid slots
    → (r : ℕ × ℕ) × (widths (table srcpid n (pre ++ slots)) (length slots) pid a b ≡ some r)
unfolding widths
widths-some srcpid n pid pre [] a b at s = ((a, b), refl)
widths-some srcpid n pid pre (none ∷ slots) a b at (own same s) =
    let here : (pid == srcpid) ≡ true = ground arith in
    let (r, run) =
      widths-some srcpid n (pid + 1) (pre ++ none ∷ []) slots a b
        (omega (arith, length-append pre (none ∷ []))) s in
    (
      r,
      rw here (
          ap (λ xs. widths (table srcpid n xs) (length slots) (pid + 1) a b)
            (next_slots pre slots none)
          ∙ run),
    )
widths-some srcpid n pid pre (some entry ∷ slots) a b at (other ne h s) =
    let away : (pid == srcpid) ≡ false = ground (arith, ne) in
    let (r, run) =
      widths-some srcpid n (pid + 1) (pre ++ some entry ∷ []) slots (max a entry.width)
        (min b entry.width) (omega (arith, length-append pre (some entry ∷ []))) s in
    (
      r,
      rw (away, slot_at srcpid n pid pre slots (some entry) at)
          (ap
              (λ xs.
                widths (table srcpid n xs) (length slots) (pid + 1) (max a entry.width)
                  (min b entry.width))
              (next_slots pre slots (some entry))
            ∙ run),
    )

exchange_facts :
    (e : Endian) (sender sender' : Routes) (rt : Rtable) (buff : List ℕ)
    → comm_node_exchange_rt e sender rt ≡ some (buff, sender')
    → (overlay_rtable_pack e rt [] ≡ some buff) × (rt.srcpid < max_peer)
unfolding comm_node_exchange_rt
exchange_facts e sender sender' rt buff sent = elim (Option-cases (overlay_rtable_pack e rt [])) [
  | inl failed ↦ absurd (none_ne_some (rw failed at sent))
  | inr (bytes, run) ↦ elim (Bool-cases ((sender.node_id == rt.srcpid) && ltb rt.srcpid max_peer)) [
    | inr bad ↦ absurd (none_ne_some (rw (run, bad) at sent))
    | inl good ↦ elim (Option-cases (sender.rts rt.srcpid)) [
      | inr (old, there) ↦ absurd (none_ne_some (rw (run, good, there) at sent))
      | inl free ↦ (
        run ∙ ap some (ap (λ x. x.0) (some_injective (rw (run, good, free) at sent))),
        ground (arith, good),
      )
    ]
  ]
]

module _ (e : Endian) (receiver : Routes) (rt : Rtable) (bytes rest : List ℕ)
    (read : overlay_rtable_create_by_unpack e bytes ≡ some (rt, rest))
    (known : rt.srcpid < max_peer) where
  small : ltb rt.srcpid max_peer ≡ true
  small = ground (arith, known)

  register_new :
      (r : ℕ × ℕ)
      → receiver.rts rt.srcpid ≡ none
      → widths rt rt.nentry 0 receiver.max_width receiver.min_width ≡ some r
      → comm_node_register_rt e receiver bytes
        ≡ some (
          true,
          record receiver {
            rts = put_rt receiver.rts rt.srcpid rt;
            num_rts = receiver.num_rts + 1;
            max_width = r.0;
            min_width = r.1;
          },
          rest,
        )
  unfolding comm_node_register_rt overlay_rtable_size
  register_new r new wide = rw (read, small, new, wide)

  register_old :
      (old : Rtable)
      → receiver.rts rt.srcpid ≡ some old
      → comm_node_register_rt e receiver bytes ≡ some (false, receiver, rest)
  unfolding comm_node_register_rt
  register_old old there = rw (read, small, there)

-- What a node broadcasts as its full table, any other node that reads it registers: the first time
-- it counts the table and has it under its source, and a second time it changes nothing; the bytes
-- behind the table stay unread.
pub comm_node_register_rt-exchange :
    (e e' : Endian) (sender sender' receiver : Routes) (rt : Rtable) (buff rest : List ℕ)
    → IsFull rt
    → comm_node_exchange_rt e sender rt ≡ some (buff, sender')
    → receiver.rts rt.srcpid ≡ none
    → (receiver' : Routes) × (comm_node_register_rt e' receiver (buff ++ rest)
        ≡ some (true, receiver', rest))
      × (receiver'.rts rt.srcpid ≡ some rt)
      × (receiver'.num_rts ≡ receiver.num_rts + 1)
      × (comm_node_register_rt e' receiver' (buff ++ rest) ≡ some (false, receiver', rest))
comm_node_register_rt-exchange e e' sender sender' receiver rt buff rest f sent new =
    let (packed, known) = exchange_facts e sender sender' rt buff sent in
    let (bytes, packed', _, unpacked) = overlay_rtable_create_by_unpack-pack e e' rt [] rest f in
    let same : bytes ≡ buff = some_injective (sym packed' ∙ packed) in
    let read : overlay_rtable_create_by_unpack e' (buff ++ rest) ≡ some (rt, rest) =
      rw (← same) unpacked in
    let (r, wide) =
      widths-some rt.srcpid rt.nentry 0 [] rt.entries receiver.max_width receiver.min_width refl
        f.slots in
    let wide' : widths rt rt.nentry 0 receiver.max_width receiver.min_width ≡ some r =
      ap (λ k. widths rt k 0 receiver.max_width receiver.min_width) (sym f.size) ∙ wide in
    let receiver' : Routes = record receiver {
      rts = put_rt receiver.rts rt.srcpid rt;
      num_rts = receiver.num_rts + 1;
      max_width = r.0;
      min_width = r.1;
    } in
    let there : receiver'.rts rt.srcpid ≡ some rt = ground arith in
    (
      receiver',
      register_new e' receiver rt (buff ++ rest) rest read known r new wide',
      there,
      refl,
      register_old e' receiver' rt (buff ++ rest) rest read known rt there,
    )
