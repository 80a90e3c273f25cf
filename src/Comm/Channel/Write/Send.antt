-- ===== src/Comm/Channel/Write/Send.antt =====
-- The loop of `channel_write` over one chunk.
use mathlib.Core.List.{append_assoc}
use dlfree.Base.{
  ℕ, zero, suc, ◌+◌, ◌-◌, ◌<◌, ◌≤◌, ◌≡◌, ◌⊎◌, refl, ap, sym, ◌∙◌, true, some, List, [], ◌∷◌, ◌++◌,
  leb, ◌==◌, length, take, drop, min, take-add, drop-drop, inl, inr, arith, Bool-cases,
}
use dlfree.Comm.Msg.{MsgBuff}
use dlfree.Comm.Sock.{Departure, room, send_again, send_error, sock_try_send_n}
use dlfree.Comm.Channel.Waiting.{IsBuff, payload}
use dlfree.Comm.Channel.Write.{WriteStatus, write_ok, write_eagain, write_err, Out, send_loop}

-- After a part of a chunk is gone: the bytes taken and those left are the ones before.
pub record Sent (b b' : MsgBuff) (stat : WriteStatus) (out out' : Out) : Type 0 where
  pub fits : IsBuff b'
  pub conserved : out'.sent ++ payload b' ≡ out.sent ++ payload b
  pub status :
      ((stat ≡ write_ok) × (payload b' ≡ [])) ⊎ ((stat ≡ write_eagain) ⊎ (stat ≡ write_err))

payload_step :
    (b : MsgBuff) (n : ℕ)
    → n ≤ b.tail - b.head
    → payload b ≡ take n (drop b.head b.bytes) ++ payload (record b { head = b.head + n })
unfolding payload
payload_step b n le =
    let e : b.tail - b.head ≡ n + (b.tail - (b.head + n)) = omega arith in
    rw e (
      take-add n (b.tail - (b.head + n)) (drop b.head b.bytes)
      ∙ ap (λ (l : List ℕ). take n (drop b.head b.bytes) ++ take (b.tail - (b.head + n)) l)
          (drop-drop b.head n b.bytes))

all_gone : (b : MsgBuff) → b.tail - b.head ≡ 0 → payload b ≡ []
unfolding payload
all_gone b e = rw e refl

finished : (b : MsgBuff) (out : Out) → IsBuff b → b.tail - b.head ≡ 0 → Sent b b write_ok out out
finished b out h e = record { fits = h; conserved = refl; status = inl (refl, all_gone b e) }

waits :
    (b : MsgBuff) (tx tx' : List Departure) (sent : List ℕ) (stat : WriteStatus)
    → IsBuff b
    → (stat ≡ write_eagain) ⊎ (stat ≡ write_err)
    → Sent b b stat (record { tx = tx; sent = sent }) (record { tx = tx'; sent = sent })
waits b tx tx' sent stat h s = record { fits = h; conserved = refl; status = inr s }

-- A part of the chunk is taken, and then more of it.
then-Sent :
    (b b' : MsgBuff) (n : ℕ) (tx tx' : List Departure) (sent : List ℕ) (stat : WriteStatus)
    (out' : Out)
    → n ≤ b.tail - b.head
    → Sent
        (record b { head = b.head + n })
        b'
        stat
        (record { tx = tx'; sent = sent ++ take n (drop b.head b.bytes) })
        out'
    → Sent b b' stat (record { tx = tx; sent = sent }) out'
then-Sent b b' n tx tx' sent stat out' le s = record {
  fits = s.fits;
  conserved =
      s.conserved
      ∙ (append_assoc sent (take n (drop b.head b.bytes)) (payload (record b { head = b.head + n }))
          ∙ ap (λ (l : List ℕ). sent ++ l) (sym (payload_step b n le)));
  status = s.status;
}

abbrev Result : (fuel len count : ℕ) → MsgBuff → List Departure → List ℕ → Type 0
Result fuel len count b tx sent =
    (stat : WriteStatus) × (b' : MsgBuff) × (count' : ℕ) × (out' : Out) × (send_loop fuel b len
        count (record { tx = tx; sent = sent })
      ≡ some (stat, b', count', out'))
    × Sent b b' stat (record { tx = tx; sent = sent }) out'

over :
    (fuel len count : ℕ) (b : MsgBuff) (tx : List Departure) (sent : List ℕ)
    → IsBuff b
    → len ≡ b.tail - b.head
    → (len == 0) ≡ true
    → Result (suc fuel) len count b tx sent
unfolding send_loop
over fuel len count b tx sent h e zero_left = (
  write_ok,
  b,
  count,
  record { tx = tx; sent = sent },
  rw zero_left refl,
  finished b _ h (ground (arith, zero_left)),
)

pub send_loop-Sent :
    (fuel len count : ℕ) (b : MsgBuff) (tx : List Departure) (sent : List ℕ)
    → IsBuff b
    → len ≡ b.tail - b.head
    → len ≤ fuel
    → Result fuel len count b tx sent
unfolding send_loop sock_try_send_n
send_loop-Sent zero len count b tx sent h e le =
    let e' : (len == 0) ≡ true = ground (arith, le) in
    (write_ok, b, count, record { tx = tx; sent = sent }, rw e' refl, finished b _ h (omega arith))
send_loop-Sent (suc fuel) len count b [] sent h e le = elim (Bool-cases (len == 0)) [
  | inl done ↦ over fuel len count b [] sent h e done
  | inr more ↦ (
    write_eagain,
    b,
    count,
    record { tx = []; sent = sent },
    rw more refl,
    waits b [] [] sent write_eagain h (inl refl),
  )
]
send_loop-Sent (suc fuel) len count b (send_again ∷ tx) sent h e le = elim (Bool-cases (len == 0)) [
  | inl done ↦ over fuel len count b _ sent h e done
  | inr more ↦ (
    write_eagain,
    b,
    count,
    record { tx = tx; sent = sent },
    rw more refl,
    waits b _ tx sent write_eagain h (inl refl),
  )
]
send_loop-Sent (suc fuel) len count b (send_error ∷ tx) sent h e le = elim (Bool-cases (len == 0)) [
  | inl done ↦ over fuel len count b _ sent h e done
  | inr more ↦ (
    write_err,
    b,
    count,
    record { tx = tx; sent = sent },
    rw more refl,
    waits b _ tx sent write_err h (inr refl),
  )
]
send_loop-Sent (suc fuel) len count b (room k ∷ tx) sent h e le = elim (Bool-cases (len == 0)) [
  | inl done ↦ over fuel len count b _ sent h e done
  | inr more ↦
      let n = min (k + 1) len in
      let some_bytes : 0 < n = ground (arith, more) in
      let inside : leb (b.head + n) (length b.bytes) ≡ true =
        ground (arith, h.within, h.order, e) in
      let (stat, b', count', out', run, s) =
        send_loop-Sent fuel (len - n) (count + n) (record b { head = b.head + n }) tx
          (sent ++ take n (drop b.head b.bytes))
          (record { order = omega (arith, h.order, e); within = h.within }) (omega arith)
          (omega arith) in
      (
        stat,
        b',
        count',
        out',
        rw (more, inside) run,
        then-Sent b b' n (room k ∷ tx) tx sent stat out' (omega arith) s,
      )
]
