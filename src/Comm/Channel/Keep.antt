-- ===== src/Comm/Channel/Keep.antt =====
-- The operations on one channel leave its queues as they are.
use dlfree.Base.{
  ℕ, zero, suc, ◌+◌, ◌-◌, ◌≤◌, ◌≡◌, ◌⊎◌, refl, ap, Bool, true, false, Option, none, some, List,
  ◌++◌, leb, ◌==◌, if◌then◌else◌, length, take, drop, length-append, length-take, length-drop, inl,
  inr, arith, Bool-cases, none_ne_some, some_injective,
}
use dlfree.Std.Bytes.{Endian, ◌>>=◌}
use dlfree.Comm.Msg.{MsgBuff, msg_info_unpack}
use dlfree.Comm.Data.{write_at}
use dlfree.Comm.Channel.Waiting.{IsBuff}
use dlfree.Comm.Sock.{
  Arrival, RecvStatus, recv_ok, recv_eagain, recv_eof, recv_err, sock_try_recv_n,
}
use dlfree.Comm.Channel.{
  Channel, ReadStatus, read_ok, spend, is_err_kind, channel_read_header, read_loop,
}

-- The queues and the chunk at hand are the same.
pub record Kept (chan chan' : Channel) : Type 0 where
  pub queue : chan'.buff_queue ≡ chan.buff_queue
  pub wait : chan'.wait_queue ≡ chan.wait_queue
  pub curr : chan'.curr_buff ≡ chan.curr_buff
  pub state : chan'.state ≡ chan.state

Kept-same : (chan : Channel) → Kept chan chan
Kept-same chan = record { queue = refl; wait = refl; curr = refl; state = refl }

-- A chain of fallible steps that succeeds has a first one that does.
pub bind_some :
    {A B : Type 0} (m : Option A) (f : A → Option B) (b : B)
    → (m >>= f) ≡ some b
    → (a : A) × (m ≡ some a) × (f a ≡ some b)
bind_some none f b e = absurd (none_ne_some e)
bind_some (some a) f b e = (a, refl, e)

pub if_some :
    {B : Type 0} (t : Bool) (m : Option B) (b : B) → (if t then m else none) ≡ some b → m ≡ some b
if_some true m b e = e
if_some false m b e = absurd (none_ne_some e)

RecvStatus-cases :
    (s : RecvStatus)
    → (s ≡ recv_err) ⊎ ((s ≡ recv_eof) ⊎ ((s ≡ recv_eagain) ⊎ ((got : List ℕ) × (s ≡ recv_ok got))))
RecvStatus-cases recv_err = inl refl
RecvStatus-cases recv_eof = inr (inl refl)
RecvStatus-cases recv_eagain = inr (inr (inl refl))
RecvStatus-cases (recv_ok got) = inr (inr (inr (got, refl)))

Kept-of :
    {R : Type 0} (chan c c' : Channel) (s s' : ReadStatus) (r r' : R)
    → ◌≡◌ {A = Option (ReadStatus × Channel × R)} (some (s, c, r)) (some (s', c', r'))
    → Kept chan c
    → Kept chan c'
Kept-of chan c c' s s' r r' e k =
    let same : c ≡ c' = ap (λ p. p.1) (some_injective e) in rw (← same) k

pub channel_read_header-Kept :
    (e : Endian) (chan chan' : Channel) (rx rx' : List Arrival) (stat : ReadStatus)
    → channel_read_header e chan rx ≡ some (stat, chan', rx')
    → Kept chan chan'
unfolding channel_read_header
channel_read_header-Kept e chan chan' rx rx' stat run =
    elim (RecvStatus-cases (sock_try_recv_n (100 - chan.header_off) rx).0) [
      | inl same ↦
          Kept-of chan chan chan' _ _ _ _ (rw (same, channel_read_header) at run) (Kept-same chan)
      | inr (inl same) ↦
          Kept-of chan chan chan' _ _ _ _ (rw (same, channel_read_header) at run) (Kept-same chan)
      | inr (inr (inl same)) ↦
          Kept-of chan chan chan' _ _ _ _ (rw (same, channel_read_header) at run) (Kept-same chan)
      | inr (inr (inr (got, same))) ↦
          let run' = rw (same, channel_read_header) at run in
          let (header_buff, _, run₁) =
            bind_some (write_at chan.header_buff chan.header_off got) _ _ run' in
          elim (Bool-cases (chan.header_off + length got == 100)) [
            | inr partly ↦
                Kept-of chan _ chan' _ _ _ _ (rw partly at run₁)
                  (record { queue = refl; wait = refl; curr = refl; state = refl })
            | inl whole ↦
                let (m, _, run₂) =
                  bind_some (msg_info_unpack e chan.msg_info header_buff) _ _ (rw whole at run₁) in
                elim (Bool-cases (is_err_kind m.0.kind)) [
                  | inl bad ↦ absurd (none_ne_some (rw bad at run₂))
                  | inr fine ↦
                      Kept-of chan _ chan' _ _ _ _ (rw fine at run₂)
                        (record { queue = refl; wait = refl; curr = refl; state = refl })
                ]
          ]
    ]

-- Reading changes the count and what remains of the message.
pub read_loop-Kept :
    (fuel : ℕ) (chan chan' : Channel) (buff buff' : MsgBuff) (len left : ℕ) (rx rx' : List Arrival)
    (stat : ReadStatus)
    → read_loop fuel chan buff len rx ≡ some (stat, left, chan', buff', rx')
    → Kept chan chan'
unfolding read_loop
read_loop-Kept zero chan chan' buff buff' len left rx rx' stat run = elim (Bool-cases (len == 0)) [
  | inl over ↦ last_kept (rw over at run)
  | inr more ↦ absurd (none_ne_some (rw more at run))
]
  where
    last_kept :
        ◌≡◌ {A = Option (ReadStatus × ℕ × Channel × MsgBuff × List Arrival)}
          (some (read_ok, len, chan, buff, rx))
          (some (stat, left, chan', buff', rx'))
        → Kept chan chan'
    last_kept e =
        let same : chan ≡ chan' = ap (λ p. p.2) (some_injective e) in rw (← same) (Kept-same chan)
read_loop-Kept (suc fuel) chan chan' buff buff' len left rx rx' stat run =
    elim (Bool-cases (len == 0)) [
      | inl over ↦ last_kept _ _ _ (rw over at run)
      | inr more ↦ elim (RecvStatus-cases (sock_try_recv_n len rx).0) [
        | inl same ↦ last_kept _ _ _ (rw (read_loop, more, same) at run)
        | inr (inl same) ↦ last_kept _ _ _ (rw (read_loop, more, same) at run)
        | inr (inr (inl same)) ↦ last_kept _ _ _ (rw (read_loop, more, same) at run)
        | inr (inr (inr (got, same))) ↦
            let (mem, _, run₁) =
              bind_some (write_at buff.bytes buff.tail got) _ _
                (rw (read_loop, more, same) at run) in
            let (remain, _, run₂) = bind_some (spend chan.msg_info.remain (length got)) _ _ run₁ in
            let more_kept = read_loop-Kept fuel _ chan' _ buff' _ left _ rx' stat run₂ in
            record {
              queue = more_kept.queue;
              wait = more_kept.wait;
              curr = more_kept.curr;
              state = more_kept.state;
            }
      ]
    ]
  where
    last_kept :
        (s : ReadStatus) (l : ℕ) (r : List Arrival)
        → ◌≡◌ {A = Option (ReadStatus × ℕ × Channel × MsgBuff × List Arrival)}
            (some (s, l, chan, buff, r))
            (some (stat, left, chan', buff', rx'))
        → Kept chan chan'
    last_kept s l r e =
        let same : chan ≡ chan' = ap (λ p. p.2) (some_injective e) in rw (← same) (Kept-same chan)

-- The buffer that is read into stays a buffer.
pub write_at-IsBuff :
    (buff : MsgBuff) (mem got : List ℕ)
    → IsBuff buff
    → write_at buff.bytes buff.tail got ≡ some mem
    → IsBuff (record buff { bytes = mem; tail = buff.tail + length got })
unfolding write_at
write_at-IsBuff buff mem got h e =
    elim (Bool-cases (leb (buff.tail + length got) (length buff.bytes))) [
      | inr out ↦ absurd (none_ne_some (rw (write_at, out) at e))
      | inl inside ↦
          let e' : take buff.tail buff.bytes ++ (got ++ drop (buff.tail + length got) buff.bytes)
              ≡ mem =
            some_injective (rw (write_at, inside) at e) in
          let same : length mem ≡ length buff.bytes =
            rw
              (
                ← e',
                length-append {0} (take buff.tail buff.bytes),
                length-append {0} got,
                length-take,
                length-drop,
              )
              (ground (arith, inside)) in
          let inside' : buff.tail + length got ≤ length buff.bytes = ground (arith, inside) in
          record { order = omega (arith, h.order); within = omega (arith, same, inside') }
    ]

pub read_loop-IsBuff :
    (fuel : ℕ) (chan chan' : Channel) (buff buff' : MsgBuff) (len left : ℕ) (rx rx' : List Arrival)
    (stat : ReadStatus)
    → IsBuff buff
    → read_loop fuel chan buff len rx ≡ some (stat, left, chan', buff', rx')
    → IsBuff buff'
unfolding read_loop
read_loop-IsBuff zero chan chan' buff buff' len left rx rx' stat h run =
    elim (Bool-cases (len == 0)) [
      | inl over ↦ last_fits (rw over at run)
      | inr more ↦ absurd (none_ne_some (rw more at run))
    ]
  where
    last_fits :
        ◌≡◌ {A = Option (ReadStatus × ℕ × Channel × MsgBuff × List Arrival)}
          (some (read_ok, len, chan, buff, rx))
          (some (stat, left, chan', buff', rx'))
        → IsBuff buff'
    last_fits e = let same : buff ≡ buff' = ap (λ p. p.3) (some_injective e) in rw (← same) h
read_loop-IsBuff (suc fuel) chan chan' buff buff' len left rx rx' stat h run =
    elim (Bool-cases (len == 0)) [
      | inl over ↦ last_fits _ _ _ (rw over at run)
      | inr more ↦ elim (RecvStatus-cases (sock_try_recv_n len rx).0) [
        | inl same ↦ last_fits _ _ _ (rw (read_loop, more, same) at run)
        | inr (inl same) ↦ last_fits _ _ _ (rw (read_loop, more, same) at run)
        | inr (inr (inl same)) ↦ last_fits _ _ _ (rw (read_loop, more, same) at run)
        | inr (inr (inr (got, same))) ↦
            let (mem, e_mem, run₁) =
              bind_some (write_at buff.bytes buff.tail got) _ _
                (rw (read_loop, more, same) at run) in
            let (remain, _, run₂) = bind_some (spend chan.msg_info.remain (length got)) _ _ run₁ in
            read_loop-IsBuff fuel _ chan' _ buff' _ left _ rx' stat
              (write_at-IsBuff buff mem got h e_mem) run₂
      ]
    ]
  where
    last_fits :
        (s : ReadStatus) (l : ℕ) (r : List Arrival)
        → ◌≡◌ {A = Option (ReadStatus × ℕ × Channel × MsgBuff × List Arrival)}
            (some (s, l, chan, buff, r))
            (some (stat, left, chan', buff', rx'))
        → IsBuff buff'
    last_fits s l r e = let same : buff ≡ buff' = ap (λ p. p.3) (some_injective e) in rw (← same) h
