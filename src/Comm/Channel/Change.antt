-- ===== src/Comm/Channel/Change.antt =====
-- The operations on one channel of src/comm/channel.c keep its waiting queue and the chunks of its
-- queue, and what they have at hand stays a buffer.
pub mod Before
pub mod Setup
use dlfree.Base.{
  ℕ, ◌+◌, ◌-◌, ◌≤◌, ◌≡◌, ◌⊎◌, refl, ap, sym, ◌∙◌, Bool, true, false, Option, none, some, List, [],
  ◌∷◌, ◌++◌, ltb, leb, ◌==◌, ◌&&◌, if◌then◌else◌, length, take, replicate, length-append,
  length-replicate, length-take, inl, inr, arith, Bool-cases, Option-cases, none_ne_some,
  some_injective,
}
use dlfree.Std.Bytes.{Endian}
use dlfree.Comm.Msg.{
  MsgInfo, MsgBuff, msg_info_pack, msg_buff_create, msg_buff_create_on_buff, msg_buff_recv_len,
}
use dlfree.Comm.Data.{write_at}
use dlfree.Comm.Sock.{Arrival}
use dlfree.Comm.Channel.{
  Channel, ReadStatus, read_done, size_of_len, front_of, header_len, channel_setup_buff,
  channel_setup_chunk, channel_setup_chunk_with_buff, channel_setup_msg, channel_read_to_buff,
  channel_read_msg, channel_read_chunk, channel_pack_buff, channel_send_msg,
}
use dlfree.Comm.Channel.Waiting.{IsBuff, AllBuffs}
use dlfree.Comm.Channel.Keep.{
  Kept, bind_some, if_some, read_loop-Kept, read_loop-IsBuff, write_at-IsBuff,
}
use dlfree.Comm.Channel.Write.Served.{buffs-append}
pub use dlfree.Comm.Channel.Change.Before.{Fits-some, Fits, Changed, Quiet, Kept-Changed}
use dlfree.Comm.Channel.Change.Before.{Kept-but, no_chunk}
pub use dlfree.Comm.Channel.Change.Setup.{
  channel_setup_chunk-Changed, channel_setup_chunk_with_buff-Changed, channel_setup_msg-Changed,
}

chunk_last :
    (t : Bool) (c c' : Channel) (b : MsgBuff) (s s' : ReadStatus) (all : Option MsgBuff)
    (r r' : List Arrival)
    → ◌≡◌ {A = Option (ReadStatus × Option MsgBuff × Channel × List Arrival)}
        (some (
          if t
          then (read_done, some b, record c { curr_buff = some b }, r)
          else (s, none, record c { curr_buff = some b }, r)))
        (some (s', all, c', r'))
    → c' ≡ record c { curr_buff = some b }
chunk_last true c c' b s s' all r r' e = sym (ap (λ p. p.2) (some_injective e))
chunk_last false c c' b s s' all r r' e = sym (ap (λ p. p.2) (some_injective e))

msg_last :
    (t : Bool) (c c' : Channel) (b : MsgBuff) (s s' : ReadStatus) (all : Option MsgBuff)
    (r r' : List Arrival)
    → ◌≡◌ {A = Option (ReadStatus × Option MsgBuff × Channel × List Arrival)}
        (some (
          if t
          then (read_done, some b, record c { curr_buff = none }, r)
          else (s, none, record c { curr_buff = some b }, r)))
        (some (s', all, c', r'))
    → (c' ≡ record c { curr_buff = none }) ⊎ (c' ≡ record c { curr_buff = some b })
msg_last true c c' b s s' all r r' e = inl (sym (ap (λ p. p.2) (some_injective e)))
msg_last false c c' b s s' all r r' e = inr (sym (ap (λ p. p.2) (some_injective e)))

pub channel_read_chunk-Changed :
    (chan chan' : Channel) (rx rx' : List Arrival) (stat : ReadStatus) (all : Option MsgBuff)
    → channel_read_chunk chan rx ≡ some (stat, all, chan', rx')
    → Changed chan chan' × Quiet chan chan'
unfolding channel_read_chunk channel_read_to_buff
channel_read_chunk-Changed chan chan' rx rx' stat all run =
    let (buff, e_buff, run₁) = bind_some chan.curr_buff _ _ run in
    let (most, _, run₂) = bind_some (size_of_len chan.msg_info.remain) _ _ run₁ in
    let run₃ = if_some (leb (msg_buff_recv_len buff) most) _ _ run₂ in
    let ((s, left, c, b, r), e_loop, run₄) =
      bind_some (channel_read_to_buff chan buff (msg_buff_recv_len buff) rx) _ _ run₃ in
    let k =
      read_loop-Kept (msg_buff_recv_len buff) chan c buff b (msg_buff_recv_len buff) left rx r s
        e_loop in
    let last = chunk_last (left == 0) c chan' b s stat all r rx' run₄ in
    rw last (
      Kept-but k (some b) (λ fits. Fits-some b (
        read_loop-IsBuff (msg_buff_recv_len buff) chan c buff b (msg_buff_recv_len buff) left rx r s
          (fits buff e_buff) e_loop)))

pub channel_read_msg-Changed :
    (chan chan' : Channel) (rx rx' : List Arrival) (stat : ReadStatus) (all : Option MsgBuff)
    → channel_read_msg chan rx ≡ some (stat, all, chan', rx')
    → Changed chan chan' × Quiet chan chan'
unfolding channel_read_msg channel_read_to_buff
channel_read_msg-Changed chan chan' rx rx' stat all run =
    let (buff, e_buff, run₁) = bind_some chan.curr_buff _ _ run in
    let (remain, _, run₂) = bind_some (size_of_len chan.msg_info.remain) _ _ run₁ in
    let ((s, left, c, b, r), e_loop, run₃) =
      bind_some (channel_read_to_buff chan buff remain rx) _ _ run₂ in
    let k = read_loop-Kept remain chan c buff b remain left rx r s e_loop in
    elim (msg_last (left == 0) c chan' b s stat all r rx' run₃) [
      | inl last ↦ rw last (Kept-but k none (λ _. no_chunk))
      | inr last ↦ rw last (
          Kept-but k (some b) (λ fits.
            Fits-some b
              (read_loop-IsBuff remain chan c buff b remain left rx r s (fits buff e_buff) e_loop)))
    ]

both_true : (a b : Bool) → (a && b) ≡ true → (a ≡ true) × (b ≡ true)
both_true true b e = (refl, e)
both_true false b e = ground arith

pub channel_pack_buff-IsBuff :
    (e : Endian) (minfo : MsgInfo) (buff : List ℕ) (len : ℕ) (chunk : MsgBuff)
    → channel_pack_buff e minfo buff len ≡ some chunk
    → IsBuff chunk
unfolding channel_pack_buff msg_buff_create msg_buff_create_on_buff
channel_pack_buff-IsBuff e minfo buff len chunk run =
    let header = msg_info_pack e minfo [] in
    elim (Bool-cases (leb (length header) header_len && leb len (length buff))) [
      | inr large ↦ absurd (none_ne_some (rw (channel_pack_buff, large) at run))
      | inl sized ↦
          let same = some_injective (rw (channel_pack_buff, sized) at run) in
          let (short, rest) =
            both_true (leb (length header) header_len) (leb len (length buff)) sized in
          let size : length
                (header ++ replicate {A = ℕ} (header_len - length header) 0 ++ take len buff)
              ≡ header_len + len =
            rw
              (
                length-append {0} (header ++ replicate {A = ℕ} (header_len - length header) 0),
                length-append {0} header,
                length-replicate,
                length-take,
              )
              (ground (arith, short, rest)) in
          let start : 0 ≤ header_len + len = omega arith in
          let end_inside : header_len + len
              ≤ length
                  (header ++ replicate {A = ℕ} (header_len - length header) 0 ++ take len buff) =
            rw size (omega arith) in
          rw (← same) (record { order = start; within = end_inside })
    ]

pub channel_send_msg-Changed :
    (e : Endian) (chan chan' : Channel) (minfo : MsgInfo) (buff : List ℕ) (len : ℕ)
    → channel_send_msg e chan minfo buff len ≡ some chan'
    → Changed chan chan' × (chan'.curr_buff ≡ chan.curr_buff) × (chan'.state ≡ chan.state)
unfolding channel_send_msg
channel_send_msg-Changed e chan chan' minfo buff len run =
    let (chunk, e_chunk, run₁) = bind_some (channel_pack_buff e minfo buff len) _ _ run in
    rw (← some_injective run₁) (
      record {
        wait = refl;
        buffs = λ all.
            buffs-append chan.buff_queue chunk all
              (channel_pack_buff-IsBuff e minfo buff len chunk e_chunk);
        longer = rw (length-append {0} chan.buff_queue (chunk ∷ [])) (omega arith);
        fits = λ fits. fits;
      },
      refl,
      refl,
    )
