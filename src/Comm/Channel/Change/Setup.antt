-- ===== src/Comm/Channel/Change/Setup.antt =====
-- The operations that set up the memory of a chunk leave the rest alone.
use dlfree.Base.{
  ℕ, ◌+◌, ◌≡◌, refl, ap, sym, ◌∙◌, Option, none, some, List, [], ltb, leb, length, take,
  length-take, inl, inr, arith, Bool-cases, Option-cases, none_ne_some, some_injective,
}
use dlfree.Comm.Msg.{MsgBuff, msg_buff_create_on_buff}
use dlfree.Comm.Data.{write_at}
use dlfree.Comm.Channel.{
  Channel, size_of_len, front_of, header_len, channel_setup_buff, channel_setup_chunk,
  channel_setup_chunk_with_buff, channel_setup_msg,
}
use dlfree.Comm.Channel.Waiting.{IsBuff}
use dlfree.Comm.Channel.Keep.{bind_some, if_some, write_at-IsBuff}
use dlfree.Comm.Channel.Change.Before.{Changed, Quiet}
use dlfree.Comm.Channel.Change.Before.{Fits-some}

channel_setup_buff-Changed :
    (fresh : List ℕ) (chan chan' : Channel) (size : ℕ) (buff : Option (List ℕ))
    → channel_setup_buff fresh chan size buff ≡ some chan'
    → (chan.curr_buff ≡ none)
      × (chan' ≡ record chan { curr_buff = some (msg_buff_create_on_buff fresh size buff) })
unfolding channel_setup_buff
channel_setup_buff-Changed fresh chan chan' size buff run = elim (Option-cases chan.curr_buff) [
  | inl e ↦ (e, sym (some_injective (rw (channel_setup_buff, e) at run)))
  | inr (b, e) ↦ absurd (none_ne_some (rw (channel_setup_buff, e) at run))
]

empty-IsBuff :
    (fresh : List ℕ) (size : ℕ) (buff : Option (List ℕ))
    → IsBuff (msg_buff_create_on_buff fresh size buff)
unfolding msg_buff_create_on_buff
empty-IsBuff fresh size none = record { order = omega arith; within = omega arith }
empty-IsBuff fresh size (some buff) = record { order = omega arith; within = omega arith }

with_chunk :
    (chan : Channel) (b : MsgBuff)
    → IsBuff b
    → Changed chan (record chan { curr_buff = some b })
      × Quiet chan (record chan { curr_buff = some b })
with_chunk chan b h = (
  record { wait = refl; buffs = λ all. all; longer = omega arith; fits = λ _. Fits-some b h },
  record { queue = refl; state = refl },
)

length-front_of : (n : ℕ) (mem front : List ℕ) → front_of n mem ≡ some front → length front ≡ n
length-front_of n mem front e = elim (Bool-cases (leb n (length mem))) [
  | inr short ↦ absurd (none_ne_some (rw short at e))
  | inl enough ↦
      let e' : take n mem ≡ front = some_injective (rw enough at e) in
      rw (← e', length-take) (ground (arith, enough))
]

setup_last :
    (fresh : List ℕ) (size : ℕ) (chan c : Channel) (b : MsgBuff) (header mem : List ℕ)
    → c ≡ record chan { curr_buff = some (msg_buff_create_on_buff fresh size none) }
    → c.curr_buff ≡ some b
    → front_of header_len chan.header_buff ≡ some header
    → write_at b.bytes b.tail header ≡ some mem
    → Changed chan
        (record c { curr_buff = some (record b { bytes = mem; tail = b.tail + header_len }) })
      × Quiet chan
          (record c { curr_buff = some (record b { bytes = mem; tail = b.tail + header_len }) })
setup_last fresh size chan c b header mem same at e_header e_mem =
    let is_fresh : msg_buff_create_on_buff fresh size none ≡ b =
      some_injective (sym (ap (λ (x : Channel). x.curr_buff) same) ∙ at) in
    let fits : IsBuff b = rw (← is_fresh) (empty-IsBuff fresh size none) in
    let len = length-front_of header_len chan.header_buff header e_header in
    let fits' = rw len at (write_at-IsBuff b mem header fits e_mem) in
    let same_queue = ap (λ (x : Channel). x.buff_queue) same in
    (
      record {
        wait = ap (λ (x : Channel). x.wait_queue) same;
        buffs = λ all. rw same_queue all;
        longer = rw same_queue (omega arith);
        fits = λ _. Fits-some _ fits';
      },
      record { queue = same_queue; state = ap (λ (x : Channel). x.state) same },
    )

pub channel_setup_chunk-Changed :
    (fresh : List ℕ) (chan chan' : Channel)
    → channel_setup_chunk fresh chan ≡ some chan'
    → (chan.curr_buff ≡ none) × Changed chan chan' × Quiet chan chan'
unfolding channel_setup_chunk
channel_setup_chunk-Changed fresh chan chan' run =
    let (len, _, run₁) = bind_some (size_of_len chan.msg_info.len) _ _ run in
    let (c, e, run₂) =
      bind_some (channel_setup_buff fresh chan (len + header_len) none) _ _
        (if_some (ltb 0 len) _ _ run₁) in
    let (free, same) = channel_setup_buff-Changed fresh chan c (len + header_len) none e in
    let (b, at, run₃) = bind_some c.curr_buff _ _ run₂ in
    let (header, e_header, run₄) = bind_some (front_of header_len chan.header_buff) _ _ run₃ in
    let (mem, e_mem, run₅) = bind_some (write_at b.bytes b.tail header) _ _ run₄ in
    let both : Changed chan chan' × Quiet chan chan' =
      rw (← some_injective run₅)
        (setup_last fresh (len + header_len) chan c b header mem same at e_header e_mem) in
    (free, both.0, both.1)

pub channel_setup_chunk_with_buff-Changed :
    (chan chan' : Channel) (buff : List ℕ)
    → channel_setup_chunk_with_buff chan buff ≡ some chan'
    → (chan.curr_buff ≡ none) × Changed chan chan' × Quiet chan chan'
unfolding channel_setup_chunk_with_buff
channel_setup_chunk_with_buff-Changed chan chan' buff run =
    let (len, _, run₁) = bind_some (size_of_len chan.msg_info.len) _ _ run in
    let (free, same) =
      channel_setup_buff-Changed [] chan chan' len (some buff) (if_some (ltb 0 len) _ _ run₁) in
    let both : Changed chan chan' × Quiet chan chan' =
      rw same (with_chunk chan _ (empty-IsBuff [] len (some buff))) in
    (free, both.0, both.1)

pub channel_setup_msg-Changed :
    (fresh : List ℕ) (chan chan' : Channel)
    → channel_setup_msg fresh chan ≡ some chan'
    → (chan.curr_buff ≡ none) × Changed chan chan' × Quiet chan chan'
unfolding channel_setup_msg
channel_setup_msg-Changed fresh chan chan' run =
    let (len, _, run₁) = bind_some (size_of_len chan.msg_info.len) _ _ run in
    let (free, same) = channel_setup_buff-Changed fresh chan chan' len none run₁ in
    let both : Changed chan chan' × Quiet chan chan' =
      rw same (with_chunk chan _ (empty-IsBuff fresh len none)) in
    (free, both.0, both.1)
