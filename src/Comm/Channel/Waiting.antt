-- ===== src/Comm/Channel/Waiting.antt =====
-- Which channels wait for which, and the bytes that are on their way through a channel.
use dlfree.Base.{
  has, distinct, ℕ, ◌-◌, ◌≤◌, ◌≡◌, ◌⊎◌, true, false, Option, none, some, List, [], ◌∷◌, ◌++◌,
  length, take, drop,
}
use dlfree.Comm.Msg.{MsgBuff}
use dlfree.Comm.Channel.{Channel, Channels, State, initial, blocking, queue_limit}

abbrev pub wait_of : Option Channel → List ℕ
wait_of none = []
wait_of (some chan) = chan.wait_queue

abbrev pub queue_of : Option Channel → List MsgBuff
queue_of none = []
queue_of (some chan) = chan.buff_queue

abbrev pub curr_of : Option Channel → Option MsgBuff
curr_of none = none
curr_of (some chan) = chan.curr_buff

abbrev pub state_of : Option Channel → State
state_of none = initial
state_of (some chan) = chan.state

-- The part that is to be sent lies within the memory.
pub record IsBuff (b : MsgBuff) : Type 0 where
  pub order : b.head ≤ b.tail
  pub within : b.tail ≤ length b.bytes

pub data AllBuffs : List MsgBuff → Type 0 where
  no_buffs : AllBuffs []
  more_buffs : {b : MsgBuff} {bs : List MsgBuff} → IsBuff b → AllBuffs bs → AllBuffs (b ∷ bs)

-- A channel that is blocked, with a chunk in its hands.
pub record Holds (c : Option Channel) : Type 0 where
  pub blocked : state_of c ≡ blocking
  pub chunk : MsgBuff
  pub held : curr_of c ≡ some chunk
  pub chunk_fits : IsBuff chunk

-- Who waits is blocked with a chunk, and waits at one place, once, and not at itself.
pub record IsOrderly (chans : Channels) : Type 0 where
  pub buffs : (id : ℕ) → AllBuffs (queue_of (chans id))
  pub holds : (id w : ℕ) → has w (wait_of (chans id)) ≡ true → Holds (chans w)
  pub once : (id : ℕ) → distinct (wait_of (chans id)) ≡ true
  pub one_place :
      (id id' w : ℕ)
      → has w (wait_of (chans id)) ≡ true
      → has w (wait_of (chans id')) ≡ true
      → id ≡ id'
  pub others : (id : ℕ) → has id (wait_of (chans id)) ≡ false

-- Nobody waits for a channel that has room.
abbrev pub IsFull : Option Channel → Type 0
IsFull c = (wait_of c ≡ []) ⊎ (queue_limit ≤ length (queue_of c))

abbrev pub AllFull : Channels → Type 0
AllFull chans = (id : ℕ) → IsFull (chans id)

-- The bytes of a buffer that are to be sent.
unfoldable pub payload : MsgBuff → List ℕ
payload b = take (b.tail - b.head) (drop b.head b.bytes)

unfoldable pub payloads : List MsgBuff → List ℕ
payloads [] = []
payloads (b ∷ bs) = payload b ++ payloads bs

abbrev pub chunk_bytes : Option MsgBuff → List ℕ
chunk_bytes none = []
chunk_bytes (some b) = payload b

unfoldable pub waiting_bytes : Channels → List ℕ → List ℕ
waiting_bytes chans [] = []
waiting_bytes chans (w ∷ ws) = chunk_bytes (curr_of (chans w)) ++ waiting_bytes chans ws

-- What is to go through the channel: the chunks of its queue, and behind them those that wait.
unfoldable pub pending : Channels → ℕ → List ℕ
pending chans id = payloads (queue_of (chans id)) ++ waiting_bytes chans (wait_of (chans id))
