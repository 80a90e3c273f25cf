-- ===== src/Comm/Data.antt =====
-- Data messages: `comm_node_get_new_sid` and `comm_node_send_data` of src/comm/comm.c, which cut a
-- message into chunks, and the `data_msg` of src/comm/msg.c, which puts the chunks together.
pub mod Sid
pub mod Reassembly
pub mod Received
use dlfree.Base.{
  ℕ, zero, suc, ◌+◌, ◌-◌, ◌*◌, ◌%◌, ◌^◌, Bool, true, false, ◌&&◌, ◌||◌, Option, none, some, List,
  [], ◌∷◌, ◌++◌, ltb, leb, ◌==◌, if◌then◌else◌, length, take, drop,
}
use dlfree.Base.Int.{ℤ, pos, negsuc, ◌-ℤ◌}
use dlfree.Std.Bytes.{◌>>=◌}
use dlfree.Comm.Msg.{MsgInfo, MsgBuff, msg_info_create, msg_buff_create_on_buff}

-- `comm_node_get_new_sid`: the id and the moved counter. A node id of more than 20 bits fails the
-- assertion.
unfoldable pub get_new_sid : (counter node_id : ℕ) → Option (ℕ × ℕ)
get_new_sid counter node_id =
    let sid = counter * 2 ^ 20 % 2 ^ 64 in
    if ltb node_id (2 ^ 20) then some ((sid + node_id) % 2 ^ 64, (counter + 1) % 2 ^ 64) else none

-- `MSG_TYPE_DATA` of `enum msg_kind`.
abbrev pub msg_type_data : ℤ
msg_type_data = pos 1

-- The header that `ioman_send_chunk` makes.
abbrev pub chunk_info : (src_id dst_id : ℤ) (sid tot_len seq len : ℕ) → MsgInfo
chunk_info src_id dst_id sid tot_len seq len = record msg_info_create {
  kind = msg_type_data;
  dst_id = dst_id;
  src_id = src_id;
  len = pos len;
  tot_len = pos tot_len;
  sid = sid;
  seq = pos seq;
}

module _ (src_id dst_id : ℤ) (chunk_size sid len : ℕ) (buff : List ℕ) where
  -- The loop of `comm_node_send_data`: the headers and bodies of the chunks, in the order of
  -- sending. `none` means that the fuel ran out.
  unfoldable pub send_loop : (fuel seq off remain : ℕ) → Option (List (MsgInfo × List ℕ))
  send_loop zero seq off remain = if remain == 0 then some [] else none
  send_loop (suc fuel) seq off remain =
      let size = if ltb remain chunk_size then remain else chunk_size in
      let rest = send_loop fuel (seq + 1) (off + size) (remain - size) in
      if remain == 0 then some [] else (do
        chunks ← rest
        some ((chunk_info src_id dst_id sid len seq size, take size (drop off buff)) ∷ chunks))

  unfoldable pub send_data : Option (List (MsgInfo × List ℕ))
  send_data = send_loop len 0 0 len

-- `start_time` is the bit pattern of the `double`.
pub record DataMsg : Type 0 where
  pub len : ℕ
  pub src_id : ℤ
  pub recvd : ℕ
  pub seq : ℤ
  pub start_time : ℕ
  pub chunk_list : List MsgBuff
  pub user_msg_data : List ℕ

-- `fresh` are the bytes of the memory that `malloc` returns.
unfoldable pub data_msg_create : List ℕ → ℕ → ℤ → ℕ → DataMsg
data_msg_create fresh len src_id t = record {
  len = len;
  src_id = src_id;
  recvd = 0;
  seq = negsuc 0;
  start_time = t;
  chunk_list = [];
  user_msg_data = fresh;
}

pub data Status : Type 0 where
  more full : Status

abbrev pub eqb_ℤ : ℤ → ℤ → Bool
eqb_ℤ (pos a) (pos b) = a == b
eqb_ℤ (negsuc a) (negsuc b) = a == b
eqb_ℤ _ _ = false

-- A failed assertion is `none`.
unfoldable pub data_msg_push_chunk : DataMsg → MsgInfo → MsgBuff → Option (Status × DataMsg)
data_msg_push_chunk msg header chunk =
    let dseq = header.seq -ℤ msg.seq in
    let recvd = msg.recvd + chunk.len in
    let msg' = record msg {
      seq = header.seq;
      chunk_list = msg.chunk_list ++ chunk ∷ [];
      recvd = recvd;
    } in
    if eqb_ℤ header.src_id msg.src_id
      && (eqb_ℤ dseq (pos 0) || eqb_ℤ dseq (pos 1))
      && leb recvd msg.len
    then some (if recvd == msg.len then full else more, msg')
    else none

-- Memory with `bytes` written from `off` on; a write out of bounds is a fault.
unfoldable pub write_at : List ℕ → ℕ → List ℕ → Option (List ℕ)
write_at mem off bytes =
    if leb (off + length bytes) (length mem)
    then some (take off mem ++ (bytes ++ drop (off + length bytes) mem))
    else none

-- One chunk: its body is read into the memory of the message, from `data_msg_buff_tail` on, by a
-- buffer on that memory, and the full buffer is pushed.
unfoldable pub receive_chunk : DataMsg → MsgInfo × List ℕ → Option (Status × DataMsg)
receive_chunk msg (header, body) = do
  mem ← write_at msg.user_msg_data msg.recvd body
  data_msg_push_chunk (record msg { user_msg_data = mem }) header
      (msg_buff_create_on_buff [] (length body) (some body))

-- The chunks of one message. The message is taken out of the table when it is full, so a chunk
-- behind a full message is not its own.
unfoldable pub receive_all : DataMsg → List (MsgInfo × List ℕ) → Option (Status × DataMsg)
receive_all msg [] = some (more, msg)
receive_all msg (chunk ∷ []) = receive_chunk msg chunk
receive_all msg (chunk ∷ chunk' ∷ chunks) = do
  (st, msg') ← receive_chunk msg chunk
  elim st [ full ↦ none | more ↦ receive_all msg' (chunk' ∷ chunks) ]
