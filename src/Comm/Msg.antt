-- ===== src/Comm/Msg.antt =====
-- src/comm/msg.c and src/comm/impl/msg.h: the header of a message, and buffers of bytes.
pub mod Header
use dlfree.Base.{ℕ, ◌+◌, ◌-◌, ◌^◌, Bool, true, false, Option, none, some, List, [], ◌++◌}
use dlfree.Base.Int.{ℤ, pos, negsuc}
use dlfree.Std.Bytes.{Endian, pack_int, unpack_int, pack_uint64, unpack_uint64, ◌>>=◌}

-- `sid` is the bit pattern of the `uint64_t`.
pub record MsgInfo : Type 0 where
  pub kind : ℤ
  pub dst_id : ℤ
  pub src_id : ℤ
  pub len : ℤ
  pub remain : ℤ
  pub sid : ℕ
  pub tot_len : ℤ
  pub seq : ℤ

abbrev pub msg_info_create : MsgInfo
msg_info_create = record {
  kind = negsuc 0;
  dst_id = negsuc 0;
  src_id = negsuc 0;
  len = negsuc 0;
  remain = pos 0;
  sid = 2 ^ 64 - 1;
  tot_len = negsuc 0;
  seq = negsuc 0;
}

unfoldable pub msg_info_pack : Endian → MsgInfo → List ℕ → List ℕ
msg_info_pack e m p =
    let p₁ = pack_int e p m.kind in
    let p₂ = pack_int e p₁ m.dst_id in
    let p₃ = pack_int e p₂ m.src_id in
    let p₄ = pack_int e p₃ m.len in
    let p₅ = pack_uint64 e p₄ m.sid in let p₆ = pack_int e p₅ m.tot_len in pack_int e p₆ m.seq

-- Every field is overwritten. The bytes behind the header are returned as well.
unfoldable pub msg_info_unpack : Endian → MsgInfo → List ℕ → Option (MsgInfo × List ℕ)
msg_info_unpack e m p = do
  (kind, p₁) ← unpack_int e p
  (dst_id, p₂) ← unpack_int e p₁
  (src_id, p₃) ← unpack_int e p₂
  (len, p₄) ← unpack_int e p₃
  (sid, p₅) ← unpack_uint64 e p₄
  (tot_len, p₆) ← unpack_int e p₅
  (seq, p₇) ← unpack_int e p₆
  some (
    record m {
      kind = kind;
      dst_id = dst_id;
      src_id = src_id;
      len = len;
      sid = sid;
      tot_len = tot_len;
      seq = seq;
      remain = len;
    },
    p₇,
  )

-- `head` and `tail` are offsets into the memory that starts at `data`, which holds `len` bytes.
pub record MsgBuff : Type 0 where
  pub len : ℕ
  pub bytes : List ℕ
  pub head : ℕ
  pub tail : ℕ
  pub using_ext_buff : Bool

-- Memory of the caller, if it is given, or else a fresh chunk, whose bytes are `fresh`.
unfoldable pub msg_buff_create_on_buff : List ℕ → ℕ → Option (List ℕ) → MsgBuff
msg_buff_create_on_buff fresh len none = record {
  len = len;
  bytes = fresh;
  head = 0;
  tail = 0;
  using_ext_buff = false;
}
msg_buff_create_on_buff fresh len (some buff) = record {
  len = len;
  bytes = buff;
  head = 0;
  tail = 0;
  using_ext_buff = true;
}

unfoldable pub msg_buff_create : List ℕ → ℕ → MsgBuff
unfolding msg_buff_create_on_buff
msg_buff_create fresh len = msg_buff_create_on_buff fresh len none

unfoldable pub msg_buff_send_len : MsgBuff → ℕ
msg_buff_send_len b = b.tail - b.head

unfoldable pub msg_buff_recv_len : MsgBuff → ℕ
msg_buff_recv_len b = b.len - b.tail
