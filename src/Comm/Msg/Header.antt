-- ===== src/Comm/Msg/Header.antt =====
-- A header that one host packs, as another host unpacks it.
use mathlib.Core.List.{append_assoc}
use dlfree.Base.{ℕ, ◌+◌, ◌^◌, ◌<◌, ◌≡◌, some, List, [], ◌++◌, arith, length}
use dlfree.Std.Bytes.{Endian, IsInt32, pack_int, pack_uint64}
use dlfree.Std.Bytes.RoundTrip.{
  pack_int-append, pack_uint64-append, length-pack_int, length-pack_uint64, unpack_int-pack_int,
  unpack_uint64-pack_uint64, sign_extended,
}
use dlfree.Comm.Msg.{MsgInfo, msg_info_pack, msg_info_unpack}

-- Every field holds a number of its C type.
pub record InRange (m : MsgInfo) : Type 0 where
  pub kind : IsInt32 m.kind
  pub dst_id : IsInt32 m.dst_id
  pub src_id : IsInt32 m.src_id
  pub len : IsInt32 m.len
  pub sid : m.sid < 2 ^ 64
  pub tot_len : IsInt32 m.tot_len
  pub seq : IsInt32 m.seq

-- A header is packed into 32 bytes, behind those that are already there.
pub length-msg_info_pack :
    (e : Endian) (m : MsgInfo) (p : List ℕ) → length (msg_info_pack e m p) ≡ length p + 32
unfolding msg_info_pack
length-msg_info_pack e m p = simp (length-pack_int, length-pack_uint64) (omega arith)

-- The fields of a header one behind another, before `rest`.
fields : (e : Endian) (m : MsgInfo) (rest : List ℕ) → List ℕ
fields e m rest =
    pack_int e [] m.kind
    ++ (pack_int e [] m.dst_id
        ++ (pack_int e [] m.src_id
            ++ (pack_int e [] m.len
                ++ (pack_uint64 e [] m.sid
                    ++ (pack_int e [] m.tot_len ++ (pack_int e [] m.seq ++ rest))))))

msg_info_pack-fields :
    (e : Endian) (m : MsgInfo) (rest : List ℕ) → msg_info_pack e m [] ++ rest ≡ fields e m rest
unfolding msg_info_pack fields
msg_info_pack-fields e m rest =
    let p₁ = pack_int e [] m.kind in
    let p₂ = pack_int e p₁ m.dst_id in
    let p₃ = pack_int e p₂ m.src_id in
    let p₄ = pack_int e p₃ m.len in
    let p₅ = pack_uint64 e p₄ m.sid in
    let p₆ = pack_int e p₅ m.tot_len in
    rw
      (
        pack_int-append e p₆ m.seq,
        pack_int-append e p₅ m.tot_len,
        pack_uint64-append e p₄ m.sid,
        pack_int-append e p₃ m.len,
        pack_int-append e p₂ m.src_id,
        pack_int-append e p₁ m.dst_id,
      )
      (simp append_assoc)

-- What is unpacked from a packed header is the header, with `remain` set to the length, and with
-- `sid` cut to its low 32 bits and extended by their sign.
pub msg_info_unpack-pack :
    (e e' : Endian) (m old : MsgInfo) (rest : List ℕ)
    → InRange m
    → msg_info_unpack e' old (msg_info_pack e m [] ++ rest)
      ≡ some (record m { remain = m.len; sid = sign_extended m.sid }, rest)
unfolding msg_info_unpack fields
msg_info_unpack-pack e e' m old rest h = rw (
  msg_info_pack-fields e m rest,
  unpack_int-pack_int e e' m.kind _ h.kind,
  unpack_int-pack_int e e' m.dst_id _ h.dst_id,
  unpack_int-pack_int e e' m.src_id _ h.src_id,
  unpack_int-pack_int e e' m.len _ h.len,
  unpack_uint64-pack_uint64 e e' m.sid _ h.sid,
  unpack_int-pack_int e e' m.tot_len _ h.tot_len,
  unpack_int-pack_int e e' m.seq _ h.seq,
)
