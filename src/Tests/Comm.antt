-- ===== src/Tests/Comm.antt =====
-- Messages and their headers on small inputs.
use dlfree.Base.{ℕ, ◌+◌, ◌*◌, ◌^◌, ◌≡◌, refl, some, List, [], ◌∷◌, ◌++◌, arith, length}
use dlfree.Base.Int.{pos, negsuc}
use dlfree.Std.Bytes.{little, big, pack_uint64, unpack_uint64, pack_int, unpack_int}
use dlfree.Std.Bytes.RoundTrip.{sign_extended, unpack_int-pack_int, unpack_uint64-pack_uint64}
use dlfree.Comm.Msg.{MsgInfo, msg_info_create, msg_info_pack, msg_info_unpack}
use dlfree.Comm.Msg.Header.{InRange, length-msg_info_pack, msg_info_unpack-pack}
use dlfree.Comm.Data.{
  get_new_sid, send_data, DataMsg, data_msg_create, receive_all, full, chunk_info,
}
use dlfree.Comm.Data.Sid.{get_new_sid_injective, sid_collision, sid_arrives}
use dlfree.Comm.Data.Reassembly.{receive_all-send_data}

unpack_int-pack_int_example :
    unpack_int big (pack_int little [] (negsuc 4) ++ 9 ∷ []) ≡ some (negsuc 4, 9 ∷ [])
unpack_int-pack_int_example = unpack_int-pack_int little big (negsuc 4) (9 ∷ []) (omega arith)

unpack_uint64-pack_uint64_example :
    unpack_uint64 little (pack_uint64 little [] (2 ^ 32 + 7) ++ 9 ∷ [])
    ≡ some (sign_extended (2 ^ 32 + 7), 9 ∷ [])
unpack_uint64-pack_uint64_example =
    unpack_uint64-pack_uint64 little little (2 ^ 32 + 7) (9 ∷ []) (omega arith)

get_new_sid_3 : get_new_sid 3 5 ≡ some (3 * 2 ^ 20 + 5, 4)
unfolding get_new_sid
get_new_sid_3 = refl

get_new_sid_later : get_new_sid 4099 5 ≡ some (4099 * 2 ^ 20 + 5, 4100)
unfolding get_new_sid
get_new_sid_later = refl

get_new_sid_injective_example : (◌≡◌ {A = ℕ} 3 3) × (◌≡◌ {A = ℕ} 5 5)
get_new_sid_injective_example =
    get_new_sid_injective 3 3 5 5 (omega arith) (omega arith) get_new_sid_3 get_new_sid_3

sid_collision_example :
    unpack_uint64 big (pack_uint64 little [] (3 * 2 ^ 20 + 5) ++ [])
    ≡ unpack_uint64 big (pack_uint64 little [] (4099 * 2 ^ 20 + 5) ++ [])
sid_collision_example =
    sid_collision little big 3 5 [] (omega arith) get_new_sid_3 get_new_sid_later

sid_arrives_example :
    unpack_uint64 big (pack_uint64 little [] (3 * 2 ^ 20 + 5) ++ []) ≡ some (3 * 2 ^ 20 + 5, [])
sid_arrives_example = sid_arrives little big 3 5 [] (omega arith) get_new_sid_3

abbrev header : MsgInfo
header = chunk_info (pos 2) (pos 3) (2 ^ 20 + 2) 5 1 2

header-InRange : InRange header
header-InRange = record {
  kind = omega arith;
  dst_id = omega arith;
  src_id = omega arith;
  len = omega arith;
  sid = omega arith;
  tot_len = omega arith;
  seq = omega arith;
}

abbrev written : List ℕ
written = 1 ∷ []

length-msg_info_pack_example : length (msg_info_pack little header written) ≡ length written + 32
length-msg_info_pack_example = length-msg_info_pack little header written

msg_info_unpack-pack_example :
    msg_info_unpack big msg_info_create (msg_info_pack little header [] ++ 7 ∷ [])
    ≡ some (record header { remain = header.len; sid = sign_extended header.sid }, 7 ∷ [])
msg_info_unpack-pack_example =
    msg_info_unpack-pack little big header msg_info_create (7 ∷ []) header-InRange

abbrev message : List ℕ
message = 10 ∷ 11 ∷ 12 ∷ 13 ∷ 14 ∷ []

abbrev memory : List ℕ
memory = 0 ∷ 0 ∷ 0 ∷ 0 ∷ 0 ∷ []

receive_all-send_data_example :
    (chunks : List (MsgInfo × List ℕ)) × (send_data (pos 2) (pos 3) 2 77 5 message ≡ some chunks)
    × (msg : DataMsg) × (receive_all (data_msg_create memory 5 (pos 2) 0) chunks ≡ some (full, msg))
    × (msg.user_msg_data ≡ message)
receive_all-send_data_example =
    receive_all-send_data (pos 2) (pos 3) 2 77 0 message memory (omega arith) (omega arith) refl
