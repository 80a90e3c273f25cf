-- ===== src/Comm/Data/Reassembly.antt =====
-- The chunks of a message, received in the order of sending, give back the message.
use dlfree.Base.{
  ℕ, zero, suc, ◌+◌, ◌-◌, ◌<◌, ◌≤◌, ◌≡◌, refl, ap, sym, ◌∙◌, Bool, true, false, some, List, [], ◌∷◌,
  ◌++◌, arith, ltb, ◌==◌, if◌then◌else◌, length, take, drop, length-append, length-take,
  length-drop, take-append-drop, Bool-cases, inl, inr,
}
use mathlib.Core.List.{append_assoc}
use dlfree.Base.Int.{ℤ}
use dlfree.Comm.Msg.{MsgInfo}
use dlfree.Comm.Data.{
  chunk_info, send_loop, send_data, DataMsg, data_msg_create, more, full, receive_chunk,
  receive_all,
}
use dlfree.Comm.Data.Received.{drop-prefix_all, drop_all, Got, receive_next}

module _ (src dst : ℤ) (chunk_size sid : ℕ) (buff : List ℕ) where
  send_stop :
      (fuel seq off : ℕ)
      → send_loop src dst chunk_size sid (length buff) buff fuel seq off 0 ≡ some []
  unfolding send_loop
  send_stop zero seq off = refl
  send_stop (suc fuel) seq off = refl

  abbrev size_of : ℕ → ℕ
  size_of remain = if ltb remain chunk_size then remain else chunk_size

  send_step :
      (fuel seq off remain : ℕ) (rest : List (MsgInfo × List ℕ))
      → 0 < remain
      → send_loop src dst chunk_size sid
          (length buff)
          buff
          fuel
          (seq + 1)
          (off + size_of remain)
          (remain - size_of remain)
        ≡ some rest
      → send_loop src dst chunk_size sid (length buff) buff (suc fuel) seq off remain
        ≡ some (
            (
              chunk_info src dst sid (length buff) seq (size_of remain),
              take (size_of remain) (drop off buff),
            )
            ∷ rest)
  unfolding send_loop
  send_step fuel seq off remain rest pos_remain h =
      let going : (remain == 0) ≡ false = ground arith in rw (going, h)

  -- The state of both sides after one more chunk.
  next_split :
      (size : ℕ) (pre todo : List ℕ)
      → buff ≡ pre ++ todo
      → buff ≡ (pre ++ take size todo) ++ drop size todo
  next_split size pre todo split =
      split
      ∙ ap (λ l. pre ++ l) (sym (take-append-drop size todo))
      ∙ sym (append_assoc pre (take size todo) (drop size todo))

  receive_last :
      (msg msg' : DataMsg) (c : MsgInfo × List ℕ) (b : Bool)
      → receive_chunk msg c ≡ some ((if b then full else more), msg')
      → b ≡ true
      → receive_all msg (c ∷ []) ≡ some (full, msg')
  unfolding receive_all
  receive_last msg msg' c b got e = rw e at got

  receive_more :
      (msg msg₁ msg' : DataMsg) (c c' : MsgInfo × List ℕ) (cs : List (MsgInfo × List ℕ)) (b : Bool)
      → receive_chunk msg c ≡ some ((if b then full else more), msg₁)
      → b ≡ false
      → receive_all msg₁ (c' ∷ cs) ≡ some (full, msg')
      → receive_all msg (c ∷ c' ∷ cs) ≡ some (full, msg')
  unfolding receive_all
  receive_more msg msg₁ msg' c c' cs b got e received = rw (got, e) received

  -- Nothing is left on either side once the last chunk has come.
  rest_same :
      (size : ℕ) (todo junk : List ℕ)
      → length todo ≡ length junk
      → (length (take size todo) == length junk) ≡ true
      → drop (length (take size todo)) junk ≡ drop size todo
  rest_same size todo junk same done =
      let eq_len : length (take size todo) ≡ length junk = ground arith in
      drop_all (length (take size todo)) junk (omega arith)
      ∙ sym (drop_all size todo (omega (arith, length-take size todo)))

  sent_as :
      (size off seq : ℕ) (pre todo : List ℕ)
      → buff ≡ pre ++ todo
      → off ≡ length pre
      → length (take size todo) ≡ size
      → let made : MsgInfo × List ℕ =
          (chunk_info src dst sid (length buff) seq size, take size (drop off buff)) in
        let read : MsgInfo × List ℕ =
          (chunk_info src dst sid (length buff) seq (length (take size todo)), take size todo) in
        made ≡ read
  sent_as size off seq pre todo split place body_size =
      let at_todo : drop off buff ≡ todo = rw (place, split) (drop-prefix_all pre todo) in
      rw (at_todo, body_size)

  -- From any point of the message on: the chunks that are still sent fill it.
  send-receive :
      (fuel seq off remain : ℕ) (pre todo junk : List ℕ) (msg : DataMsg)
      → buff ≡ pre ++ todo
      → off ≡ length pre
      → remain ≡ length junk
      → length todo ≡ length junk
      → 0 < remain
      → remain ≤ fuel
      → 0 < chunk_size
      → Got msg src pre junk seq
      → (c : MsgInfo × List ℕ) × (cs : List (MsgInfo × List ℕ)) × (send_loop src dst chunk_size sid
            (length buff)
            buff
            fuel
            seq
            off
            remain
          ≡ some (c ∷ cs))
        × (msg' : DataMsg) × (receive_all msg (c ∷ cs) ≡ some (full, msg'))
        × (msg'.user_msg_data ≡ buff)
  send-receive zero seq off remain pre todo junk msg split place left same more_left fuel_left chunk
        g =
      absurd (omega arith)
  send-receive (suc fuel) seq off remain pre todo junk msg split place left same more_left fuel_left
        chunk g =
      let size = size_of remain in
      let body = take size todo in
      let size_le : size ≤ remain = ground arith in
      let size_pos : 0 < size = ground arith in
      let body_size : length body ≡ size = omega (arith, length-take size todo) in
      let (msg₁, got, g₁) =
        receive_next msg src dst sid (length buff) seq pre junk body g (omega arith) in
      let pair : MsgInfo × List ℕ =
        (chunk_info src dst sid (length buff) seq (length body), body) in
      let split₁ = next_split size pre todo split in
      let same_pair = sent_as size off seq pre todo split place body_size in
      elim (Bool-cases (length body == length junk)) [
        | inl done ↦
            let last_one : remain - size ≡ 0 = ground arith in
            (
              pair,
              [],
              send_step fuel seq off remain [] more_left
                    (rw last_one (send_stop fuel (seq + 1) (off + size)))
                  ∙ ap (λ (p : MsgInfo × List ℕ). some (p ∷ [])) same_pair,
              msg₁,
              receive_last msg msg₁ pair (length body == length junk) got done,
              g₁.user_msg_data
                  ∙ ap (λ l. (pre ++ body) ++ l) (rest_same size todo junk same done)
                  ∙ sym split₁,
            )
        | inr again ↦
            let left₁ : remain - size ≡ length (drop (length body) junk) =
              omega (arith, length-drop (length body) junk) in
            let going : 0 < remain - size = ground arith in
            let (c, cs, sent, msg', received, bytes) =
              send-receive fuel (seq + 1) (off + size) (remain - size) (pre ++ body)
                (drop size todo) (drop (length body) junk) msg₁ split₁
                (omega (arith, length-append pre body)) left₁ (omega (arith, length-drop size todo))
                going (omega arith) chunk g₁ in
            (
              pair,
              c ∷ cs,
              send_step fuel seq off remain (c ∷ cs) more_left sent
                  ∙ ap (λ (p : MsgInfo × List ℕ). some (p ∷ c ∷ cs)) same_pair,
              msg',
              receive_more msg msg₁ msg' pair c cs (length body == length junk) got again received,
              bytes,
            )
      ]

-- A message that is sent in chunks of a positive size is received whole: the chunks in the order of
-- sending are accepted by the `data_msg` that is created for them, which is full with the last one
-- and not before, and which then holds the bytes that were sent.
pub receive_all-send_data :
    (src dst : ℤ) (chunk_size sid t : ℕ) (buff fresh : List ℕ)
    → 0 < chunk_size
    → 0 < length buff
    → length fresh ≡ length buff
    → (chunks : List (MsgInfo × List ℕ)) × (send_data src dst chunk_size sid (length buff) buff
        ≡ some chunks)
      × (msg : DataMsg) × (receive_all (data_msg_create fresh (length buff) src t) chunks
          ≡ some (full, msg))
      × (msg.user_msg_data ≡ buff)
unfolding send_data data_msg_create
receive_all-send_data src dst chunk_size sid t buff fresh chunk some_bytes same =
    let start : Got (data_msg_create fresh (length buff) src t) src [] fresh 0 = record {
      len = omega arith;
      src_id = refl;
      recvd = refl;
      last = refl;
      user_msg_data = refl;
    } in
    let (c, cs, sent, msg, received, bytes) =
      send-receive src dst chunk_size sid buff (length buff) 0 0 (length buff) [] buff fresh _ refl
        refl (sym same) (sym same) some_bytes (omega arith) chunk start in
    (c ∷ cs, sent, msg, received, bytes)
