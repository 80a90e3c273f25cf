-- ===== src/Comm/Data/Received.antt =====
-- A message of which the first chunks have come, and the next chunk.
use dlfree.Base.{
  ℕ, zero, suc, ◌+◌, ◌≤◌, ◌≡◌, refl, ap, sym, Bool, true, ◌||◌, some, List, [], ◌∷◌, ◌++◌, arith,
  leb, ◌==◌, if◌then◌else◌, length, take, drop, length-append, length-drop,
}
use mathlib.Core.List.{append_assoc}
use dlfree.Base.Int.{ℤ, pos, negsuc, ◌-ℤ◌}
use dlfree.Comm.Msg.{msg_buff_create_on_buff}
use dlfree.Comm.Data.{
  chunk_info, DataMsg, more, full, data_msg_push_chunk, write_at, receive_chunk, eqb_ℤ,
}

module _ {A : Type 0} where
  take-prefix : (pre xs : List A) → take (length pre) (pre ++ xs) ≡ pre
  take-prefix [] xs = refl
  take-prefix (x ∷ pre) xs = ap (λ (l : List A). x ∷ l) (take-prefix pre xs)

  drop-prefix : (pre xs : List A) (n : ℕ) → drop (length pre + n) (pre ++ xs) ≡ drop n xs
  drop-prefix [] xs n = ap (λ (k : ℕ). drop k xs) (omega arith)
  drop-prefix (x ∷ pre) xs n =
      let e : suc (length pre) + n ≡ suc (length pre + n) = omega arith in
      rw e (drop-prefix pre xs n)

  pub drop-prefix_all : (pre xs : List A) → drop (length pre) (pre ++ xs) ≡ xs
  drop-prefix_all [] xs = refl
  drop-prefix_all (x ∷ pre) xs = drop-prefix_all pre xs

  pub drop_all : (n : ℕ) (xs : List A) → length xs ≤ n → drop n xs ≡ []
  drop_all zero [] h = refl
  drop_all zero (x ∷ xs) h = absurd (omega arith)
  drop_all (suc n) [] h = refl
  drop_all (suc n) (x ∷ xs) h = drop_all n xs (omega arith)

-- A write behind `pre`.
write_at-prefix :
    (pre junk bytes : List ℕ)
    → length bytes ≤ length junk
    → write_at (pre ++ junk) (length pre) bytes ≡ some (pre ++ (bytes ++ drop (length bytes) junk))
unfolding write_at
write_at-prefix pre junk bytes h =
    rw (take-prefix pre junk, drop-prefix pre junk (length bytes))
      (ground (arith, length-append pre junk))

-- The number of the chunk before chunk `n`.
abbrev prev_seq : ℕ → ℤ
prev_seq zero = negsuc 0
prev_seq (suc k) = pos k

-- The message with `pre` received, in chunks numbered below `seq`.
pub record Got (msg : DataMsg) (src : ℤ) (pre junk : List ℕ) (seq : ℕ) : Type 0 where
  pub len : msg.len ≡ length pre + length junk
  pub src_id : msg.src_id ≡ src
  pub recvd : msg.recvd ≡ length pre
  pub last : msg.seq ≡ prev_seq seq
  pub user_msg_data : msg.user_msg_data ≡ pre ++ junk

eqb_ℤ_refl : (a : ℤ) → eqb_ℤ a a ≡ true
eqb_ℤ_refl (pos n) = ground arith
eqb_ℤ_refl (negsuc n) = ground arith

next_seq : (seq : ℕ) → eqb_ℤ (pos seq -ℤ prev_seq seq) (pos 1) ≡ true
unfolding ◌-ℤ◌
next_seq zero = refl
next_seq (suc k) = ground arith

or_true : (b c : Bool) → c ≡ true → (b || c) ≡ true
or_true b c h = ground arith

push_next :
    (msg : DataMsg) (dst : ℤ) (sid n seq : ℕ) (body chunk : List ℕ)
    → msg.seq ≡ prev_seq seq
    → msg.recvd + length body ≤ msg.len
    → data_msg_push_chunk msg
        (chunk_info msg.src_id dst sid n seq (length body))
        (msg_buff_create_on_buff [] (length body) (some chunk))
      ≡ some (
        (if msg.recvd + length body == msg.len then full else more),
        record msg {
          seq = pos seq;
          chunk_list = msg.chunk_list ++ msg_buff_create_on_buff [] (length body) (some chunk) ∷ [];
          recvd = msg.recvd + length body;
        },
      )
unfolding data_msg_push_chunk msg_buff_create_on_buff
push_next msg dst sid n seq body chunk h fits =
    let in_bounds : leb (msg.recvd + length body) msg.len ≡ true = ground arith in
    rw (
      eqb_ℤ_refl msg.src_id,
      h,
      or_true (eqb_ℤ (pos seq -ℤ prev_seq seq) (pos 0)) _ (next_seq seq),
      in_bounds,
    )

-- A chunk that fits is accepted; the message is full exactly when nothing is left to fill.
pub receive_next :
    (msg : DataMsg) (src dst : ℤ) (sid n seq : ℕ) (pre junk body : List ℕ)
    → Got msg src pre junk seq
    → length body ≤ length junk
    → (msg' : DataMsg) × (receive_chunk msg (chunk_info src dst sid n seq (length body), body)
        ≡ some ((if length body == length junk then full else more), msg'))
      × Got msg' src (pre ++ body) (drop (length body) junk) (seq + 1)
unfolding receive_chunk
receive_next msg src dst sid n seq pre junk body g fits =
    let mem = pre ++ (body ++ drop (length body) junk) in
    let msg₁ = record msg { user_msg_data = mem } in
    let written : write_at msg.user_msg_data msg.recvd body ≡ some mem =
      rw (g.user_msg_data, g.recvd, write_at-prefix pre junk body fits) in
    let same_end : (msg.recvd + length body == msg.len) ≡ (length body == length junk) =
      ground (arith, g.recvd, g.len) in
    let in_bounds : msg.recvd + length body ≤ msg.len = omega (arith, g.recvd, g.len) in
    (
      record msg₁ {
        seq = pos seq;
        chunk_list = msg.chunk_list ++ msg_buff_create_on_buff [] (length body) (some body) ∷ [];
        recvd = msg.recvd + length body;
      },
      rw (written, ← g.src_id, push_next msg₁ dst sid n seq body body g.last in_bounds, same_end),
      record {
        len = omega (arith, g.len, length-append pre body, length-drop (length body) junk);
        src_id = g.src_id;
        recvd = omega (arith, g.recvd, length-append pre body);
        last = (let next : seq + 1 ≡ suc seq = omega arith in rw next);
        user_msg_data = sym (append_assoc pre body (drop (length body) junk));
      },
    )
