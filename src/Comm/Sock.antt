-- ===== src/Comm/Sock.antt =====
-- The transfers of src/comm/sock.c. What the kernel does is an argument: the outcomes of `recv` and
-- of `send`, in the order of the calls. Where none is left, nothing has come or nothing can go.
use dlfree.Base.{ℕ, zero, suc, ◌+◌, List, [], ◌∷◌, min, take, drop}

-- What `recv` meets: bytes in a row, of which a call takes as many as it asks for, nothing for now,
-- the end, or an error.
pub data Arrival : Type 0 where
  bytes : List ℕ → Arrival
  recv_again recv_end recv_error : Arrival

-- `enum` of src/comm/impl/sock.h, with what was received.
pub data RecvStatus : Type 0 where
  recv_ok : List ℕ → RecvStatus
  recv_eagain recv_eof recv_err : RecvStatus

-- A `recv` of no bytes returns 0, which stands for the end.
unfoldable pub sock_try_recv_n : (n : ℕ) → List Arrival → RecvStatus × List Arrival
sock_try_recv_n n [] = (recv_eagain, [])
sock_try_recv_n n (recv_again ∷ rx) = (recv_eagain, rx)
sock_try_recv_n n (recv_end ∷ rx) = (recv_eof, recv_end ∷ rx)
sock_try_recv_n n (recv_error ∷ rx) = (recv_err, rx)
sock_try_recv_n n (bytes [] ∷ rx) = (recv_eof, rx)
sock_try_recv_n zero (bytes (b ∷ bs) ∷ rx) = (recv_eof, bytes (b ∷ bs) ∷ rx)
sock_try_recv_n (suc n) (bytes (b ∷ bs) ∷ rx) =
    (recv_ok (b ∷ take n bs), elim (drop n bs) [ [] ↦ rx | x ∷ left ↦ bytes (x ∷ left) ∷ rx ])

-- What `send` does: `room k` takes at most `k + 1` bytes.
pub data Departure : Type 0 where
  room : ℕ → Departure
  send_again send_error : Departure

pub data SendStatus : Type 0 where
  send_ok : ℕ → SendStatus
  send_eagain send_err : SendStatus

-- The number of bytes that are taken, of the `n` that are given.
unfoldable pub sock_try_send_n : (n : ℕ) → List Departure → SendStatus × List Departure
sock_try_send_n n [] = (send_eagain, [])
sock_try_send_n n (send_again ∷ tx) = (send_eagain, tx)
sock_try_send_n n (send_error ∷ tx) = (send_err, tx)
sock_try_send_n n (room k ∷ tx) = (send_ok (min (k + 1) n), tx)
