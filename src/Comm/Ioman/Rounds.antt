-- ===== src/Comm/Ioman/Rounds.antt =====
-- The life of the I/O manager of src/comm/ioman.c: the calls of its thread, and in between what other
-- threads send, broadcast and connect.
use dlfree.Base.{
  ℕ, ◌≡◌, ◌⊎◌, refl, ap, sym, ◌∙◌, Bool, true, false, Option, some, List, if◌then◌else◌, inl, inr,
  arith, Bool-cases, some_injective,
}
use dlfree.Base.Int.{ℤ}
use dlfree.Std.Bytes.{Endian}
use dlfree.Comm.Channel.Keep.{bind_some}
use dlfree.Comm.Ioman.{
  Ioman, newchan, bcastmsg, finalize, FdSets, current_fds, ioman_set_fds, ioman_send_msg,
  ioman_send_chunk, ioman_notify_finalize, ioman_bcast_msg, ioman_new_connection,
}
use dlfree.Comm.Ioman.Write.{ioman_handle_writables}
use dlfree.Comm.Ioman.Read.{Upcalls, ioman_handle_readables}
use dlfree.Comm.Ioman.Cache.{IsFresh, Keeps-IsFresh, has_event, has_event-append}
use dlfree.Comm.Ioman.Cache.Writing.{ioman_handle_writables-Keeps, ioman_send_msg-Settled}
use dlfree.Comm.Ioman.Cache.Sending.{ioman_send_chunk-Settled}
use dlfree.Comm.Ioman.Sets.{Watches, current_fds-Watches}
use dlfree.Comm.Ioman.Cache.Rounds.{handle_readables-Keeps}

-- The calls that change a manager, each as one step: `ioman_set_fds`, `ioman_handle_readables` and
-- `ioman_handle_writables` of its thread until it is to end, with the sets that `select` gives back,
-- whatever they are, and `ioman_send_msg`, `ioman_send_chunk`, `ioman_bcast_msg`,
-- `ioman_new_connection` and `ioman_notify_finalize` of other threads. Where `ioman_send_chunk` has
-- to wait, nothing changes before there is room.
pub data Step {N : Type 0} (up : Upcalls N) (e : Endian) (fresh : List ℕ) (man : Ioman N)
    : Ioman N → Type 0 where
  set_fds :
      {man' : Ioman N} (s : FdSets) → ioman_set_fds man ≡ some (s, man') → Step up e fresh man man'
  readables :
      {man' : Ioman N} (r_fds : ℕ → Bool) (accepted : ℕ)
      → ioman_handle_readables up e fresh r_fds accepted man ≡ some (false, man')
      → Step up e fresh man man'
  writables :
      {man' : Ioman N} (w_fds : ℕ → Bool)
      → ioman_handle_writables e man w_fds ≡ some man'
      → Step up e fresh man man'
  sends :
      {man' : Ioman N} (kind : ℤ) (dst_id : ℕ) (buff : List ℕ) (len : ℕ)
      → ioman_send_msg e man kind dst_id buff len ≡ some man'
      → Step up e fresh man man'
  broadcasts :
      (kind : ℤ) (buff : List ℕ) (len : ℕ) → Step up e fresh man (ioman_bcast_msg man kind buff len)
  sends_chunk :
      {man' : Ioman N} (dst_id sid tot_len seq : ℕ) (buff : List ℕ) (len : ℕ)
      → ioman_send_chunk e man dst_id sid tot_len seq buff len ≡ some (some man')
      → Step up e fresh man man'
  stops : Step up e fresh man (ioman_notify_finalize man)
  connects : (fd : ℕ) (memory : List ℕ) → Step up e fresh man (ioman_new_connection man fd memory)

-- From `man` on.
pub data Run {N : Type 0} (up : Upcalls N) (e : Endian) (fresh : List ℕ) (man : Ioman N)
    : Ioman N → Type 0 where
  no_calls : Run up e fresh man man
  one_more :
      {man' man'' : Ioman N}
      → Run up e fresh man man'
      → Step up e fresh man' man''
      → Run up e fresh man man''

set_fds-cached :
    {N : Type 0} (v : Bool) (c : FdSets) (man : Ioman N) (made : Option (FdSets × Ioman N))
    → v ≡ true
    → ◌≡◌ {A = Option (FdSets × Ioman N)} (if v then some (c, man) else made) (some (c, man))
set_fds-cached v c man made e = rw e refl

-- The sets that are given out are those of the channels, or an event waits.
set_fds-IsFresh :
    {N : Type 0} (man man' : Ioman N) (s : FdSets)
    → ioman_set_fds man ≡ some (s, man')
    → IsFresh man
    → IsFresh man' × ((has_event man.events ≡ true) ⊎ (current_fds man ≡ some s))
unfolding ioman_set_fds current_fds
set_fds-IsFresh {N} man man' s run f = elim (Bool-cases man.fdset_valid) [
  | inl valid ↦
      by_cache valid
        (some_injective (sym (set_fds-cached man.fdset_valid man.cache man _ valid) ∙ run)) f
  | inr invalid ↦
      let (s', made, run₁) = bind_some (current_fds man) _ _ (rw (ioman_set_fds, invalid) at run) in
      let e = some_injective run₁ in
      let same : s' ≡ s = ap (λ p. p.0) e in
      (rw (← ap (λ p. p.1) e) (inr made), inr (rw (← same) made))
]
  where
    by_cache :
        man.fdset_valid ≡ true
        → ◌≡◌ {A = FdSets × Ioman N} (man.cache, man) (s, man')
        → IsFresh man
        → IsFresh man' × ((has_event man.events ≡ true) ⊎ (current_fds man ≡ some s))
    by_cache valid e f = (
      rw (← ap (λ p. p.1) e) f,
      elim f [
        | inl (inl invalid) ↦
            absurd (let h : true ≡ false = sym valid ∙ invalid in ground (arith, h))
        | inl (inr event) ↦ inl event
        | inr made ↦ inr (rw (← ap (λ p. p.0) e) made)
      ],
    )

Step-IsFresh :
    {N : Type 0} (up : Upcalls N) (e : Endian) (fresh : List ℕ) (man man' : Ioman N)
    → Step up e fresh man man'
    → IsFresh man
    → IsFresh man'
unfolding ioman_bcast_msg ioman_new_connection ioman_notify_finalize
Step-IsFresh up e fresh man man' (set_fds s run) f = (set_fds-IsFresh man man' s run f).0
Step-IsFresh up e fresh man man' (readables r_fds accepted run) f =
    Keeps-IsFresh man man' (handle_readables-Keeps up e fresh r_fds accepted man man' run) f
Step-IsFresh up e fresh man man' (writables w_fds run) f =
    Keeps-IsFresh man man' (ioman_handle_writables-Keeps e man man' w_fds run) f
Step-IsFresh up e fresh man man' (sends kind dst_id buff len run) f =
    inl (ioman_send_msg-Settled e man man' kind dst_id buff len run)
Step-IsFresh up e fresh man man' (broadcasts kind buff len) f =
    inl (inr (has_event-append man.events (bcastmsg kind buff len)))
Step-IsFresh up e fresh man man' (sends_chunk dst_id sid tot_len seq buff len run) f =
    inl (ioman_send_chunk-Settled e man man' dst_id sid tot_len seq buff len run)
Step-IsFresh up e fresh man man' stops f = inl (inr (has_event-append man.events finalize))
Step-IsFresh up e fresh man man' (connects fd memory) f =
    inl (inr (has_event-append man.events (newchan fd)))

Run-IsFresh :
    {N : Type 0} (up : Upcalls N) (e : Endian) (fresh : List ℕ) (man man' : Ioman N)
    → Run up e fresh man man'
    → IsFresh man
    → IsFresh man'
Run-IsFresh up e fresh man man' no_calls f = f
Run-IsFresh up e fresh man man'' (one_more {man'} r st) f =
    Step-IsFresh up e fresh man' man'' st (Run-IsFresh up e fresh man man' r f)

-- From a manager whose sets are not valid, or are those of its channels, any calls of the I/O thread
-- before it is to end, and calls of other threads that send, broadcast, connect or ask it to end,
-- lead to one where this holds as well or where an event is in the pipe. The sets that it waits with
-- then hold just the pipe, the listening socket, and the channels that may be read from or have
-- something to send, none of them above the largest descriptor: no channel is forgotten, and none
-- that is blocked is read from, except where an event ends the wait.
pub Run-Watches :
    {N : Type 0} (up : Upcalls N) (e : Endian) (fresh : List ℕ) (man man' man'' : Ioman N)
    (s : FdSets)
    → IsFresh man
    → Run up e fresh man man'
    → ioman_set_fds man' ≡ some (s, man'')
    → IsFresh man'' × ((has_event man'.events ≡ true) ⊎ Watches man' s)
Run-Watches up e fresh man man' man'' s f r run =
    let (f', known) = set_fds-IsFresh man' man'' s run (Run-IsFresh up e fresh man man' r f) in
    (f', elim known [ inl event ↦ inl event | inr made ↦ inr (current_fds-Watches man' s made) ])
