-- ===== src/Comm/Ioman/Sets.antt =====
-- Which descriptors the sets of src/comm/ioman.c hold.
use dlfree.Base.{
  has, ℕ, ◌≤◌, ◌≡◌, refl, ap, sym, ◌∙◌, Bool, true, false, ◌||◌, ◌&&◌, Option, none, some, List, [],
  ◌∷◌, ◌==◌, if◌then◌else◌, inl, inr, arith, Bool-cases, some_injective,
}
use dlfree.Comm.Channel.{Channel, Channels, channel_is_readable, channel_is_writable}
use dlfree.Comm.Channel.Keep.{bind_some}
use dlfree.Comm.Ioman.{
  Ioman, FdSets, set_readable, set_writable, set_channel, set_channels, own_fds, current_fds,
}

abbrev pub readable_at : Option Channel → Bool
readable_at none = false
readable_at (some chan) = channel_is_readable chan

abbrev pub writable_at : Option Channel → Bool
writable_at none = false
writable_at (some chan) = channel_is_writable chan

-- Every descriptor of the sets is looked at.
pub record InBounds (s : FdSets) : Type 0 where
  pub reads : (fd : ℕ) → s.r_fds fd ≡ true → fd ≤ s.maxfd
  pub writes : (fd : ℕ) → s.w_fds fd ≡ true → fd ≤ s.maxfd

readable-InBounds : (fd : ℕ) (s : FdSets) → InBounds s → InBounds (set_readable fd s)
readable-InBounds fd s b = record {
  reads = λ i h. elim (Bool-cases (i == fd)) [
    | inl same ↦ ground (arith, same)
    | inr there ↦ let le = b.reads i (rw there at h) in ground (arith, le)
  ];
  writes = λ i h. let le = b.writes i h in ground (arith, le);
}

writable-InBounds : (fd : ℕ) (s : FdSets) → InBounds s → InBounds (set_writable fd s)
writable-InBounds fd s b = record {
  reads = λ i h. let le = b.reads i h in ground (arith, le);
  writes = λ i h. elim (Bool-cases (i == fd)) [
    | inl same ↦ ground (arith, same)
    | inr there ↦ let le = b.writes i (rw there at h) in ground (arith, le)
  ];
}

added-or : (t b : Bool) → (if t then true else b) ≡ (b || (t && true))
added-or true true = refl
added-or true false = refl
added-or false true = refl
added-or false false = refl

not_added-or : (t b : Bool) → b ≡ (b || (t && false))
not_added-or true true = refl
not_added-or true false = refl
not_added-or false true = refl
not_added-or false false = refl

or_assoc : (a b c : Bool) → ((a || b) || c) ≡ (a || (b || c))
or_assoc true b c = refl
or_assoc false b c = refl

-- One channel of the loop.
abbrev put_flags : (fd : ℕ) (r w : Bool) → FdSets → FdSets
put_flags fd r w s =
    let s₁ = if r then set_readable fd s else s in if w then set_writable fd s₁ else s₁

put_flags-r_fds :
    (fd i : ℕ) (r w : Bool) (s : FdSets)
    → (put_flags fd r w s).r_fds i ≡ (s.r_fds i || ((i == fd) && r))
put_flags-r_fds fd i true true s = added-or (i == fd) (s.r_fds i)
put_flags-r_fds fd i true false s = added-or (i == fd) (s.r_fds i)
put_flags-r_fds fd i false true s = not_added-or (i == fd) (s.r_fds i)
put_flags-r_fds fd i false false s = not_added-or (i == fd) (s.r_fds i)

put_flags-w_fds :
    (fd i : ℕ) (r w : Bool) (s : FdSets)
    → (put_flags fd r w s).w_fds i ≡ (s.w_fds i || ((i == fd) && w))
put_flags-w_fds fd i true true s = added-or (i == fd) (s.w_fds i)
put_flags-w_fds fd i false true s = added-or (i == fd) (s.w_fds i)
put_flags-w_fds fd i true false s = not_added-or (i == fd) (s.w_fds i)
put_flags-w_fds fd i false false s = not_added-or (i == fd) (s.w_fds i)

put_flags-InBounds : (fd : ℕ) (r w : Bool) (s : FdSets) → InBounds s → InBounds (put_flags fd r w s)
put_flags-InBounds fd true true s b = writable-InBounds fd _ (readable-InBounds fd s b)
put_flags-InBounds fd true false s b = readable-InBounds fd s b
put_flags-InBounds fd false true s b = writable-InBounds fd s b
put_flags-InBounds fd false false s b = b

-- What the loop over the channels adds to the sets.
pub record Added (chans : Channels) (fds : List ℕ) (s s' : FdSets) : Type 0 where
  pub reads : (i : ℕ) → s'.r_fds i ≡ (s.r_fds i || (has i fds && readable_at (chans i)))
  pub writes : (i : ℕ) → s'.w_fds i ≡ (s.w_fds i || (has i fds && writable_at (chans i)))
  pub in_bounds : InBounds s → InBounds s'

or_false : (b : Bool) → b ≡ (b || false)
or_false true = refl
or_false false = refl

-- A descriptor that stands at the front or behind it.
front-or :
    (chans : Channels) (at_chan : Option Channel → Bool) (fd i : ℕ) (fds : List ℕ) (b : Bool)
    → ((b || ((i == fd) && at_chan (chans fd))) || (has i fds && at_chan (chans i)))
      ≡ (b || (has i (fd ∷ fds) && at_chan (chans i)))
front-or chans at_chan fd i fds b = elim (Bool-cases (i == fd)) [
  | inr other ↦ rw other (by_bits b)
  | inl same ↦
      let e : i ≡ fd = ground (arith, same) in
      rw (same, e) (by_both b (at_chan (chans fd)) (has fd fds))
]
  where
    by_bits :
        (b : Bool)
        → ((b || false) || (has i fds && at_chan (chans i)))
          ≡ (b || (has i fds && at_chan (chans i)))
    by_bits true = refl
    by_bits false = refl

    by_both : (b a h : Bool) → ((b || a) || (h && a)) ≡ (b || a)
    by_both true a h = refl
    by_both false true h = refl
    by_both false false true = refl
    by_both false false false = refl

set_channels-Added :
    (chans : Channels) (fds : List ℕ) (s s' : FdSets)
    → set_channels chans fds s ≡ some s'
    → Added chans fds s s'
unfolding set_channels
set_channels-Added chans [] s s' run = rw (← some_injective run) (record {
  reads = λ i. or_false (s.r_fds i);
  writes = λ i. or_false (s.w_fds i);
  in_bounds = λ b. b;
})
set_channels-Added chans (fd ∷ fds) s s' run =
    let (chan, at, run₁) = bind_some (chans fd) _ _ run in
    let r = channel_is_readable chan in
    let w = channel_is_writable chan in
    let later = set_channels-Added chans fds (set_channel fd chan s) s' run₁ in
    record {
      reads = λ i.
          later.reads i
          ∙ (ap (λ (b : Bool). b || (has i fds && readable_at (chans i)))
                (put_flags-r_fds fd i r w s
                  ∙ ap (λ (c : Option Channel). s.r_fds i || ((i == fd) && readable_at c)) (sym at))
              ∙ front-or chans readable_at fd i fds (s.r_fds i));
      writes = λ i.
          later.writes i
          ∙ (ap (λ (b : Bool). b || (has i fds && writable_at (chans i)))
                (put_flags-w_fds fd i r w s
                  ∙ ap (λ (c : Option Channel). s.w_fds i || ((i == fd) && writable_at c)) (sym at))
              ∙ front-or chans writable_at fd i fds (s.w_fds i));
      in_bounds = λ b. later.in_bounds (put_flags-InBounds fd r w s b);
    }

-- The sets for `select`, of a manager: the pipe, the listening socket, the local channel where it
-- may be read from, and the channels by their states.
pub record Watches {N : Type 0} (man : Ioman N) (s : FdSets) : Type 0 where
  pub reads :
      (fd : ℕ)
      → s.r_fds fd ≡ (
          (((fd == man.notify_fd) || (fd == man.lsock_fd))
            || ((fd == man.local_chan) && readable_at (man.chans man.local_chan)))
          || (has fd man.channels && readable_at (man.chans fd)))
  pub writes : (fd : ℕ) → s.w_fds fd ≡ (has fd man.channels && writable_at (man.chans fd))
  pub in_bounds : InBounds s

own-reads : (fd n l : ℕ) → (own_fds n l).r_fds fd ≡ ((fd == n) || (fd == l))
own-reads fd n l = by_bits (fd == n) (fd == l)
  where
    by_bits : (a b : Bool) → (if b then true else (if a then true else false)) ≡ (a || b)
    by_bits true true = refl
    by_bits true false = refl
    by_bits false true = refl
    by_bits false false = refl

own-InBounds : (n l : ℕ) → InBounds (own_fds n l)
own-InBounds n l = readable-InBounds l _ (record {
  reads = λ i h. elim (Bool-cases (i == n)) [
    | inl same ↦ ground (arith, same)
    | inr other ↦ absurd (let h' : false ≡ true = rw other at h in ground (arith, h'))
  ];
  writes = λ i h. absurd (ground (arith, h));
})

pub current_fds-Watches :
    {N : Type 0} (man : Ioman N) (s : FdSets) → current_fds man ≡ some s → Watches man s
unfolding current_fds
current_fds-Watches man s run =
    let (chan, at, run₁) = bind_some (man.chans man.local_chan) _ _ run in
    let own = own_fds man.notify_fd man.lsock_fd in
    let r = channel_is_readable chan in
    let a =
      set_channels-Added man.chans man.channels (put_flags man.local_chan r false own) s run₁ in
    record {
      reads = λ fd.
          a.reads fd
          ∙ ap (λ (b : Bool). b || (has fd man.channels && readable_at (man.chans fd)))
              (put_flags-r_fds man.local_chan fd r false own
                ∙ (ap (λ (b : Bool). b || ((fd == man.local_chan) && r))
                      (own-reads fd man.notify_fd man.lsock_fd)
                    ∙ ap
                        (λ (c : Option Channel).
                          ((fd == man.notify_fd) || (fd == man.lsock_fd))
                          || ((fd == man.local_chan) && readable_at c))
                        (sym at)));
      writes = λ fd.
          a.writes fd
          ∙ ap (λ (b : Bool). b || (has fd man.channels && writable_at (man.chans fd)))
              (put_flags-w_fds man.local_chan fd r false own
                ∙ sym (or_and_false (fd == man.local_chan)));
      in_bounds =
          a.in_bounds (
            put_flags-InBounds man.local_chan r false own
              (own-InBounds man.notify_fd man.lsock_fd));
    }
  where
    or_and_false : (t : Bool) → false ≡ (false || (t && false))
    or_and_false true = refl
    or_and_false false = refl
