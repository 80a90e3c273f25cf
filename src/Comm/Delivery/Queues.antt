-- ===== src/Comm/Delivery/Queues.antt =====
-- How many messages wait in the queues.
use dlfree.Base.{
  ℕ, zero, suc, ◌+◌, ◌<◌, ◌≤◌, ◌≡◌, refl, ap, Bool, true, false, Option, some, List, [], ◌∷◌, ◌++◌,
  ◌==◌, if◌then◌else◌, length, inl, inr, arith, Bool-cases,
}
use dlfree.Base.Int.{pos}
use dlfree.Comm.Data.{DataMsg}
use dlfree.Comm.Routes.{max_peer}
use dlfree.Comm.Delivery.{Queues, Delivery, put_queue, queue_in, queue_at}

-- The number of messages of `n` sources, from `src` on.
unfoldable pub total : Queues → (n src : ℕ) → ℕ
total queues zero src = 0
total queues (suc n) src = length (queue_at queues src) + total queues n (src + 1)

-- Every message of a queue is of its source.
pub data AllOf (src : ℕ) : List DataMsg → Type 0 where
  none_of : AllOf src []
  one_of :
      {m : DataMsg} {ms : List DataMsg} → m.src_id ≡ pos src → AllOf src ms → AllOf src (m ∷ ms)

pub AllOf-append :
    (src : ℕ) (ms : List DataMsg) (m : DataMsg)
    → AllOf src ms
    → m.src_id ≡ pos src
    → AllOf src (ms ++ m ∷ [])
AllOf-append src [] m a e = one_of e none_of
AllOf-append src (x ∷ ms) m (one_of e' a) e = one_of e' (AllOf-append src ms m a e)

-- The counter is the number of messages that wait.
pub record IsDelivery (node : Delivery) : Type 0 where
  pub counted : node.unacked ≡ total node.queues max_peer 0
  pub of_source : (src : ℕ) → AllOf src (queue_at node.queues src)

pub queue_at-put :
    (queues : Queues) (src : ℕ) (queue : List DataMsg) (i : ℕ)
    → queue_at (put_queue queues src queue) i ≡ (if i == src then queue else queue_at queues i)
queue_at-put queues src queue i = by_bit (i == src) (queues i)
  where
    by_bit :
        (t : Bool) (q : Option (List DataMsg))
        → queue_in (if t then some queue else q) ≡ (if t then queue else queue_in q)
    by_bit true q = refl
    by_bit false q = refl

total-put-before :
    (queues : Queues) (s : ℕ) (queue : List DataMsg) (n src : ℕ)
    → s < src
    → total (put_queue queues s queue) n src ≡ total queues n src
unfolding total
total-put-before queues s queue zero src lt = refl
total-put-before queues s queue (suc n) src lt =
    let e : (src == s) ≡ false = ground (arith, lt) in
    let rest = total-put-before queues s queue n (src + 1) (omega (arith, lt)) in
    rw (queue_at-put queues s queue src, e, rest) refl

-- Where a queue is replaced, its length is.
pub total-put :
    (queues : Queues) (s : ℕ) (queue : List DataMsg) (n src : ℕ)
    → src ≤ s
    → s < src + n
    → total (put_queue queues s queue) n src + length (queue_at queues s)
      ≡ total queues n src + length queue
unfolding total
total-put queues s queue zero src le lt = absurd (omega (arith, le, lt))
total-put queues s queue (suc n) src le lt = elim (Bool-cases (src == s)) [
  | inl here ↦
      let e : s ≡ src = ground (arith, here) in
      let rest = total-put-before queues s queue n (src + 1) (omega (arith, e)) in
      let same : length (queue_at queues s) ≡ length (queue_at queues src) =
        ap (λ i. length (queue_at queues i)) e in
      rw (queue_at-put queues s queue src, here, rest) (omega (arith, same))
  | inr there ↦
      let rest =
        total-put queues s queue n (src + 1) (ground (arith, there, le)) (omega (arith, lt)) in
      rw (queue_at-put queues s queue src, there) (omega (arith, rest))
]

pub put-AllOf :
    (queues : Queues) (s : ℕ) (queue : List DataMsg)
    → AllOf s queue
    → ((src : ℕ) → AllOf src (queue_at queues src))
    → (src : ℕ) → AllOf src (queue_at (put_queue queues s queue) src)
put-AllOf queues s queue a all src =
    rw (queue_at-put queues s queue src) (elim (Bool-cases (src == s)) [
      | inl here ↦ let e : src ≡ s = ground (arith, here) in rw (here, e) a
      | inr there ↦ rw there (all src)
    ])
