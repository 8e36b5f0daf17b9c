-- ===== src/Sequential/Backpressure.antt =====
-- A send that waits for room and a receive that makes it, in src/lib.rs: `Send::poll`, `try_recv`,
-- and the second poll.
use rapidfire.Prelude.{
  ℕ, suc, ◌+◌, ◌<◌, ◌≤◌, ◌≡◌, ◌==◌, refl, none, some, Bool, true, false, List, [], ◌∷◌, ◌++◌,
  length, ok, arith, ap, subst, ◌∙◌, sym, if◌then◌else◌,
}
use rapidfire.Layout.{usize_mod, unbounded}
use rapidfire.Sync.{done}
use rapidfire.Shared.{Inner, set_queue}
use rapidfire.Channel.Waiters.{sending, enqueue, registered, has, cancel, drop_first}
use rapidfire.Channel.Core.{try_recv}
use rapidfire.Channel.Futures.{ready, pending, finished, poll_send}
use rapidfire.Fifo
use rapidfire.Refine.Holds.{Represents, Represents-Contains}
use rapidfire.Refine.Claim.{quiet}
use rapidfire.Parked.Invariant.{IsParked, registered-IsParked, drop_first-IsParked}
use rapidfire.Sequential.Observe.{length-capacity}
use rapidfire.Sequential.Attempt.{woken_one}
use rapidfire.Sequential.Trying.{try_recv_refines}
use rapidfire.Sequential.Sending.{taken, poll_sent, poll_send_refines}

module _ {A W : Type 0} where
  abbrev pub MakesRoom : ℕ → (W → W → Bool) → W → A → A → Inner A W → Type 0
  MakesRoom fuel ww waker msg x s =
      (id : ℕ) × (t t' t'' : Inner A W) × (poll_send ww (suc (suc fuel)) waker
          (record { msg = some msg; waiter_id = none }) (quiet s)
        ≡ done (pending, record { msg = some msg; waiter_id = some id }) (quiet t))
      × (try_recv (suc fuel) (quiet t) ≡ done (ok x) (quiet t'))
      × (t'.woken ≡ waker ∷ s.woken)
      × (poll_send ww (suc (suc fuel)) waker (record { msg = some msg; waiter_id = some id })
            (quiet t')
          ≡ done (ready (ok tt), finished) (quiet t''))

  relieved_alone :
      (s : Inner A W) (fuel : ℕ) (ww : W → W → Bool) (waker : W) (msg x : A) (xs : List A)
      → Represents s.queue (x ∷ xs)
      → IsParked (record s { send_waiters = [] })
      → s.flags.closed ≡ false
      → Fifo.is_full s.queue.capacity (x ∷ xs) ≡ true
      → s.flags.next_waiter_id + 1 < usize_mod
      → s.queue.tail.index + 262 < usize_mod
      → MakesRoom fuel ww waker msg x (record s { send_waiters = [] })
  unfolding registered enqueue drop_first cancel has
  relieved_alone s fuel ww waker msg x xs r h e f n room =
      let s0 = record s { send_waiters = [] } in
      let (q1, p1, r1, c1, t1) = poll_send_refines s0 fuel ww waker none msg r h (omega arith) in
      let k : taken s.flags.closed s.queue.capacity (x ∷ xs) msg ≡ (false, x ∷ xs) =
        rw (e, f) refl in
      let (id, t) = registered ww sending none waker (set_queue (λ _. q1) s0) in
      let h1 =
        registered-IsParked ww (set_queue (λ _. q1) s0) sending none waker h tt n (omega arith) in
      let (q2, p2, r2, c2, t2) = try_recv_refines t fuel (subst (λ y. Represents q1 y.1) k r1) h1 in
      let bounded : (q1.capacity == unbounded) ≡ false = ground (arith, c1) in
      let t' = woken_one sending (set_queue (λ _. q2) t) in
      let h2 = drop_first-IsParked (set_queue (λ _. q2) t) sending h1 in
      let short : suc (length xs) ≤ s.queue.capacity = length-capacity (Represents-Contains r) in
      let room2 : q2.tail.index + 258 < usize_mod = omega (arith, room, t1, t2) in
      let (q3, p3, r3, c3, t3) = poll_send_refines t' fuel ww waker (some id) msg r2 h2 room2 in
      let l : taken s.flags.closed q2.capacity xs msg ≡ (true, xs ++ msg ∷ []) =
        ground (arith, e, c2, c1, short) in
      (
        id,
        t,
        t',
        _,
        p1 ∙ (λ i. poll_sent ww waker msg (e i) (k i).0 (set_queue (λ _. q1) s0)),
        p2
            ∙ ap
                (λ (b : Bool). done (ok x) (
                  quiet (
                    if b
                    then set_queue (λ _. q2) t
                    else woken_one sending (set_queue (λ _. q2) t))))
                bounded,
        refl,
        p3 ∙ (λ i. poll_sent ww waker msg (e i) (l i).0 (set_queue (λ _. q3) t')),
      )

  -- On an open channel that is full, with no other sender parked, a send that is polled is pending; a
  -- receive then takes the oldest value and wakes the sender's waker, and only that; and the next
  -- poll of the send is ready, its message taken in.
  pub send_relieved :
      (s : Inner A W) (fuel : ℕ) (ww : W → W → Bool) (waker : W) (msg x : A) (xs : List A)
      → Represents s.queue (x ∷ xs)
      → IsParked s
      → s.flags.closed ≡ false
      → s.send_waiters ≡ []
      → Fifo.is_full s.queue.capacity (x ∷ xs) ≡ true
      → s.flags.next_waiter_id + 1 < usize_mod
      → s.queue.tail.index + 262 < usize_mod
      → MakesRoom fuel ww waker msg x s
  send_relieved s fuel ww waker msg x xs r h e l f n room =
      subst (λ l. MakesRoom fuel ww waker msg x (record s { send_waiters = l })) (sym l)
        (relieved_alone s fuel ww waker msg x xs r
          (subst (λ l. IsParked (record s { send_waiters = l })) l h) e f n room)
