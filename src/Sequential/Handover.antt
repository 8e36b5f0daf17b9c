-- ===== src/Sequential/Handover.antt =====
-- A receive that waits and a send that serves it, in src/lib.rs: `Recv::poll`, `try_send`, and the
-- second poll.
use rapidfire.Prelude.{
  ℕ, suc, ◌+◌, ◌<◌, ◌≡◌, refl, none, some, Bool, true, false, List, [], ◌∷◌, ok, arith, ap, subst,
  ◌∙◌, sym, inl, inr,
}
use rapidfire.Layout.{usize_mod}
use rapidfire.Sync.{done}
use rapidfire.Shared.{Inner, set_queue}
use rapidfire.Channel.Waiters.{receiving, enqueue, registered, has, cancel, drop_first}
use rapidfire.Channel.Core.{try_send}
use rapidfire.Channel.Futures.{ready, pending, poll_recv}
use rapidfire.Fifo
use rapidfire.Refine.Holds.{Represents}
use rapidfire.Refine.Claim.{quiet}
use rapidfire.Parked.Invariant.{IsParked, registered-IsParked, drop_first-IsParked}
use rapidfire.Sequential.Trying.{sent, try_send_refines}
use rapidfire.Sequential.Attempt.{woken_one}
use rapidfire.Sequential.Waiting.{polled_empty, poll_recv_refines}

module _ {A W : Type 0} where
  abbrev pub IsHandedOver : ℕ → (W → W → Bool) → W → A → Inner A W → Type 0
  IsHandedOver fuel ww waker msg s =
      (id : ℕ) × (t t' t'' : Inner A W) × (poll_recv ww (suc fuel) waker none (quiet s)
        ≡ done (pending, some id) (quiet t))
      × (try_send (suc (suc fuel)) msg (quiet t) ≡ done (ok tt) (quiet t'))
      × (t'.woken ≡ waker ∷ s.woken)
      × (poll_recv ww (suc fuel) waker (some id) (quiet t')
          ≡ done (ready (ok msg), none) (quiet t''))

  served_alone :
      (s : Inner A W) (fuel : ℕ) (ww : W → W → Bool) (waker : W) (msg : A)
      → Represents s.queue []
      → IsParked (record s { recv_waiters = [] })
      → s.flags.closed ≡ false
      → Fifo.is_full {A = A} s.queue.capacity [] ≡ false
      → s.flags.next_waiter_id + 1 < usize_mod
      → s.queue.tail.index + 256 < usize_mod
      → IsHandedOver fuel ww waker msg (record s { recv_waiters = [] })
  unfolding registered enqueue drop_first cancel has
  served_alone s fuel ww waker msg r h e f n room =
      let s0 = record s { recv_waiters = [] } in
      let (q1, p1, r1, c1, t1) = poll_recv_refines s0 fuel ww waker none r h in
      let (id, t) = registered ww receiving none waker (set_queue (λ _. q1) s0) in
      let h1 =
        registered-IsParked ww (set_queue (λ _. q1) s0) receiving none waker h tt n (omega arith) in
      let f1 = subst (λ c. Fifo.is_full {A = A} c [] ≡ false) (sym c1) f in
      let k : Fifo.push q1.capacity [] msg ≡ (true, msg ∷ []) = rw f1 refl in
      let room1 : q1.tail.index + 256 < usize_mod = omega arith in
      elim (try_send_refines t fuel msg r1 h1 room1) [
        | inl (e', p) ↦ absurd (ground arith)
        | inr (e', q2, p2, r2, c2, t2) ↦
            let p2' = p2 ∙ ap (λ (y : Bool × List A). sent msg y.0 (set_queue (λ _. q2) t)) k in
            let t' = woken_one receiving (set_queue (λ _. q2) t) in
            let r2' = subst (λ y. Represents q2 y.1) k r2 in
            let h2 = drop_first-IsParked (set_queue (λ _. q2) t) receiving h1 in
            let (q3, p3, r3, c3, t3) = poll_recv_refines t' fuel ww waker (some id) r2' h2 in
            (
              id,
              t,
              t',
              _,
              p1 ∙ ap (λ b. polled_empty ww waker b (set_queue (λ _. q1) s0)) e,
              p2',
              refl,
              p3,
            )
      ]

  -- On an open channel that holds nothing and has room, with no other receiver parked, a receive
  -- that is polled is pending; a send then takes the message in and wakes its waker, and only that;
  -- and the next poll of the receive is ready with that message.
  pub receive_served :
      (s : Inner A W) (fuel : ℕ) (ww : W → W → Bool) (waker : W) (msg : A)
      → Represents s.queue []
      → IsParked s
      → s.flags.closed ≡ false
      → s.recv_waiters ≡ []
      → Fifo.is_full {A = A} s.queue.capacity [] ≡ false
      → s.flags.next_waiter_id + 1 < usize_mod
      → s.queue.tail.index + 256 < usize_mod
      → IsHandedOver fuel ww waker msg s
  receive_served s fuel ww waker msg r h e l f n room =
      subst (λ l. IsHandedOver fuel ww waker msg (record s { recv_waiters = l })) (sym l)
        (served_alone s fuel ww waker msg r
          (subst (λ l. IsParked (record s { recv_waiters = l })) l h) e f n room)
