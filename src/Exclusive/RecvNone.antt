-- ===== src/Exclusive/RecvNone.antt =====
-- `recv_many` of src/mpsc.rs on a channel that contains nothing, for a thread that is alone.
use rapidfire.Prelude.{
  ℕ, suc, ◌≡◌, ◌≢◌, refl, Bool, true, false, ◌==◌, List, [], ◌∷◌, ◌++◌, take, drop, arith, ap, sym,
  ◌∙◌, subst, append-nil, Bool-cases, inl, inr, Result, err, none, some,
}
use rapidfire.Sync.{Outcome, done, bind-done}
use rapidfire.Shared.{WaiterList, Inner, set_queue}
use rapidfire.Channel.Waiters.{receiving, registered, enqueue}
use rapidfire.Channel.Futures.{Poll, ready, pending}
use rapidfire.Mpsc.Receiver.{
  RecvMany, start, awaiting, complete, try_recv_many_ready, poll_recv, await_first, poll_recv_many,
}
use rapidfire.Refine.Holds.{Contains}
use rapidfire.Refine.Claim.{quiet}
use rapidfire.Parked.Invariant.{IsParked}
use rapidfire.Parked.Wakes.{calls}
use rapidfire.Sequential.Waiting.{polled_empty}
use rapidfire.Exclusive.Trying.{single_poll_recv_refines}
use rapidfire.Exclusive.Waking.{IsServed, try_recv_many_ready_lem, to_wake-none}

module _ {A W : Type 0} where
  many-waits :
      (s t : Inner A W) (fuel : ℕ) (ww : W → W → Bool) (waker : W) (buffer more : List A)
      (limit k : ℕ)
      → limit ≢ 0
      → k ≡ 0
      → try_recv_many_ready buffer limit (quiet s) ≡ done (more, k) (quiet t)
      → poll_recv_many ww fuel waker buffer limit start (quiet s)
        ≡ await_first ww fuel waker more limit none (quiet t)
  unfolding poll_recv_many
  many-waits s t fuel ww waker buffer more limit k room no_more p =
      let a : (limit == 0) ≡ false = ground arith in
      let b : (k == 0) ≡ true = ground arith in
      rw a (bind-done (try_recv_many_ready buffer limit) _ p ∙ rw b refl)

  abbrev pub registrations : Bool → Inner A W → W → WaiterList W
  registrations true s waker = s.recv_waiters
  registrations false s waker = s.recv_waiters ++ (s.flags.next_waiter_id, waker) ∷ []

  -- What the first poll of `recv_many` answers, when it finds no value: the error on a closed
  -- channel, else it waits under an id.
  abbrev pub none_found :
      Bool
      → List A
      → ℕ
      → Inner A W
      → Outcome (Inner A W) (Poll (Result ℕ (Unit {0})) × List A × RecvMany)
  none_found true buffer id t = done (ready (err tt), buffer, complete) (quiet t)
  none_found false buffer id t = done (pending, buffer, awaiting (some id)) (quiet t)

  -- The first poll of `recv_many`, for a thread that is alone, with a limit that is not 0, on a
  -- channel that contains nothing: the buffer is left as it was; it is ready with the error if the
  -- channel is closed; else it is pending, and the waker is registered under a new id, which the
  -- future keeps. No sender is woken.
  pub recv_many_waits :
      (s : Inner A W) (fuel : ℕ) (ww : W → W → Bool) (waker : W) (buffer : List A) (limit : ℕ)
      → Contains s.queue []
      → IsParked s
      → limit ≢ 0
      → (t : Inner A W) × (poll_recv_many ww (suc fuel) waker buffer limit start (quiet s)
          ≡ none_found s.flags.closed buffer s.flags.next_waiter_id t)
        × Contains t.queue []
        × (t.recv_waiters ≡ registrations s.flags.closed s waker)
        × (t.send_waiters ≡ s.send_waiters)
        × (t.woken ≡ s.woken)
  unfolding await_first registered enqueue
  recv_many_waits s fuel ww waker buffer limit r h room =
      let (k, le, short, some_taken, (t, p, r', served)) =
        try_recv_many_ready_lem s buffer limit r h in
      let z : k ≡ 0 = omega (arith, short) in
      let same : buffer ++ take k [] ≡ buffer =
        ap (λ n. buffer ++ take n []) z ∙ append-nil buffer in
      let (q', p2, r2, c, l) =
        single_poll_recv_refines t fuel ww waker none
          (subst (λ n. Contains t.queue (drop n [])) z r') served.parked in
      let parts = many-waits s t (suc fuel) ww waker buffer _ limit k room z p in
      let s1 = set_queue (λ _. q') t in
      let none_more = to_wake-none s.queue.capacity in
      let served0 = subst (IsServed s t) z served in
      let left = served0.senders ∙ ap (λ n. drop n s.send_waiters) none_more in
      let woken = served0.woken ∙ ap (λ n. calls (take n s.send_waiters) s.woken) none_more in
      let start_over =
        parts ∙ ap (λ b. await_first ww (suc fuel) waker b limit none (quiet t)) same in
      elim (Bool-cases s.flags.closed) [
        | inl e ↦ (
          s1,
          start_over
              ∙ bind-done (poll_recv ww (suc fuel) waker none) _
                  (p2 ∙ ap (λ b. polled_empty ww waker b s1) (served.closed ∙ e))
              ∙ ap (λ b. none_found b buffer s.flags.next_waiter_id s1) (sym e),
          r2,
          served.receivers ∙ ap (λ b. registrations b s waker) (sym e),
          left,
          woken,
        )
        | inr e ↦ (
          (registered ww receiving none waker s1).1,
          start_over
              ∙ bind-done (poll_recv ww (suc fuel) waker none) _
                  (p2 ∙ ap (λ b. polled_empty ww waker b s1) (served.closed ∙ e))
              ∙ ap
                  (λ n.
                    done (pending, buffer, awaiting (some n))
                      (quiet (registered ww receiving none waker s1).1))
                  served.next_id
              ∙ ap
                  (λ b.
                    none_found b buffer s.flags.next_waiter_id
                      (registered ww receiving none waker s1).1)
                  (sym e),
          r2,
          (λ i. served.receivers i ++ (served.next_id i, waker) ∷ [])
              ∙ ap (λ b. registrations b s waker) (sym e),
          left,
          woken,
        )
      ]
