-- ===== src/Sequential/Waiting.antt =====
-- `Recv::poll` and `Send::poll` of src/lib.rs, for a thread that is alone.
use rapidfire.Prelude.{
  ℕ, suc, ◌≡◌, Option, none, some, Bool, true, false, ◌==◌, if◌then◌else◌, List, [], ◌∷◌, Result,
  ok, err, ap, subst, ◌∙◌, sym, Bool-cases, inl, inr,
}
use rapidfire.Layout.{unbounded}
use rapidfire.Sync.{Outcome, done, bind-done}
use rapidfire.Shared.{Queue, Inner, set_queue}
use rapidfire.Queue.Memory.{Act}
use rapidfire.Queue.Observe.{claims_below, receiver_parking}
use rapidfire.Channel.Waiters.{receiving, sending, enqueue, registered, register, unregister}
use rapidfire.Channel.Core.{RecvState}
use rapidfire.Channel.Futures.{Poll, ready, pending, poll_recv, poll_with, recv_wait}
use rapidfire.Fifo
use rapidfire.Refine.Holds.{Represents}
use rapidfire.Refine.Claim.{quiet}
use rapidfire.Parked.Invariant.{IsParked}
use rapidfire.Sequential.Observe.{observers_agree}
use rapidfire.Sequential.Withdrawn.{
  withdrawn, unregister-withdrawn, withdrawn-IsParked, withdrawn-queue,
}
use rapidfire.Sequential.Trying.{shared_attempt}
use rapidfire.Sequential.Attempt.{IsAttempt, woken_one}

module _ {A W : Type 0} where
  -- An attempt to receive from an open channel without values.
  try_empty :
      {attempt : Act A W (Result A RecvState)} {P : Queue A → List A → Type 0}
      → IsAttempt attempt P
      → (s : Inner A W) → P s.queue []
      → s.flags.closed ≡ false
      → (q' : Queue A) × (attempt (quiet s)
          ≡ done (err RecvState.empty) (quiet (set_queue (λ _. q') s)))
        × P q' []
        × (q'.capacity ≡ s.queue.capacity)
        × (q'.tail.index ≡ s.queue.tail.index)
  try_empty law s r e =
      let (q', p, r', c, t) = law.finds_none s r in
      (
        q',
        p
            ∙ ap
                (λ (b : Bool).
                  done (err (if b then RecvState.closed else RecvState.empty))
                    (quiet (set_queue (λ _. q') s)))
                e,
        r',
        c,
        t,
      )

  -- A registered receiver that finds nothing and no claim below the live tail stays parked.
  wait_empty :
      {attempt : Act A W (Result A RecvState)} {P : Queue A → List A → Type 0}
      → IsAttempt attempt P
      → (s : Inner A W) (more : ℕ) (waker : W) (id polls : ℕ) → P s.queue []
      → s.flags.closed ≡ false
      → (q' : Queue A) × (recv_wait (suc more) attempt waker id s.queue.tail.index polls (quiet s)
          ≡ done (pending, some id) (quiet (set_queue (λ _. q') s)))
        × P q' []
        × (q'.capacity ≡ s.queue.capacity)
        × (q'.tail.index ≡ s.queue.tail.index)
  unfolding recv_wait
  wait_empty {attempt} law s more waker id polls r e =
      let (q', p, r', c, t) = try_empty law s r e in
      let s' = set_queue (λ _. q') s in
      let k = (observers_agree s' (law.contains r')).3 in
      let m : claims_below s.queue.tail.index (quiet s') ≡ done false (quiet s') =
        subst (λ n. claims_below n (quiet s') ≡ done false (quiet s')) t k in
      (q', bind-done attempt _ p ∙ bind-done (claims_below s.queue.tail.index) _ m, r', c, t)

  -- What a poll leaves and answers, when it finds no value.
  abbrev pub polled_empty :
      (W → W → Bool)
      → W
      → Bool
      → Inner A W
      → Outcome (Inner A W) (Poll (Result A (Unit {0})) × Option ℕ)
  polled_empty ww waker true t = done (ready (err tt), none) (quiet t)
  polled_empty ww waker false t =
      let (id, t') = registered ww receiving none waker t in done (pending, some id) (quiet t')

  -- What a poll leaves and answers, on a channel that holds a list.
  abbrev pub polled :
      (W → W → Bool)
      → W
      → ℕ
      → List A
      → Inner A W
      → Outcome (Inner A W) (Poll (Result A (Unit {0})) × Option ℕ)
  polled ww waker capacity [] t = polled_empty ww waker t.flags.closed t
  polled ww waker capacity (x ∷ xs) t =
      done (ready (ok x), none) (quiet (if capacity == unbounded then t else woken_one sending t))

  module _ {attempt : Act A W (Result A RecvState)} {P : Queue A → List A → Type 0}
      (law : IsAttempt attempt P) (fuel : ℕ) (ww : W → W → Bool) (waker : W) where
    -- A poll of a future without a registration.
    abbrev PollAnswer : Inner A W → List A → Type 0
    PollAnswer s xs =
        (q' : Queue A) × (poll_with ww (suc fuel) attempt waker none (quiet s)
          ≡ polled ww waker s.queue.capacity xs (set_queue (λ _. q') s))
        × P q' (Fifo.pop xs).1
        × (q'.capacity ≡ s.queue.capacity)
        × (q'.tail.index ≡ s.queue.tail.index)

    poll_empty : (s : Inner A W) → P s.queue [] → s.flags.closed ≡ false → PollAnswer s []
    unfolding poll_with register registered receiver_parking unregister enqueue
    poll_empty s r e =
        let (q1, p1, r1, c1, t1) = try_empty law s r e in
        let (id, s2) = registered ww receiving none waker (set_queue (λ _. q1) s) in
        let (q2, p2, r2, c2, t2) = wait_empty law s2 fuel waker id 0 r1 e in
        (
          q2,
          bind-done attempt _ p1
              ∙ p2
              ∙ ap (λ b. polled_empty ww waker b (set_queue (λ _. q2) s)) (sym e),
          r2,
          c2 ∙ c1,
          t2 ∙ t1,
        )

    poll_new : (s : Inner A W) (xs : List A) → P s.queue xs → IsParked s → PollAnswer s xs
    unfolding poll_with unregister
    poll_new s [] r h = elim (Bool-cases s.flags.closed) [
      | inl e ↦
          let (q', p, r', c, t) = law.takes s [] r h in
          let k =
            p
            ∙ ap
                (λ (b : Bool).
                  done (err (if b then RecvState.closed else RecvState.empty))
                    (quiet (set_queue (λ _. q') s)))
                e in
          (
            q',
            bind-done attempt _ k
                ∙ ap (λ b. polled_empty ww waker b (set_queue (λ _. q') s)) (sym e),
            r',
            c,
            t,
          )
      | inr e ↦ poll_empty s r e
    ]
    poll_new s (x ∷ xs) r h =
        let (q', p, r', c, t) = law.takes s (x ∷ xs) r h in (q', bind-done attempt _ p, r', c, t)

    pub poll_with_refines :
        (s : Inner A W) {xs : List A} (id : Option ℕ)
        → P s.queue xs
        → IsParked s
        → (q' : Queue A) × (poll_with ww (suc fuel) attempt waker id (quiet s)
            ≡ polled ww waker s.queue.capacity xs (set_queue (λ _. q') (withdrawn receiving id s)))
          × P q' (Fifo.pop xs).1
          × (q'.capacity ≡ s.queue.capacity)
          × (q'.tail.index ≡ s.queue.tail.index)
    unfolding poll_with unregister
    poll_with_refines s {xs} id r h =
        let s0 = withdrawn receiving id s in
        let e = withdrawn-queue s receiving id in
        let (q', p, r', c, t) =
          poll_new s0 xs (subst (λ q. P q xs) (sym e) r) (withdrawn-IsParked s receiving id h) in
        (
          q',
          bind-done (unregister receiving id false) _ (unregister-withdrawn s receiving id h)
              ∙ p
              ∙ ap (λ q. polled ww waker q.capacity xs (set_queue (λ _. q') s0)) e,
          r',
          c ∙ ap (λ q. q.capacity) e,
          t ∙ ap (λ q. q.tail.index) e,
        )

  -- `Recv::poll`, for a thread that is alone: the earlier registration is taken back; then the poll
  -- is ready with the oldest value, waking a sender of a bounded channel, or with the error if there
  -- is none and the channel is closed; else it is pending, and the waker is registered under a new
  -- id, which the future keeps.
  pub poll_recv_refines :
      (s : Inner A W) {xs : List A} (fuel : ℕ) (ww : W → W → Bool) (waker : W) (id : Option ℕ)
      → Represents s.queue xs
      → IsParked s
      → (q' : Queue A) × (poll_recv ww (suc fuel) waker id (quiet s)
          ≡ polled ww waker s.queue.capacity xs (set_queue (λ _. q') (withdrawn receiving id s)))
        × Represents q' (Fifo.pop xs).1
        × (q'.capacity ≡ s.queue.capacity)
        × (q'.tail.index ≡ s.queue.tail.index)
  unfolding poll_recv
  poll_recv_refines s fuel ww waker id r h =
      poll_with_refines (shared_attempt fuel) fuel ww waker s id r h
