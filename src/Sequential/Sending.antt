-- ===== src/Sequential/Sending.antt =====
-- `Send::poll` of src/lib.rs, for a thread that is alone.
use rapidfire.Prelude.{
  ℕ, suc, ◌+◌, ◌<◌, ◌≤◌, ◌≡◌, refl, Option, none, some, Bool, true, false, not, ◌==◌, if◌then◌else◌,
  List, [], ◌∷◌, ◌++◌, Result, ok, err, arith, ap, subst, ◌∙◌, sym, Bool-cases, inl, inr,
}
use rapidfire.Layout.{usize_mod}
use rapidfire.Sync.{Outcome, done, bind-done}
use rapidfire.Shared.{Queue, Inner, set_queue}
use rapidfire.Queue.Push.{push}
use rapidfire.Queue.Observe.{sender_parking}
use rapidfire.Channel.Waiters.{
  receiving, sending, waiting, enqueue, registered, register, unregister,
}
use rapidfire.Channel.Core.{TrySendError, full, try_send}
use rapidfire.Channel.Futures.{Poll, ready, pending, Send, finished, poll_send, send_msg, resend}
use rapidfire.Fifo
use rapidfire.Refine.Holds.{Represents}
use rapidfire.Refine.Claim.{quiet}
use rapidfire.Refine.Pushes.{push_refines}
use rapidfire.Parked.Invariant.{IsParked}
use rapidfire.Sequential.Trying.{sent, try_send_refines}
use rapidfire.Sequential.Attempt.{woken_one}
use rapidfire.Sequential.Withdrawn.{
  withdrawn, unregister-withdrawn, withdrawn-IsParked, withdrawn-queue,
}

-- Whether a channel takes a message in, and its list then.
abbrev pub taken : {A : Type 0} → Bool → ℕ → List A → A → Bool × List A
taken true capacity xs msg = (false, xs)
taken false capacity xs msg = Fifo.push capacity xs msg

module _ {A W : Type 0} where
  -- A send attempt on an open full channel.
  try_full :
      (s : Inner A W) {xs : List A} (fuel : ℕ) (msg : A)
      → Represents s.queue xs
      → Fifo.is_full s.queue.capacity xs ≡ true
      → s.flags.closed ≡ false
      → s.queue.tail.index + 256 < usize_mod
      → (q' : Queue A) × (try_send (suc (suc fuel)) msg (quiet s)
          ≡ done (err (full msg)) (quiet (set_queue (λ _. q') s)))
        × Represents q' xs
        × (q'.capacity ≡ s.queue.capacity)
        × (q'.tail.index ≤ s.queue.tail.index + 2)
  unfolding try_send
  try_full s {xs} fuel msg r f e room =
      let (q', p, r', c, t) = push_refines s fuel (waiting receiving) msg r room (λ f t. refl) in
      let k : Fifo.push s.queue.capacity xs msg ≡ (false, xs) = rw f refl in
      (
        q',
        simp e (
            bind-done (push (suc (suc fuel)) (waiting receiving) msg) _ (
              p
              ∙ ap
                  (λ (y : Bool × List A).
                    done (if y.0 then ok (not (waiting receiving s == 0)) else err msg)
                      (quiet (set_queue (λ _. q') s)))
                  k)),
        subst (λ y. Represents q' y.1) k r',
        c,
        t,
      )

  try_closed :
      (s : Inner A W) (fuel : ℕ) (msg : A)
      → s.flags.closed ≡ true
      → try_send fuel msg (quiet s) ≡ done (err (TrySendError.closed msg)) (quiet s)
  unfolding try_send
  try_closed s fuel msg e = simp e

  -- What a poll leaves and answers: `closed` is the flag, `accepted` whether the FIFO takes the
  -- message in.
  abbrev pub poll_sent :
      (W → W → Bool)
      → W
      → A
      → Bool
      → Bool
      → Inner A W
      → Outcome (Inner A W) (Poll (Result (Unit {0}) A) × Send A)
  poll_sent ww waker msg true accepted t = done (ready (err msg), finished) (quiet t)
  poll_sent ww waker msg false true t =
      done (ready (ok tt), finished) (quiet (woken_one receiving t))
  poll_sent ww waker msg false false t =
      let (id, t') = registered ww sending none waker t in
      done (pending, record { msg = some msg; waiter_id = some id }) (quiet t')

  -- What a poll of `Send` for a message answers and leaves, from a state and the list that it holds.
  abbrev pub PollSent :
      ℕ → (W → W → Bool) → W → A → Option ℕ → Inner A W → Inner A W → List A → Type 0
  PollSent fuel ww waker msg id s s0 xs =
      let (accepted, ys) = taken s0.flags.closed s0.queue.capacity xs msg in
      (q' : Queue A) × (poll_send ww (suc (suc fuel)) waker
          (record { msg = some msg; waiter_id = id }) (quiet s)
        ≡ poll_sent ww waker msg s0.flags.closed accepted (set_queue (λ _. q') s0))
      × Represents q' ys
      × (q'.capacity ≡ s0.queue.capacity)
      × (q'.tail.index ≤ s0.queue.tail.index + 4)

  -- The same with what the flag and the FIFO say written out.
  abbrev Given : ℕ → (W → W → Bool) → W → A → Inner A W → Bool → Bool × List A → Type 0
  Given fuel ww waker msg s shut (accepted, ys) =
      (q' : Queue A) × (poll_send ww (suc (suc fuel)) waker
          (record { msg = some msg; waiter_id = none }) (quiet s)
        ≡ poll_sent ww waker msg shut accepted (set_queue (λ _. q') s))
      × Represents q' ys
      × (q'.capacity ≡ s.queue.capacity)
      × (q'.tail.index ≤ s.queue.tail.index + 4)

  poll_full :
      (s : Inner A W) {xs : List A} (fuel : ℕ) (ww : W → W → Bool) (waker : W) (msg : A)
      → Represents s.queue xs
      → Fifo.is_full s.queue.capacity xs ≡ true
      → s.flags.closed ≡ false
      → s.queue.tail.index + 258 < usize_mod
      → Given fuel ww waker msg s false (false, xs)
  unfolding poll_send send_msg resend register registered sender_parking unregister enqueue
  poll_full s {xs} fuel ww waker msg r f e room =
      let (q1, p1, r1, c1, t1) = try_full s fuel msg r f e (omega arith) in
      let s2 = (registered ww sending none waker (set_queue (λ _. q1) s)).1 in
      let f1 = subst (λ n. Fifo.is_full n xs ≡ true) (sym c1) f in
      let (q2, p2, r2, c2, t2) = try_full s2 fuel msg r1 f1 e (omega arith) in
      (
        q2,
        bind-done (try_send (suc (suc fuel)) msg) _ p1
            ∙ bind-done (try_send (suc (suc fuel)) msg) _ p2,
        r2,
        c2 ∙ c1,
        omega arith,
      )

  poll_open :
      (s : Inner A W) {xs : List A} (fuel : ℕ) (ww : W → W → Bool) (waker : W) (msg : A)
      → Represents s.queue xs
      → IsParked s
      → s.flags.closed ≡ false
      → s.queue.tail.index + 258 < usize_mod
      → Given fuel ww waker msg s false (Fifo.push s.queue.capacity xs msg)
  unfolding poll_send send_msg unregister
  poll_open s {xs} fuel ww waker msg r h e room =
      elim (Bool-cases (Fifo.is_full s.queue.capacity xs)) [
        | inl f ↦
            let k : Fifo.push s.queue.capacity xs msg ≡ (false, xs) = rw f refl in
            subst (Given fuel ww waker msg s false) (sym k)
              (poll_full s fuel ww waker msg r f e room)
        | inr f ↦
            let k : Fifo.push s.queue.capacity xs msg ≡ (true, xs ++ msg ∷ []) = rw f refl in
            elim (try_send_refines s fuel msg r h (omega arith)) [
              | inl (e', p) ↦ absurd (ground arith)
              | inr (e', q', p, r', c, t) ↦
                  let p' = p ∙ ap (λ (y : Bool × List A). sent msg y.0 (set_queue (λ _. q') s)) k in
                  subst (Given fuel ww waker msg s false) (sym k) (
                    q',
                    bind-done (try_send (suc (suc fuel)) msg) _ p',
                    subst (λ y. Represents q' y.1) k r',
                    c,
                    omega arith,
                  )
            ]
      ]

  poll_fresh :
      (s : Inner A W) {xs : List A} (fuel : ℕ) (ww : W → W → Bool) (waker : W) (msg : A)
      → Represents s.queue xs
      → IsParked s
      → s.queue.tail.index + 258 < usize_mod
      → PollSent fuel ww waker msg none s s xs
  unfolding poll_send send_msg unregister
  poll_fresh s {xs} fuel ww waker msg r h room = elim (Bool-cases s.flags.closed) [
    | inl e ↦
        subst (λ b. Given fuel ww waker msg s b (taken b s.queue.capacity xs msg)) (sym e)
          (
            s.queue,
            bind-done (try_send (suc (suc fuel)) msg) _ (try_closed s (suc (suc fuel)) msg e),
            r,
            refl,
            omega arith,
          )
    | inr e ↦
        subst (λ b. Given fuel ww waker msg s b (taken b s.queue.capacity xs msg)) (sym e)
          (poll_open s fuel ww waker msg r h e room)
  ]

  -- `Send::poll`, for a thread that is alone: the earlier registration is taken back; then the poll
  -- is ready with the message if the channel is closed; it is ready if the FIFO takes the message
  -- in, and the longest-waiting receiver is woken; else it is pending: the future keeps the message,
  -- and the waker is registered under a new id, which the future keeps too.
  pub poll_send_refines :
      (s : Inner A W) {xs : List A} (fuel : ℕ) (ww : W → W → Bool) (waker : W) (id : Option ℕ)
      (msg : A)
      → Represents s.queue xs
      → IsParked s
      → s.queue.tail.index + 258 < usize_mod
      → PollSent fuel ww waker msg id s (withdrawn sending id s) xs
  unfolding poll_send unregister
  poll_send_refines s {xs} fuel ww waker id msg r h room =
      let s0 = withdrawn sending id s in
      let e = withdrawn-queue s sending id in
      let room' = subst (λ q. q.tail.index + 258 < usize_mod) (sym e) room in
      let (q', p, r', c, t) =
        poll_fresh s0 fuel ww waker msg (subst (λ q. Represents q xs) (sym e) r)
          (withdrawn-IsParked s sending id h) room' in
      (
        q',
        bind-done (unregister sending id false) _ (unregister-withdrawn s sending id h) ∙ p,
        r',
        c,
        t,
      )
