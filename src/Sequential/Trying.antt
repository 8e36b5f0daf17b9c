-- ===== src/Sequential/Trying.antt =====
-- `try_send` and `try_recv` of src/lib.rs, for a thread that is alone.
use rapidfire.Prelude.{
  ℕ, suc, ◌+◌, ◌≤◌, ◌<◌, ◌≡◌, ◌⊎◌, refl, Bool, true, false, not, ◌==◌, if◌then◌else◌, List, Result,
  ok, err, ◌∙◌, Bool-cases, inl, inr,
}
use rapidfire.Layout.{usize_mod}
use rapidfire.Sync.{Outcome, done, bind-done, return, ◌>>◌}
use rapidfire.Shared.{Queue, Inner, set_queue}
use rapidfire.Queue.Memory.{Act}
use rapidfire.Queue.Push.{push}
use rapidfire.Queue.Pop.{pop}
use rapidfire.Channel.Waiters.{receiving, sending, waiting, notify_one}
use rapidfire.Channel.Core.{
  TrySendError, full, try_send, try_recv, try_recv_nonblocking, recv_state_when_empty,
  retry_while_busy,
}
use rapidfire.Fifo
use rapidfire.Refine.Holds.{Represents, Represents-Contains}
use rapidfire.Refine.Claim.{quiet}
use rapidfire.Refine.Pushes.{push_refines}
use rapidfire.Refine.Pops.{pop_refines}
use rapidfire.Parked.Invariant.{IsParked}
use rapidfire.Sequential.Attempt.{
  IsAttempt, woken_one, notify_if_waiting, attempted, received, recv_state_lem, after_pop,
  retry_lem,
}

module _ {A W : Type 0} where
  -- What a send leaves: the queue `q'`, and a receiver woken if the value was taken in.
  abbrev pub sent : A → Bool → Inner A W → Outcome (Inner A W) (Result (Unit {0}) (TrySendError A))
  sent msg accepted t =
      if accepted
      then done (ok tt) (quiet (woken_one receiving t))
      else done (err (full msg)) (quiet t)

  -- What `try_send` does with the answer of `push`.
  abbrev pub respond : Result Bool A → Act A W (Result (Unit {0}) (TrySendError A))
  respond (ok wake) = do if wake then notify_one receiving else return tt; return (ok tt)
  respond (err back) = return (err (full back))

  after_push :
      (s : Inner A W) (q' : Queue A) (accepted : Bool) (msg : A)
      → IsParked s
      → respond
          (if accepted then ok (not (waiting receiving s == 0)) else err msg)
          (quiet (set_queue (λ _. q') s))
        ≡ sent msg accepted (set_queue (λ _. q') s)
  after_push s q' true msg h =
      bind-done (if not (waiting receiving s == 0) then notify_one receiving else return tt) _
        (notify_if_waiting (set_queue (λ _. q') s) receiving h)
  after_push s q' false msg h = refl

  -- `try_send`, for a thread that is alone: on a closed channel it gives the message back as closed
  -- and changes nothing; else, if the FIFO is full, it gives the message back as full; else the
  -- FIFO takes the message in, and the longest-waiting receiver is woken and taken off its list.
  pub try_send_refines :
      (s : Inner A W) {xs : List A} (fuel : ℕ) (msg : A)
      → Represents s.queue xs
      → IsParked s
      → s.queue.tail.index + 256 < usize_mod
      → (s.flags.closed ≡ true)
          × (try_send (suc (suc fuel)) msg (quiet s)
              ≡ done (err (TrySendError.closed msg)) (quiet s))
        ⊎ (s.flags.closed ≡ false)
          × (q' : Queue A) × (try_send (suc (suc fuel)) msg (quiet s)
              ≡ sent msg (Fifo.push s.queue.capacity xs msg).0 (set_queue (λ _. q') s))
          × Represents q' (Fifo.push s.queue.capacity xs msg).1
          × (q'.capacity ≡ s.queue.capacity)
          × (q'.tail.index ≤ s.queue.tail.index + 2)
  unfolding try_send
  try_send_refines s {xs} fuel msg r h room = elim (Bool-cases s.flags.closed) [
    | inl e ↦ inl (e, simp e)
    | inr e ↦
        let (q', p, r', c, t) = push_refines s fuel (waiting receiving) msg r room (λ f t. refl) in
        inr (
          e,
          q',
          simp e (
              bind-done (push (suc (suc fuel)) (waiting receiving) msg) _ p
              ∙ after_push s q' _ msg h),
          r',
          c,
          t,
        )
  ]

  pub try_recv_nonblocking_refines :
      (s : Inner A W) {xs : List A} (fuel : ℕ)
      → Represents s.queue xs
      → IsParked s
      → (q' : Queue A) × (try_recv_nonblocking (suc fuel) (quiet s)
          ≡ attempted s.queue.capacity xs (set_queue (λ _. q') s))
        × Represents q' (Fifo.pop xs).1
        × (q'.capacity ≡ s.queue.capacity)
        × (q'.tail.index ≡ s.queue.tail.index)
  unfolding try_recv_nonblocking
  try_recv_nonblocking_refines s {xs} fuel r h =
      let (q', p, r', c, t) = pop_refines s fuel (waiting sending) r (λ f t. refl) in
      (
        q',
        bind-done (pop (suc fuel) (waiting sending)) _ p
            ∙ after_pop s q' xs h (Represents-Contains r'),
        r',
        c,
        t,
      )

  pub shared_attempt :
      (fuel : ℕ)
      → IsAttempt {W = W}
          (try_recv_nonblocking (suc fuel))
          (λ (q : Queue A) (xs : List A). Represents q xs)
  unfolding try_recv_nonblocking
  shared_attempt fuel = record {
    contains = Represents-Contains;
    takes = λ s xs r h. try_recv_nonblocking_refines s fuel r h;
    finds_none = λ s r.
        let (q', p, r', c, t) = pop_refines s fuel (waiting sending) r (λ f t. refl) in
        let k = recv_state_lem (set_queue (λ _. q') s) (Represents-Contains r') in
        (
          q',
          bind-done (pop (suc fuel) (waiting sending)) _ p ∙ bind-done recv_state_when_empty _ k,
          r',
          c,
          t,
        );
  }

  -- `try_recv`, for a thread that is alone, with fuel for one attempt: it takes the oldest value,
  -- and on a bounded channel wakes the longest-waiting sender; if there is none, it says that the
  -- channel is closed, or empty. Values that were sent before the closing are received.
  pub try_recv_refines :
      (s : Inner A W) {xs : List A} (fuel : ℕ)
      → Represents s.queue xs
      → IsParked s
      → (q' : Queue A) × (try_recv (suc fuel) (quiet s)
          ≡ received s.queue.capacity xs (set_queue (λ _. q') s))
        × Represents q' (Fifo.pop xs).1
        × (q'.capacity ≡ s.queue.capacity)
        × (q'.tail.index ≡ s.queue.tail.index)
  unfolding try_recv retry_while_busy
  try_recv_refines s {xs} fuel r h =
      let (q', p, r', c, t) = try_recv_nonblocking_refines s fuel r h in
      (q', retry_lem fuel (try_recv_nonblocking (suc fuel)) s.queue.capacity xs _ p, r', c, t)
