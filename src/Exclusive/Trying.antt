-- ===== src/Exclusive/Trying.antt =====
-- `try_recv` and `Recv::poll` of src/mpsc.rs, for a thread that is alone.
use rapidfire.Prelude.{
  ℕ, suc, ◌≡◌, refl, Option, Bool, false, not, ◌==◌, if◌then◌else◌, List, ap, ◌∙◌, Bool-cases, inl,
  inr,
}
use rapidfire.Layout.{unbounded}
use rapidfire.Sync.{done, bind-done}
use rapidfire.Shared.{Queue, Inner, set_queue}
use rapidfire.Queue.Single.{pop_single}
use rapidfire.Channel.Waiters.{sending, receiving, waiting}
use rapidfire.Channel.Core.{recv_state_when_empty}
use rapidfire.Mpsc.Receiver.{try_recv_nonblocking, try_recv, poll_recv}
use rapidfire.Fifo
use rapidfire.Refine.Holds.{Contains}
use rapidfire.Refine.Claim.{quiet}
use rapidfire.Refine.Pops.{with_wake}
use rapidfire.Parked.Invariant.{IsParked}
use rapidfire.Sequential.Attempt.{IsAttempt, received, recv_state_lem, after_pop, retry_lem}
use rapidfire.Sequential.Withdrawn.{withdrawn}
use rapidfire.Sequential.Waiting.{polled, poll_with_refines}
use rapidfire.Exclusive.Single.{wake_count}
use rapidfire.Exclusive.Pop.{pop_single_refines}

module _ {A W : Type 0} where
  -- An unbounded queue wakes no sender.
  wake_same :
      (s : Inner A W)
      → not (wake_count s (waiting sending) == 0)
        ≡ (if s.queue.capacity == unbounded then false else not (waiting sending s == 0))
  wake_same s = elim (Bool-cases (s.queue.capacity == unbounded)) [
    | inl e ↦ rw e refl
    | inr e ↦ rw e refl
  ]

  pub single_attempt :
      IsAttempt {W = W} try_recv_nonblocking (λ (q : Queue A) (xs : List A). Contains q xs)
  unfolding try_recv_nonblocking
  single_attempt = record {
    contains = λ r. r;
    takes = λ s xs r h.
        let (q', p, r', c, t) = pop_single_refines s (waiting sending) r (λ f t. refl) in
        (
          q',
          bind-done (pop_single (waiting sending)) _ (
                p
                ∙ ap (λ b. done (with_wake (Fifo.pop xs).0 b) (quiet (set_queue (λ _. q') s)))
                    (wake_same s))
              ∙ after_pop s q' xs h r',
          r',
          c,
          t,
        );
    finds_none = λ s r.
        let (q', p, r', c, t) = pop_single_refines s (waiting sending) r (λ f t. refl) in
        (
          q',
          bind-done (pop_single (waiting sending)) _ p
              ∙ bind-done recv_state_when_empty _ (recv_state_lem (set_queue (λ _. q') s) r'),
          r',
          c,
          t,
        );
  }

  -- `try_recv` of the exclusive receiver, for a thread that is alone, with fuel for one attempt: it
  -- takes the oldest value, and on a bounded channel wakes the longest-waiting sender; if there is
  -- none, it says that the channel is closed, or empty.
  pub single_try_recv_refines :
      (s : Inner A W) {xs : List A} (fuel : ℕ)
      → Contains s.queue xs
      → IsParked s
      → (q' : Queue A) × (try_recv (suc fuel) (quiet s)
          ≡ received s.queue.capacity xs (set_queue (λ _. q') s))
        × Contains q' (Fifo.pop xs).1
        × (q'.capacity ≡ s.queue.capacity)
        × (q'.tail.index ≡ s.queue.tail.index)
  unfolding try_recv
  single_try_recv_refines s {xs} fuel r h =
      let (q', p, r', c, t) = single_attempt.takes s xs r h in
      (q', retry_lem fuel try_recv_nonblocking s.queue.capacity xs _ p, r', c, t)

  -- `Recv::poll` of the exclusive receiver, for a thread that is alone: the earlier registration is
  -- taken back; then the poll is ready with the oldest value, waking a sender of a bounded channel,
  -- or with the error if there is none and the channel is closed; else it is pending, and the waker
  -- is registered under a new id, which the future keeps.
  pub single_poll_recv_refines :
      (s : Inner A W) {xs : List A} (fuel : ℕ) (ww : W → W → Bool) (waker : W) (id : Option ℕ)
      → Contains s.queue xs
      → IsParked s
      → (q' : Queue A) × (poll_recv ww (suc fuel) waker id (quiet s)
          ≡ polled ww waker s.queue.capacity xs (set_queue (λ _. q') (withdrawn receiving id s)))
        × Contains q' (Fifo.pop xs).1
        × (q'.capacity ≡ s.queue.capacity)
        × (q'.tail.index ≡ s.queue.tail.index)
  unfolding poll_recv
  single_poll_recv_refines s fuel ww waker id r h =
      poll_with_refines single_attempt fuel ww waker s id r h
