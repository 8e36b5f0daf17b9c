-- ===== src/Interference/Attempts.antt =====
-- One attempt of the shared receiver, `try_recv_nonblocking` of src/lib.rs, under any interference.
use rapidfire.Prelude.{
  ℕ, ◌+◌, ◌*◌, ◌≤◌, Option, none, some, length, Bool, if◌then◌else◌, Result, ok, err, arith,
}
use rapidfire.Sync.{World, Outcome, done, starved, fault, panicked, disturb, return, ◌>>=◌, ◌>>◌}
use rapidfire.Shared.{Inner}
use rapidfire.Queue.Memory.{Act}
use rapidfire.Queue.Observe.{is_empty_seqcst}
use rapidfire.Queue.Backoff.{snooze_limit}
use rapidfire.Queue.Pop.{pop}
use rapidfire.Channel.Waiters.{Side, sending, waiting, waiters, first_waker, wake, notify_one}
use rapidfire.Channel.Core.{RecvState, recv_state_when_empty, try_recv_nonblocking}
use rapidfire.Interference.Polling.{notify_one-Returns}
use rapidfire.Interference.After.{After, Reaches}
use rapidfire.Interference.Ending.{Ends, Ends-bind, Ends-if}
use rapidfire.Interference.Popping.{pop-Ends}
use rapidfire.Interference.Shrinking.{
  Within, Within-bind, Within-if, disturb-Within, Shrinks, pop-Shrinks,
}

module _ {A W : Type 0} (n : ℕ) where
  pub notify_one-Shrinks : (side : Side) → Shrinks {A = A} {W = W} n (notify_one side)
  unfolding notify_one wake
  notify_one-Shrinks side w h =
      go (first_waker (waiters side (disturb w).shared)) _ (disturb-Within n w h)
    where
      go :
          (waker : Option W)
          → Shrinks n
              (elim waker as (λ _. Act A W (Unit {0})) [ none ↦ return tt | some w ↦ wake w ])
      go none w h = h
      go (some v) w h = disturb-Within n w h

  pub state-Shrinks : Shrinks {A = A} {W = W} n recv_state_when_empty
  unfolding recv_state_when_empty is_empty_seqcst
  state-Shrinks w h =
      let h1 = disturb-Within n w h in
      Within-if n (disturb w).shared.flags.closed _ _ (disturb w)
        (disturb-Within n _ (disturb-Within n (disturb w) h1)) h1

  attempt-Shrinks : (fuel : ℕ) → Shrinks {A = A} {W = W} n (try_recv_nonblocking fuel)
  unfolding try_recv_nonblocking
  attempt-Shrinks fuel w h =
      Within-bind n (pop fuel (waiting sending)) _ w (pop-Shrinks n fuel (waiting sending) w h) go
    where
      go :
          (r : Option (A × Bool))
          → Shrinks n (elim r as (λ _. Act A W (Result A RecvState)) [
            | some (msg, wake) ↦ (do
              if wake then notify_one sending else return tt
              return (ok msg))
            | none ↦ (do state ← recv_state_when_empty; return (err state))
          ])
      go none w h = Within-bind n recv_state_when_empty _ w (state-Shrinks w h) (λ _ _ h'. h')
      go (some (msg, wake)) w h =
          Within-bind n (if wake then notify_one sending else return tt) _ w
            (Within-if n wake (notify_one sending) (return tt) w (notify_one-Shrinks sending w h) h)
            (λ _ _ h'. h')

  -- A call that ends, and uses the schedule up.
  pub Reaches-Within :
      {R : Type 0} (o : Outcome (Inner A W) R)
      → Ends o
      → Within n o
      → Reaches (λ _ w. length w.schedule ≤ n) o
  Reaches-Within (done r w) e h = h
  Reaches-Within starved e h = e
  Reaches-Within fault e h = tt
  Reaches-Within panicked e h = tt

  pub After-Ends : {R : Type 0} (o : Outcome (Inner A W) R) → After (λ _ _. Unit {0}) o → Ends o
  After-Ends (done r w) h = tt
  After-Ends starved h = h
  After-Ends fault h = tt
  After-Ends panicked h = tt

  pub state-Ends : (w : World (Inner A W)) → Ends (recv_state_when_empty w)
  unfolding recv_state_when_empty is_empty_seqcst
  state-Ends w = Ends-if (disturb w).shared.flags.closed _ _ (disturb w) (λ _. tt) (λ _. tt)

  attempt-Ends :
      (fuel : ℕ) (w : World (Inner A W))
      → 2 * length w.schedule + snooze_limit + 2 ≤ fuel
      → Ends (try_recv_nonblocking fuel w)
  unfolding try_recv_nonblocking
  attempt-Ends fuel w enough =
      Ends-bind (pop fuel (waiting sending)) _ w (pop-Ends fuel (waiting sending) w enough) go
    where
      go :
          (r : Option (A × Bool)) (w' : World (Inner A W))
          → Ends (
              (elim r as (λ _. Act A W (Result A RecvState)) [
                | some (msg, wake) ↦ (do
                  if wake then notify_one sending else return tt
                  return (ok msg))
                | none ↦ (do state ← recv_state_when_empty; return (err state))
              ])
                w')
      go none w' = Ends-bind recv_state_when_empty _ w' (state-Ends w') (λ _ _. tt)
      go (some (msg, wake)) w' =
          Ends-bind (if wake then notify_one sending else return tt) _ w'
            (Ends-if wake (notify_one sending) (return tt) w'
              (λ _. After-Ends _ (notify_one-Returns sending w')) (λ _. tt))
            (λ _ _. tt)

  -- With fuel for what the other threads do in all, an attempt ends, and leaves no more of it.
  pub attempt-Reaches :
      (fuel : ℕ)
      → 2 * n + snooze_limit + 2 ≤ fuel
      → (w : World (Inner A W)) → length w.schedule ≤ n
      → Reaches (λ _ w'. length w'.schedule ≤ n) (try_recv_nonblocking fuel w)
  attempt-Reaches fuel enough w h =
      Reaches-Within _ (attempt-Ends fuel w (omega arith)) (attempt-Shrinks fuel w h)
