-- ===== src/Interference/Polling.antt =====
-- The parts of the loop of `Recv::poll` in src/lib.rs and src/mpsc.rs, and the calls in it that
-- return under any interference.
use rapidfire.Prelude.{
  ℕ, ◌+◌, ◌<◌, ◌≡◌, Option, none, some, Bool, true, false, not, ◌||◌, ◌==◌, if◌then◌else◌, Result,
  ok, err, arith, ◌⊎◌,
}
use rapidfire.Sync.{World, M, return, load, fetch, ◌>>=◌, ◌>>◌}
use rapidfire.Shared.{Inner}
use rapidfire.Queue.Memory.{Act}
use rapidfire.Queue.Backoff.{snooze_limit, snooze, snooze_bounded}
use rapidfire.Queue.Observe.{claims_below}
use rapidfire.Channel.Waiters.{
  Side, receiving, waiting, waiters, has, cancel, first_waker, drop_first, wake, notify_one,
  unregister,
}
use rapidfire.Channel.Core.{RecvState, busy}
use rapidfire.Channel.Futures.{Poll, ready, pending}
use rapidfire.Interference.After.{After, After-bind}

-- A call that returns, whatever the other threads do.
abbrev pub Returns : {S R : Type 0} → M S R → Type 0
Returns m = (w : World _) → After (λ _ _. Unit {0}) (m w)

Returns-bind :
    {S R P : Type 0} (m : M S R) (f : R → M S P)
    → Returns m
    → ((r : R) → Returns (f r))
    → Returns (m >>= f)
Returns-bind m f h k w = After-bind m f w (λ _ _. Unit) (λ _ _. Unit) (h w) (λ r w' _. k r w')

Returns-if :
    {S R : Type 0} (b : Bool) (m n : M S R) → Returns m → Returns n → Returns (if b then m else n)
Returns-if true m n h k = h
Returns-if false m n h k = k

pub snooze_bounded-cases :
    (polls : ℕ)
    → (snooze_bounded polls ≡ (polls, false))
      ⊎ (snooze_bounded polls ≡ (polls + 1, true)) × (polls < snooze_limit)
unfolding snooze_bounded snooze
snooze_bounded-cases polls = ground arith

module _ {A W : Type 0} where
  pub notify_one-Returns : (side : Side) → Returns (notify_one {A = A} {W = W} side)
  unfolding notify_one wake
  notify_one-Returns side =
      Returns-bind (fetch (λ s. first_waker (waiters side s)) (drop_first side)) _ (λ w. tt) go
    where
      go :
          (waker : Option W)
          → Returns {S = Inner A W}
              (elim waker as (λ _. Act A W (Unit {0})) [ none ↦ return tt | some w ↦ wake w ])
      go none w = tt
      go (some v) w = tt

  pub unregister-Returns :
      (side : Side) (id : Option ℕ) (forward : Bool)
      → Returns (unregister {A = A} {W = W} side id forward)
  unfolding unregister
  unregister-Returns side none forward = λ w. tt
  unregister-Returns side (some my) forward =
      Returns-bind (if forward then return false else (do n ← load (waiting side); return (n == 0)))
        _
        (Returns-if forward (return false) (do n ← load (waiting side); return (n == 0)) (λ w. tt)
          (λ w. tt))
        λ gone.
          Returns-if gone (return tt)
            (do
              found ← fetch (λ s. has my (waiters side s)) (cancel side my)
              if found || not forward then return tt else notify_one side)
            (λ w. tt)
            (Returns-bind (fetch (λ s. has my (waiters side s)) (cancel side my)) _ (λ w. tt)
              λ found.
                Returns-if (found || not forward) (return tt) (notify_one side) (λ w. tt)
                  (notify_one-Returns side))

  -- What the loop does when it may not sleep yet.
  abbrev pub on_backoff :
      (ℕ → Act A W (Poll (Result A (Unit {0})) × Option ℕ))
      → W
      → ℕ
      → ℕ × Bool
      → Act A W (Poll (Result A (Unit {0})) × Option ℕ)
  on_backoff again waker id (polls', more) =
      if more then again polls' else (do wake waker; return (pending, some id))

  -- What the loop does with the answer of an attempt.
  abbrev pub on_attempt :
      (ℕ → Act A W (Poll (Result A (Unit {0})) × Option ℕ))
      → W
      → ℕ
      → ℕ
      → ℕ
      → Result A RecvState
      → Act A W (Poll (Result A (Unit {0})) × Option ℕ)
  on_attempt again waker id tail polls (ok msg) = do
    unregister receiving (some id) true
    return (ready (ok msg), none)
  on_attempt again waker id tail polls (err RecvState.closed) = do
    unregister receiving (some id) false
    return (ready (err tt), none)
  on_attempt again waker id tail polls (err busy) = on_backoff again waker id (snooze_bounded polls)
  on_attempt again waker id tail polls (err RecvState.empty) = do
    claimed ← claims_below tail
    if claimed then on_backoff again waker id (snooze_bounded polls) else return (pending, some id)
