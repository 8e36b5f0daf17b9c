-- ===== src/Interference/Parking.antt =====
-- The loop of `Recv::poll` in src/lib.rs and src/mpsc.rs, under any interference: when it goes to
-- sleep, nothing that was claimed before is left behind.
use rapidfire.Prelude.{
  ℕ, zero, suc, ◌+◌, ◌-◌, ◌*◌, ◌≤◌, length, ◌<◌, ◌≡◌, refl, Option, none, some, Bool, true, false,
  if◌then◌else◌, List, ◌∷◌, Result, ok, err, arith, ◌⊎◌, subst, sym, inl, inr,
}
use rapidfire.Layout.{items_between}
use rapidfire.Sync.{World, return}
use rapidfire.Shared.{Inner}
use rapidfire.Queue.Memory.{Act}
use rapidfire.Queue.Backoff.{snooze_limit, snooze_bounded}
use rapidfire.Queue.Observe.{claims_below}
use rapidfire.Channel.Waiters.{receiving, wake, unregister}
use rapidfire.Channel.Core.{RecvState, busy, try_recv_nonblocking}
use rapidfire.Channel.Futures.{Poll, ready, pending, recv_wait}
use rapidfire.Interference.After.{Reaches, After-Reaches, Reaches-bind}
use rapidfire.Interference.Shrinking.{disturb-Within}
use rapidfire.Interference.Attempts.{attempt-Reaches}
use rapidfire.Interference.Singles.{single_attempt-Leaves}
use rapidfire.Mpsc.Receiver
use rapidfire.Interference.Polling.{
  unregister-Returns, snooze_bounded-cases, on_backoff, on_attempt,
}

module _ {A W : Type 0} (waker : W) (id tail : ℕ) where
  -- How the loop of a receive may end. If it is ready, the future keeps no registration. If it is
  -- pending, the future keeps its own, and either no position of a value is then left between the
  -- head and `tail`, or the waker has just been called.
  abbrev pub Settled : Poll (Result A (Unit {0})) × Option ℕ → World (Inner A W) → Type 0
  Settled (ready r, left) w = left ≡ none
  Settled (pending, left) w =
      (left ≡ some id)
      × ((items_between w.shared.queue.head.index tail ≡ 0)
          ⊎ ((l : List W) × (w.shared.woken ≡ waker ∷ l)))

  module _ (n : ℕ) where
    -- From any world with no more than `n` events.
    abbrev Settles : Act A W (Poll (Result A (Unit {0})) × Option ℕ) → Type 0
    Settles m = (w : World (Inner A W)) → length w.schedule ≤ n → Reaches Settled (m w)

    on_backoff-Settled :
        (fuel : ℕ) (again : ℕ → Act A W (Poll (Result A (Unit {0})) × Option ℕ)) (polls : ℕ)
        → ((polls' : ℕ) → snooze_limit - polls' < fuel → Settles (again polls'))
        → snooze_limit - polls < suc fuel
        → Settles (on_backoff again waker id (snooze_bounded polls))
    unfolding wake
    on_backoff-Settled fuel again polls h r = elim (snooze_bounded-cases polls) [
      | inl e ↦
          subst (λ b. Settles (on_backoff again waker id b)) (sym e) (λ w _. (refl, inr (_, refl)))
      | inr (e, l) ↦
          subst (λ b. Settles (on_backoff again waker id b)) (sym e) (h (polls + 1) (omega arith))
    ]

    -- A receiver that sees no claim sees the head past them all.
    claims_below-Reaches :
        (w : World (Inner A W))
        → length w.schedule ≤ n
        → Reaches
            (λ (b : Bool) w'.
              (length w'.schedule ≤ n)
              × (b ≡ false → items_between w'.shared.queue.head.index tail ≡ 0))
            (claims_below tail w)
    unfolding claims_below
    claims_below-Reaches w h = (disturb-Within n w h, λ e. ground arith)

    on_attempt-Settled :
        (fuel : ℕ) (again : ℕ → Act A W (Poll (Result A (Unit {0})) × Option ℕ)) (polls : ℕ)
        → ((polls' : ℕ) → snooze_limit - polls' < fuel → Settles (again polls'))
        → snooze_limit - polls < suc fuel
        → (r : Result A RecvState) → Settles (on_attempt again waker id tail polls r)
    on_attempt-Settled fuel again polls h l (ok msg) w k =
        Reaches-bind (unregister receiving (some id) true) _ w (λ _ _. Unit) Settled
          (After-Reaches (λ _ _. Unit {0}) (unregister receiving (some id) true w)
            (unregister-Returns receiving (some id) true w))
          (λ _ w' _. refl)
    on_attempt-Settled fuel again polls h l (err RecvState.closed) w k =
        Reaches-bind (unregister receiving (some id) false) _ w (λ _ _. Unit) Settled
          (After-Reaches (λ _ _. Unit {0}) (unregister receiving (some id) false w)
            (unregister-Returns receiving (some id) false w))
          (λ _ w' _. refl)
    on_attempt-Settled fuel again polls h l (err busy) w k =
        on_backoff-Settled fuel again polls h l w k
    on_attempt-Settled fuel again polls h l (err RecvState.empty) w k =
        Reaches-bind (claims_below tail) _ w _ Settled (claims_below-Reaches w k) after
      where
        after :
            (b : Bool) (w' : World (Inner A W))
            → (length w'.schedule ≤ n)
              × (b ≡ false → items_between w'.shared.queue.head.index tail ≡ 0)
            → Reaches Settled (
                (if b
                    then on_backoff again waker id (snooze_bounded polls)
                    else return (pending, some id))
                  w')
        after true w' p = on_backoff-Settled fuel again polls h l w' p.0
        after false w' p = (refl, inl (p.1 refl))

    recv_wait_lem :
        (fuel : ℕ) (attempt : Act A W (Result A RecvState)) (polls : ℕ)
        → ((w : World (Inner A W))
            → length w.schedule ≤ n
            → Reaches (λ _ w'. length w'.schedule ≤ n) (attempt w))
        → snooze_limit - polls < fuel
        → Settles (recv_wait fuel attempt waker id tail polls)
    unfolding recv_wait
    recv_wait_lem zero attempt polls h r w k = absurd (omega arith)
    recv_wait_lem (suc fuel) attempt polls h r w k =
        Reaches-bind attempt (on_attempt (recv_wait fuel attempt waker id tail) waker id tail polls)
          w _ Settled (h w k)
          (λ a w' k'.
            on_attempt-Settled fuel (recv_wait fuel attempt waker id tail) polls
              (λ polls' r'. recv_wait_lem fuel attempt polls' h r') r a w' k')

  -- Whatever the other threads do: with more fuel for the loop of a receive than its backoff has
  -- steps left, and fuel for each attempt of the shared receiver as a pop needs it, the loop does not
  -- run out of fuel. Where the memory that it finds does not make it fault, it returns. If it is then
  -- ready, the future keeps no registration. If it is pending, the future keeps its registration, and
  -- right then no position of a value is left between the head and the live tail of the parking, or
  -- the loop has just called the waker itself. So a receiver does not sleep on a value that was
  -- claimed before its parking.
  pub recv_wait-Settled :
      (fuel attempts polls : ℕ) (w : World (Inner A W))
      → 2 * length w.schedule + snooze_limit + 2 ≤ attempts
      → snooze_limit - polls < fuel
      → Reaches Settled (recv_wait fuel (try_recv_nonblocking attempts) waker id tail polls w)
  recv_wait-Settled fuel attempts polls w enough r =
      recv_wait_lem (length w.schedule) fuel (try_recv_nonblocking attempts) polls
        (attempt-Reaches (length w.schedule) attempts enough) r w (omega arith)

  -- The same of the exclusive receiver, whose attempts have no loop and take no fuel: whatever the
  -- other threads do, with more fuel for the loop of a receive than its backoff has steps left, the
  -- loop does not run out of fuel. Where the memory that it finds does not make it fault, it returns.
  -- If it is then ready, the future keeps no registration. If it is pending, the future keeps its
  -- registration, and right then no position of a value is left between the head and the live tail of
  -- the parking, or the loop has just called the waker itself.
  pub single_recv_wait-Settled :
      (fuel polls : ℕ) (w : World (Inner A W))
      → snooze_limit - polls < fuel
      → Reaches Settled (recv_wait fuel Receiver.try_recv_nonblocking waker id tail polls w)
  single_recv_wait-Settled fuel polls w r =
      recv_wait_lem (length w.schedule) fuel Receiver.try_recv_nonblocking polls
        (single_attempt-Leaves (length w.schedule)) r w (omega arith)
