-- ===== src/Mpsc/Receiver.antt =====
-- `Receiver` and `Recv` of src/mpsc.rs. `recv_many` is an `async fn`: its future is at its start, or
-- waits in the inner `Recv`, which holds a waiter's id, or is complete, and panics when it is polled
-- then.
use rapidfire.Prelude.{
  ℕ, zero, suc, ◌+◌, ◌-◌, Option, none, some, Bool, ltb, ◌==◌, if◌then◌else◌, List, [], ◌∷◌, ◌++◌,
  Result, ok, err,
}
use rapidfire.Sync.{◌>>=◌, ◌>>◌, return, starve, panic}
use rapidfire.Queue.Memory.{Act}
use rapidfire.Queue.Single.{pop_single, pop_single_batch}
use rapidfire.Channel.Waiters.{sending, waiting, notify_one, notify_many}
use rapidfire.Channel.Core.{TryRecvError, RecvState, recv_state_when_empty, retry_while_busy}
use rapidfire.Channel.Futures.{Poll, ready, pending, poll_with, drop_recv}

pub data RecvMany : Type 0 where
  start : RecvMany
  awaiting : Option ℕ → RecvMany
  complete : RecvMany

module _ {A W : Type 0} where
  unfoldable pub try_recv_nonblocking : Act A W (Result A RecvState)
  try_recv_nonblocking = do
    r ← pop_single (waiting sending)
    elim r [
      | some (value, wake) ↦ (do if wake then notify_one sending else return tt; return (ok value))
      | none ↦ (do state ← recv_state_when_empty; return (err state))
    ]

  unfoldable pub try_recv : ℕ → Act A W (Result A TryRecvError)
  try_recv fuel = retry_while_busy fuel try_recv_nonblocking

  -- The buffer with what was ready, and how much that was.
  unfoldable pub try_recv_many_ready : List A → ℕ → Act A W (List A × ℕ)
  try_recv_many_ready buffer limit = do
    (buffer', count, wake) ← pop_single_batch buffer limit (waiting sending)
    if wake == 0 then return tt else notify_many sending wake
    return (buffer', count)

  -- The loop of `recv_many`: it goes on while something is ready and the limit is not reached.
  unfoldable pub fill_ready : ℕ → List A → ℕ → ℕ → Act A W (List A × ℕ)
  fill_ready zero buffer limit count = starve
  fill_ready (suc fuel) buffer limit count =
      let again = λ (b : List A) (c : ℕ). fill_ready fuel b limit c in
      if ltb count limit
      then (do
        (buffer', received) ← try_recv_many_ready buffer (limit - count)
        if received == 0 then return (buffer', count) else again buffer' (count + received))
      else return (buffer, count)

  unfoldable pub poll_recv :
      (W → W → Bool) → ℕ → W → Option ℕ → Act A W (Poll (Result A (Unit {0})) × Option ℕ)
  poll_recv will_wake fuel = poll_with will_wake fuel try_recv_nonblocking

  -- `recv_many` from its inner `recv` on; `none` there is its first poll.
  unfoldable pub await_first :
      (W → W → Bool)
      → ℕ
      → W
      → List A
      → ℕ
      → Option ℕ
      → Act A W (Poll (Result ℕ (Unit {0})) × List A × RecvMany)
  await_first will_wake fuel waker buffer limit waiter_id = do
    (p, id) ← poll_recv will_wake fuel waker waiter_id
    elim p [
      | pending ↦ return (pending, buffer, awaiting id)
      | ready r ↦ elim r [
        | err _ ↦ return (ready (err tt), buffer, complete)
        | ok value ↦ (do
          (buffer', count) ← fill_ready fuel (buffer ++ value ∷ []) limit 1
          return (ready (ok count), buffer', complete))
      ]
    ]

  unfoldable pub poll_recv_many :
      (W → W → Bool)
      → ℕ
      → W
      → List A
      → ℕ
      → RecvMany
      → Act A W (Poll (Result ℕ (Unit {0})) × List A × RecvMany)
  unfolding await_first
  poll_recv_many will_wake fuel waker buffer limit (awaiting id) =
      await_first will_wake fuel waker buffer limit id
  poll_recv_many will_wake fuel waker buffer limit complete = panic
  poll_recv_many will_wake fuel waker buffer limit start =
      if limit == 0 then return (ready (ok 0), buffer, complete) else (do
        (buffer', count) ← try_recv_many_ready buffer limit
        if count == 0 then await_first will_wake fuel waker buffer' limit none else (do
          (buffer'', total) ← fill_ready fuel buffer' limit count
          return (ready (ok total), buffer'', complete)))

  -- Dropping the future drops the `Recv` in which it waits.
  unfoldable pub drop_recv_many : RecvMany → Act A W (Unit {0})
  drop_recv_many (awaiting id) = drop_recv id
  drop_recv_many _ = return tt
