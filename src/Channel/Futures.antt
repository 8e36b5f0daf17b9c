-- ===== src/Channel/Futures.antt =====
-- The futures `Send` and `Recv` of src/lib.rs: `poll`, and `Drop` on cancellation.
use rapidfire.Prelude.{
  ℕ, zero, suc, Option, none, some, Bool, true, false, if◌then◌else◌, Result, ok, err,
}
use rapidfire.Sync.{◌>>=◌, ◌>>◌, return, starve, panic}
use rapidfire.Queue.Memory.{Act}
use rapidfire.Queue.Backoff.{snooze_bounded}
use rapidfire.Queue.Observe.{receiver_parking, sender_parking, claims_below}
use rapidfire.Channel.Waiters.{receiving, sending, register, unregister, wake}
use rapidfire.Channel.Core.{TrySendError, RecvState, try_send, try_recv_nonblocking}

pub data Poll (R : Type 0) : Type 0 where
  ready : R → Poll R
  pending : Poll R

-- The state of a `Send` future; `Recv` has only a waiter's id.
pub record Send (A : Type 0) : Type 0 where
  pub msg : Option A
  pub waiter_id : Option ℕ

abbrev pub finished : {A : Type 0} → Send A
finished = record { msg = none; waiter_id = none }

-- `Sender::send` and `Receiver::recv`: the futures before their first poll.
unfoldable pub send : {A : Type 0} → A → Send A
send msg = record { msg = some msg; waiter_id = none }

abbrev pub recv : Option ℕ
recv = none

module _ {A W : Type 0} where
  -- The second attempt, after the registration under an id.
  unfoldable pub resend : ℕ → A → ℕ → Act A W (Poll (Result (Unit {0}) A) × Send A)
  resend fuel msg id = do
    r ← try_send fuel msg
    elim r [
      | ok _ ↦ (do unregister sending (some id) true; return (ready (ok tt), finished))
      | err e ↦ elim e [
        | TrySendError.closed back ↦ (do
          unregister sending (some id) false
          return (ready (err back), finished))
        | TrySendError.full back ↦ return (pending, record { msg = some back; waiter_id = some id })
      ]
    ]

  -- `poll` from the message on; the earlier registration is consumed. `expect` panics without one.
  unfoldable pub send_msg :
      (W → W → Bool) → ℕ → W → Option A → Act A W (Poll (Result (Unit {0}) A) × Send A)
  unfolding resend
  send_msg will_wake fuel waker none = panic
  send_msg will_wake fuel waker (some msg) = do
    r ← try_send fuel msg
    elim r [
      | ok _ ↦ return (ready (ok tt), finished)
      | err e ↦ elim e [
        | TrySendError.closed back ↦ return (ready (err back), finished)
        | TrySendError.full back ↦ (do
          id ← register will_wake sending none waker
          sender_parking
          resend fuel back id)
      ]
    ]

  unfoldable pub poll_send :
      (W → W → Bool) → ℕ → W → Send A → Act A W (Poll (Result (Unit {0}) A) × Send A)
  unfolding send_msg
  poll_send will_wake fuel waker this = do
    unregister sending this.waiter_id false
    send_msg will_wake fuel waker this.msg

  unfoldable pub drop_send : Send A → Act A W (Unit {0})
  drop_send this = unregister sending this.waiter_id true

  -- The loop of `Recv::poll` after the registration under an id, over one attempt to receive; both
  -- receivers have it. `tail` is the live tail of the parking, `polls` the backoff.
  unfoldable pub recv_wait :
      ℕ
      → Act A W (Result A RecvState)
      → W
      → ℕ
      → ℕ
      → ℕ
      → Act A W (Poll (Result A (Unit {0})) × Option ℕ)
  recv_wait zero attempt waker id tail polls = starve
  recv_wait (suc fuel) attempt waker id tail polls =
      let again = λ (polls' : ℕ). recv_wait fuel attempt waker id tail polls' in
      let yielding =
        (let (polls', more) = snooze_bounded polls in
          if more then again polls' else (do wake waker; return (pending, some id))) in
      do
        r ← attempt
        elim r [
          | ok msg ↦ (do unregister receiving (some id) true; return (ready (ok msg), none))
          | err state ↦ elim state [
            | RecvState.closed ↦ (do
              unregister receiving (some id) false
              return (ready (err tt), none))
            | RecvState.busy ↦ yielding
            | RecvState.empty ↦ (do
              claimed ← claims_below tail
              if claimed then yielding else return (pending, some id))
          ]
        ]

  -- `Recv::poll` over one attempt to receive. The registration is new: the earlier one was consumed.
  unfoldable pub poll_with :
      (W → W → Bool)
      → ℕ
      → Act A W (Result A RecvState)
      → W
      → Option ℕ
      → Act A W (Poll (Result A (Unit {0})) × Option ℕ)
  unfolding recv_wait
  poll_with will_wake fuel attempt waker waiter_id = do
    unregister receiving waiter_id false
    r ← attempt
    let park = (do
      id ← register will_wake receiving none waker
      tail ← receiver_parking
      recv_wait fuel attempt waker id tail 0)
    elim r [
      | ok msg ↦ return (ready (ok msg), none)
      | err state ↦ elim state [
        | RecvState.closed ↦ return (ready (err tt), none)
        | RecvState.empty ↦ park
        | RecvState.busy ↦ park
      ]
    ]

  unfoldable pub poll_recv :
      (W → W → Bool) → ℕ → W → Option ℕ → Act A W (Poll (Result A (Unit {0})) × Option ℕ)
  unfolding poll_with
  poll_recv will_wake fuel = poll_with will_wake fuel (try_recv_nonblocking fuel)

  unfoldable pub drop_recv : Option ℕ → Act A W (Unit {0})
  drop_recv waiter_id = unregister receiving waiter_id true
