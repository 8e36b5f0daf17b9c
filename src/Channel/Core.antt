-- ===== src/Channel/Core.antt =====
-- The methods of `Inner` in src/lib.rs, over the queue and the waiter lists.
use rapidfire.Prelude.{
  ℕ, zero, suc, Option, none, some, Bool, true, false, if◌then◌else◌, [], Result, ok, err,
}
use rapidfire.Sync.{◌>>=◌, ◌>>◌, return, starve, load, fetch}
use rapidfire.Shared.{Inner, set_flags}
use rapidfire.Queue.Memory.{Act}
use rapidfire.Queue.Observe
use rapidfire.Queue.Observe.{is_empty_seqcst}
use rapidfire.Queue.Push.{push}
use rapidfire.Queue.Pop.{pop}
use rapidfire.Channel.Waiters.{receiving, sending, waiting, notify_one, notify_all}

pub data TrySendError (A : Type 0) : Type 0 where
  full : A → TrySendError A
  closed : A → TrySendError A

pub data TryRecvError : Type 0 where
  empty closed : TryRecvError

-- The outcome of a receive attempt that found no value.
pub data RecvState : Type 0 where
  empty closed busy : RecvState

module _ {A W : Type 0} where
  unfoldable pub new : Option ℕ → Inner A W
  new capacity = record {
    queue = Observe.new capacity;
    flags = record {
      closed = false;
      waiting_receivers = 0;
      waiting_senders = 0;
      senders = 1;
      receivers = 1;
      next_waiter_id = 1;
    };
    recv_waiters = [];
    send_waiters = [];
    woken = [];
  }

  unfoldable pub is_closed : Act A W Bool
  is_closed = load (λ s. s.flags.closed)

  unfoldable pub close : Act A W Bool
  close = do
    already ← fetch (λ s. s.flags.closed) (set_flags λ f. record f { closed = true })
    if already then return false else (do notify_all receiving; notify_all sending; return true)

  unfoldable pub try_send : ℕ → A → Act A W (Result (Unit {0}) (TrySendError A))
  try_send fuel msg = do
    shut ← load (λ s. s.flags.closed)
    if shut then return (err (TrySendError.closed msg)) else (do
      r ← push fuel (waiting receiving) msg
      elim r [
        | ok wake ↦ (do if wake then notify_one receiving else return tt; return (ok tt))
        | err back ↦ return (err (full back))
      ])

  unfoldable pub recv_state_when_empty : Act A W RecvState
  recv_state_when_empty = do
    shut ← load (λ s. s.flags.closed)
    if shut
        then (do drained ← is_empty_seqcst; return (if drained then RecvState.closed else busy))
        else return RecvState.empty

  unfoldable pub try_recv_nonblocking : ℕ → Act A W (Result A RecvState)
  try_recv_nonblocking fuel = do
    r ← pop fuel (waiting sending)
    elim r [
      | some (msg, wake) ↦ (do if wake then notify_one sending else return tt; return (ok msg))
      | none ↦ (do state ← recv_state_when_empty; return (err state))
    ]

  -- The loop of `try_recv` over one attempt, which the exclusive receiver shares. The thread
  -- snoozes between two attempts.
  unfoldable pub retry_while_busy :
      ℕ → Act A W (Result A RecvState) → Act A W (Result A TryRecvError)
  retry_while_busy zero attempt = starve
  retry_while_busy (suc fuel) attempt =
      let again = retry_while_busy fuel attempt in
      do
        r ← attempt
        elim r [
          | ok msg ↦ return (ok msg)
          | err state ↦ elim state [
            | empty ↦ return (err TryRecvError.empty)
            | closed ↦ return (err TryRecvError.closed)
            | busy ↦ again
          ]
        ]

  unfoldable pub try_recv : ℕ → Act A W (Result A TryRecvError)
  unfolding retry_while_busy
  try_recv fuel = retry_while_busy fuel (try_recv_nonblocking fuel)
