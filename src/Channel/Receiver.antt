-- ===== src/Channel/Receiver.antt =====
-- The methods of `Receiver` in src/lib.rs: each is a call of the shared channel.
use rapidfire.Prelude.{ℕ, Option, Bool, Result, ◌==◌}
use rapidfire.Sync.{done, load, return, ◌>>=◌}
use rapidfire.Queue.Memory.{Act}
use rapidfire.Queue.Observe
use rapidfire.Channel.Core
use rapidfire.Channel.Core.{TryRecvError}

module _ {A W : Type 0} where
  unfoldable pub try_recv : ℕ → Act A W (Result A TryRecvError)
  try_recv fuel = Core.try_recv fuel

  unfoldable pub close : Act A W Bool
  close = Core.close

  unfoldable pub is_closed : Act A W Bool
  is_closed = Core.is_closed

  unfoldable pub len : Act A W ℕ
  len = Observe.len

  unfoldable pub is_empty : Act A W Bool
  unfolding len
  is_empty = do n ← len; return (n == 0)

  unfoldable pub capacity : Act A W (Option ℕ)
  capacity w = done (Observe.capacity w.shared.queue) w

  unfoldable pub sender_count : Act A W ℕ
  sender_count = load (λ s. s.flags.senders)

  unfoldable pub receiver_count : Act A W ℕ
  receiver_count = load (λ s. s.flags.receivers)
