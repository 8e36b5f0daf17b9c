-- ===== src/Channel/Sender.antt =====
-- The methods of `Sender` in src/lib.rs that the handles' other modules do not have: each is a call
-- of the shared channel.
use rapidfire.Prelude.{ℕ, Option, Bool, Result}
use rapidfire.Sync.{done}
use rapidfire.Queue.Memory.{Act}
use rapidfire.Queue.Observe
use rapidfire.Channel.Core
use rapidfire.Channel.Core.{TrySendError}

module _ {A W : Type 0} where
  unfoldable pub try_send : ℕ → A → Act A W (Result (Unit {0}) (TrySendError A))
  try_send fuel msg = Core.try_send fuel msg

  unfoldable pub close : Act A W Bool
  close = Core.close

  unfoldable pub is_closed : Act A W Bool
  is_closed = Core.is_closed

  unfoldable pub len : Act A W ℕ
  len = Observe.len

  -- The capacity is a field that does not change: reading it is no shared access.
  unfoldable pub capacity : Act A W (Option ℕ)
  capacity w = done (Observe.capacity w.shared.queue) w
