-- ===== src/Mpsc/Handles.antt =====
-- The constructors of src/mpsc.rs, and the methods of its `Receiver` that do not receive: they are
-- those of the channel and of the receiver of src/lib.rs, which it wraps.
use rapidfire.Prelude.{ℕ, Option, Bool}
use rapidfire.Shared.{Inner}
use rapidfire.Queue.Memory.{Act}
use rapidfire.Channel.Handles.{open_unbounded, open_bounded}
use rapidfire.Channel.Receiver

module _ {A W : Type 0} where
  unfoldable pub open_single_unbounded : Inner A W
  open_single_unbounded = open_unbounded

  -- `none`: the source panics.
  unfoldable pub open_single_bounded : ℕ → Option (Inner A W)
  open_single_bounded capacity = open_bounded capacity

  unfoldable pub close : Act A W Bool
  close = Receiver.close

  unfoldable pub is_closed : Act A W Bool
  is_closed = Receiver.is_closed

  unfoldable pub len : Act A W ℕ
  len = Receiver.len

  unfoldable pub is_empty : Act A W Bool
  is_empty = Receiver.is_empty

  unfoldable pub capacity : Act A W (Option ℕ)
  capacity = Receiver.capacity

  unfoldable pub sender_count : Act A W ℕ
  sender_count = Receiver.sender_count
