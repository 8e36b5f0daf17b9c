-- ===== src/Channel/Errors.antt =====
-- The methods of the errors of src/lib.rs, and the texts that `Display` and the `Debug` written by
-- hand give. A `SendError` is its message here, and a `RecvError` the unit.
use Prim.Native.String.{String}
use rapidfire.Prelude.{Bool, true, false}
use rapidfire.Channel.Core.{TrySendError, full, TryRecvError}

module _ {A : Type 0} where
  unfoldable pub into_inner : TrySendError A → A
  into_inner (full v) = v
  into_inner (TrySendError.closed v) = v

  unfoldable pub is_full_error : TrySendError A → Bool
  is_full_error (full v) = true
  is_full_error (TrySendError.closed v) = false

  unfoldable pub is_closed_error : TrySendError A → Bool
  is_closed_error (full v) = false
  is_closed_error (TrySendError.closed v) = true

module _ {A : Type 0} where
  unfoldable pub debug_send_error : A → String
  debug_send_error v = "SendError"

  unfoldable pub display_send_error : A → String
  display_send_error v = "sending on a closed channel"

  -- The message is not shown.
  unfoldable pub debug_try_send_error : TrySendError A → String
  debug_try_send_error (full v) = "TrySendError::Full"
  debug_try_send_error (TrySendError.closed v) = "TrySendError::Closed"

  unfoldable pub display_try_send_error : TrySendError A → String
  display_try_send_error (full v) = "sending on a full channel"
  display_try_send_error (TrySendError.closed v) = "sending on a closed channel"

unfoldable pub display_try_recv_error : TryRecvError → String
display_try_recv_error TryRecvError.empty = "receiving on an empty channel"
display_try_recv_error TryRecvError.closed = "receiving on an empty and closed channel"

unfoldable pub is_empty_error : TryRecvError → Bool
is_empty_error TryRecvError.empty = true
is_empty_error TryRecvError.closed = false

unfoldable pub is_drained_error : TryRecvError → Bool
is_drained_error TryRecvError.empty = false
is_drained_error TryRecvError.closed = true

unfoldable pub display_recv_error : Unit {0} → String
display_recv_error tt = "receiving on an empty and closed channel"
