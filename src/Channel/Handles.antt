-- ===== src/Channel/Handles.antt =====
-- Constructors, `Clone`, `Drop` and the observers of the handles in src/lib.rs. A handle is a
-- reference to the shared channel, so its methods are actions on it.
use rapidfire.Prelude.{ℕ, Option, none, some, Bool, ◌==◌, if◌then◌else◌}
use rapidfire.Layout.{add_usize}
use rapidfire.Sync.{◌>>=◌, return, load, fetch}
use rapidfire.Shared.{Inner, set_flags}
use rapidfire.Queue.Memory.{Act}
use rapidfire.Queue.Observe.{len}
use rapidfire.Channel.Waiters.{sub_usize}
use rapidfire.Channel.Core.{new, close}

module _ {A W : Type 0} where
  unfoldable pub open_unbounded : Inner A W
  unfolding new
  open_unbounded = new none

  -- `none`: the source panics.
  unfoldable pub open_bounded : ℕ → Option (Inner A W)
  unfolding new
  open_bounded capacity = if capacity == 0 then none else some (new (some capacity))

  unfoldable pub clone_sender : Act A W (Unit {0})
  clone_sender = fetch (λ _. tt) (set_flags λ f. record f { senders = add_usize f.senders 1 })

  unfoldable pub clone_receiver : Act A W (Unit {0})
  clone_receiver = fetch (λ _. tt) (set_flags λ f. record f { receivers = add_usize f.receivers 1 })

  unfoldable pub drop_sender : Act A W (Unit {0})
  drop_sender = do
    n ← fetch (λ s. s.flags.senders) (set_flags λ f. record f { senders = sub_usize f.senders 1 })
    if n == 1 then (do _ ← close; return tt) else return tt

  unfoldable pub drop_receiver : Act A W (Unit {0})
  drop_receiver = do
    n ←
        fetch (λ s. s.flags.receivers)
          (set_flags λ f. record f { receivers = sub_usize f.receivers 1 })
    if n == 1 then (do _ ← close; return tt) else return tt

  unfoldable pub is_empty : Act A W Bool
  is_empty = do n ← len; return (n == 0)

  unfoldable pub sender_count : Act A W ℕ
  sender_count = load (λ s. s.flags.senders)

  unfoldable pub receiver_count : Act A W ℕ
  receiver_count = load (λ s. s.flags.receivers)
