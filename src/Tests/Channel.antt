-- ===== src/Tests/Channel.antt =====
-- The theorems on the waiter lists and on the channel at concrete inputs.
use rapidfire.Prelude.{
  ℕ, ◌+◌, ◌≡◌, ◌≤◌, ◌⊎◌, refl, some, none, true, false, ◌==◌, [], ◌∷◌, err, update, arith,
}
use rapidfire.Sync.{done}
use rapidfire.Shared.{Queue, Inner, set_queue}
use rapidfire.Queue.Observe
use rapidfire.Queue.Observe.{is_empty_seqcst, len, claims_below}
use rapidfire.Channel.Core
use rapidfire.Channel.Core.{TrySendError, full, try_send, try_recv, close}
use rapidfire.Channel.Handles.{is_empty}
use rapidfire.Channel.Futures.{pending, poll_recv, drop_recv}
use rapidfire.Sequential.Cancelling.{issued, cancelled_receive}
use rapidfire.Channel.Waiters.{receiving, sending, registered, enqueue, unregister, cancel, has}
use rapidfire.Refine.Holds.{Represents, Represents-Contains}
use rapidfire.Refine.Claim.{quiet}
use rapidfire.Refine.Run.{new-Represents}
use rapidfire.Parked.Invariant.{IsParked, Reachable, here, after, registers, waiters_consistent}
use rapidfire.Parked.Wakes.{shut, passed_on, unregister_cancels, unregister_forwards, close_wakes}
use rapidfire.Sequential.Observe.{observers_agree}
use rapidfire.Sequential.Trying.{sent, try_send_refines, try_recv_refines}
use rapidfire.Channel.Debug.{dump_chain, debug_dump}
use rapidfire.Queue.Memory.{load_state}
use rapidfire.Sequential.Attempt.{received}
use rapidfire.Sequential.Withdrawn.{withdrawn}
use rapidfire.Sequential.Waiting.{polled, poll_recv_refines}
use rapidfire.Sequential.Sending.{PollSent, poll_send_refines}
use rapidfire.Sequential.Closing.{with_senders, drop_senders, last_drop_closes}
use rapidfire.Sequential.Handover.{IsHandedOver, receive_served}

-- A channel of two slots; a message is a number, and so is a waker.
abbrev start : Inner ℕ ℕ
start = Core.new (some 2)

-- The same with two receivers parked: the wakers 10 and 20, under the ids 1 and 2.
abbrev first_parked : Inner ℕ ℕ
first_parked = (registered (λ a b. a == b) receiving none 10 start).1

abbrev two_parked : Inner ℕ ℕ
two_parked = (registered (λ a b. a == b) receiving none 20 first_parked).1

start-Represents : Represents start.queue []
unfolding Core.new
start-Represents = new-Represents (some 2)

two_parked-Represents : Represents two_parked.queue []
unfolding Core.new registered enqueue
two_parked-Represents = new-Represents (some 2)

two_parked-Reachable : Reachable (λ a b. a == b) start two_parked
unfolding Core.new registered enqueue
two_parked-Reachable =
    after first_parked two_parked
      (after start first_parked here
        (registers start receiving none 10 tt (omega arith) (omega arith)))
      (registers first_parked receiving none 20 tt (omega arith) (omega arith))

waiters_consistent_example : IsParked two_parked
waiters_consistent_example =
    waiters_consistent (λ a b. a == b) (some 2) two_parked two_parked-Reachable

start-IsParked : IsParked start
start-IsParked = waiters_consistent (λ a b. a == b) (some 2) start here

two_parked-IsParked : IsParked two_parked
two_parked-IsParked = waiters_consistent (λ a b. a == b) (some 2) two_parked two_parked-Reachable

unregister_cancels_example :
    unregister receiving (some 2) false (quiet two_parked)
    ≡ done tt (quiet (cancel receiving 2 two_parked))
unregister_cancels_example = unregister_cancels two_parked receiving 2 two_parked-IsParked

unregister_forwards_example :
    unregister receiving (some 5) true (quiet two_parked)
    ≡ done tt (quiet (passed_on receiving ((1, 10) ∷ (2, 20) ∷ []) two_parked))
unfolding Core.new registered enqueue has
unregister_forwards_example = unregister_forwards two_parked receiving 5 two_parked-IsParked

close_wakes_example : close (quiet two_parked) ≡ done true (quiet (shut two_parked))
unfolding Core.new registered enqueue
close_wakes_example = close_wakes two_parked

observers_agree_example :
    (len (quiet two_parked) ≡ done 0 (quiet two_parked))
    × (is_empty (quiet two_parked) ≡ done true (quiet two_parked))
    × (is_empty_seqcst (quiet two_parked) ≡ done true (quiet two_parked))
    × (claims_below two_parked.queue.tail.index (quiet two_parked) ≡ done false (quiet two_parked))
observers_agree_example = observers_agree two_parked (Represents-Contains two_parked-Represents)

try_send_refines_example :
    (two_parked.flags.closed ≡ true)
      × (try_send 2 7 (quiet two_parked) ≡ done (err (TrySendError.closed 7)) (quiet two_parked))
    ⊎ (two_parked.flags.closed ≡ false)
      × (q' : Queue ℕ) × (try_send 2 7 (quiet two_parked)
          ≡ sent 7 true (set_queue (λ _. q') two_parked))
      × Represents q' (7 ∷ [])
      × (q'.capacity ≡ two_parked.queue.capacity)
      × (q'.tail.index ≤ two_parked.queue.tail.index + 2)
unfolding Core.new Observe.new registered enqueue
try_send_refines_example =
    try_send_refines two_parked 0 7 two_parked-Represents two_parked-IsParked (omega arith)

try_recv_refines_example :
    (q' : Queue ℕ) × (try_recv 1 (quiet two_parked)
      ≡ received two_parked.queue.capacity [] (set_queue (λ _. q') two_parked))
    × Represents q' []
    × (q'.capacity ≡ two_parked.queue.capacity)
    × (q'.tail.index ≡ two_parked.queue.tail.index)
try_recv_refines_example = try_recv_refines two_parked 0 two_parked-Represents two_parked-IsParked

poll_recv_refines_example :
    (q' : Queue ℕ) × (poll_recv (λ a b. a == b) 1 20 (some 2) (quiet two_parked)
      ≡ polled
          (λ a b. a == b)
          20
          two_parked.queue.capacity
          []
          (set_queue (λ _. q') (withdrawn receiving (some 2) two_parked)))
    × Represents q' []
    × (q'.capacity ≡ two_parked.queue.capacity)
    × (q'.tail.index ≡ two_parked.queue.tail.index)
poll_recv_refines_example =
    poll_recv_refines two_parked 0 (λ a b. a == b) 20 (some 2) two_parked-Represents
      two_parked-IsParked

poll_send_refines_example :
    PollSent 0 (λ a b. a == b) 30 7 none two_parked (withdrawn sending none two_parked) []
unfolding Core.new Observe.new registered enqueue
poll_send_refines_example =
    poll_send_refines two_parked 0 (λ a b. a == b) 30 none 7 two_parked-Represents
      two_parked-IsParked (omega arith)

receive_served_example : IsHandedOver 0 (λ a b. a == b) 10 7 start
unfolding Core.new Observe.new
receive_served_example =
    receive_served start 0 (λ a b. a == b) 10 7 start-Represents start-IsParked refl refl refl
      (omega arith) (omega arith)

last_drop_closes_example :
    (drop_senders 1 (quiet (with_senders 2 two_parked))
      ≡ done tt (quiet (with_senders 1 two_parked)))
    × (drop_senders 2 (quiet (with_senders 2 two_parked))
        ≡ done tt (quiet (shut (with_senders 0 two_parked))))
unfolding Core.new registered enqueue
last_drop_closes_example = last_drop_closes 1 two_parked (omega arith) refl

cancelled_receive_example :
    (t : Inner ℕ ℕ) × (q' : Queue ℕ) × (poll_recv (λ a b. a == b) 1 30 none (quiet two_parked)
      ≡ done (pending, some 3) (quiet t))
    × (drop_recv (some 3) (quiet t) ≡ done tt (quiet (issued (set_queue (λ _. q') two_parked))))
    × Represents q' []
    × (q'.capacity ≡ two_parked.queue.capacity)
    × (q'.tail.index ≡ two_parked.queue.tail.index)
unfolding Core.new registered enqueue
cancelled_receive_example =
    cancelled_receive two_parked 0 (λ a b. a == b) 30 two_parked-Represents two_parked-IsParked refl

-- The dump of a new channel.
new_dump :
    debug_dump (quiet start)
    ≡ done
        (record {
          head = 0;
          head_block = 0;
          head_start = 0;
          head_slot_state = 0;
          head_contended = 0;
          tail = 0;
          tail_block = 0;
          tail_start = 0;
          tail_contended = 0;
          spare = none;
          pooled_blocks = 0;
          chain = record { block = 0; start = 0; next = none } ∷ [];
        })
        (quiet start)
unfolding debug_dump dump_chain load_state Core.new Observe.new update
new_dump = refl
