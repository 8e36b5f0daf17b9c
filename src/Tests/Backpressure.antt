-- ===== src/Tests/Backpressure.antt =====
-- The theorems on a full channel, and on a closed one that has a value, at concrete inputs.
use rapidfire.Prelude.{ℕ, ◌≡◌, ◌≤◌, refl, some, true, false, ◌==◌, [], ◌∷◌, ok, err, arith}
use rapidfire.Sync.{done}
use rapidfire.Shared.{Queue, Inner, set_queue, set_flags}
use rapidfire.Queue.Push.{push}
use rapidfire.Queue.Observe
use rapidfire.Channel.Core
use rapidfire.Channel.Core.{TryRecvError}
use rapidfire.Channel.Waiters.{waiting, receiving}
use rapidfire.Fifo
use rapidfire.Refine.Holds.{Represents}
use rapidfire.Refine.Claim.{quiet}
use rapidfire.Refine.Pushes.{push_refines}
use rapidfire.Refine.Run.{new-Represents}
use rapidfire.Parked.Invariant.{IsParked, here, waiters_consistent}
use rapidfire.Sequential.Draining.{receive_all, closed_drains}
use rapidfire.Sequential.Backpressure.{MakesRoom, send_relieved}

-- A channel of one slot, and the same with a value in it.
abbrev one_slot : Inner ℕ ℕ
one_slot = Core.new (some 1)

one_slot-Represents : Represents one_slot.queue []
unfolding Core.new
one_slot-Represents = new-Represents (some 1)

stored :
    (q' : Queue ℕ) × (push 2 (waiting receiving) 5 (quiet one_slot)
      ≡ done (ok false) (quiet (set_queue (λ _. q') one_slot)))
    × Represents q' (5 ∷ [])
    × (q'.capacity ≡ 1)
    × (q'.tail.index ≤ 2)
unfolding Core.new Observe.new
stored =
    push_refines one_slot 0 (waiting receiving) 5 one_slot-Represents (omega arith) (λ f t. refl)

abbrev full_slot : Inner ℕ ℕ
full_slot = set_queue (λ _. stored.0) one_slot

full_slot-IsParked : IsParked full_slot
unfolding Core.new
full_slot-IsParked = waiters_consistent (λ a b. a == b) (some 1) one_slot here

is_full-full_slot : Fifo.is_full {A = ℕ} full_slot.queue.capacity (5 ∷ []) ≡ true
is_full-full_slot = ground (arith, stored.3)

send_relieved_example : MakesRoom 0 (λ a b. a == b) 30 7 5 full_slot
unfolding Core.new
send_relieved_example =
    send_relieved full_slot 0 (λ a b. a == b) 30 7 5 [] stored.2 full_slot-IsParked refl refl
      is_full-full_slot (omega arith) (omega (arith, stored.4))

-- The same channel closed.
abbrev closed_slot : Inner ℕ ℕ
closed_slot = set_flags (λ f. record f { closed = true }) full_slot

closed_drains_example :
    (t : Inner ℕ ℕ) × (receive_all 1 2 (quiet closed_slot)
      ≡ done (ok 5 ∷ err TryRecvError.closed ∷ []) (quiet t))
    × Represents t.queue []
unfolding Core.new
closed_drains_example =
    closed_drains (5 ∷ []) closed_slot 0 stored.2
      (waiters_consistent (λ a b. a == b) (some 1) one_slot here) refl
