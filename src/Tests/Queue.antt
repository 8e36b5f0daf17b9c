-- ===== src/Tests/Queue.antt =====
-- The theorems on the queue at concrete inputs.
use rapidfire.Prelude.{ℕ, ◌≡◌, ◌≤◌, refl, some, false, [], ◌∷◌, ok, err, arith, ◌==◌, if◌then◌else◌}
use rapidfire.Layout.{unbounded}
use rapidfire.Sync.{done}
use rapidfire.Shared.{Queue, Inner, set_queue}
use rapidfire.Queue.Push.{push}
use rapidfire.Queue.Pop.{pop}
use rapidfire.Queue.Observe
use rapidfire.Channel.Core
use rapidfire.Channel.Waiters.{waiting, receiving, sending}
use rapidfire.Refine.Holds.{Represents}
use rapidfire.Refine.Claim.{quiet}
use rapidfire.Refine.Pushes.{push_refines}
use rapidfire.Refine.Pops.{pop_refines}
use rapidfire.Refine.Run.{put, get, pushed, popped, run, fifo_run, new-Represents, run_new_refines}

abbrev two_slots : Inner ℕ ℕ
two_slots = Core.new (some 2)

two_slots-Represents : Represents two_slots.queue []
unfolding Core.new
two_slots-Represents = new-Represents (some 2)

push_refines_example :
    (q' : Queue ℕ) × (push 5 (waiting receiving) 7 (quiet two_slots)
      ≡ done (ok false) (quiet (set_queue (λ _. q') two_slots)))
    × Represents q' (7 ∷ [])
    × (q'.capacity ≡ 2)
    × (q'.tail.index ≤ 2)
unfolding Core.new Observe.new
push_refines_example =
    push_refines two_slots 3 (waiting receiving) 7 two_slots-Represents (omega arith) (λ f t. refl)

-- The same channel with one value in it.
abbrev one_value : Inner ℕ ℕ
one_value = set_queue (λ _. push_refines_example.0) two_slots

pop_refines_example :
    (q' : Queue ℕ) × (pop 1 (waiting sending) (quiet one_value)
      ≡ done
          (some (7, if one_value.queue.capacity == unbounded then false else false))
          (quiet (set_queue (λ _. q') one_value)))
    × Represents q' []
    × (q'.capacity ≡ one_value.queue.capacity)
    × (q'.tail.index ≡ one_value.queue.tail.index)
unfolding Core.new
pop_refines_example = pop_refines one_value 0 (waiting sending) push_refines_example.2 (λ f t. refl)

run_new_refines_example :
    run 4 (waiting receiving) (put 7 ∷ put 8 ∷ put 9 ∷ get ∷ []) (quiet two_slots)
    ≡ pushed (ok false) ∷ pushed (ok false) ∷ pushed (err 9) ∷ popped (some (7, false)) ∷ []
unfolding Core.new run fifo_run
run_new_refines_example =
    run_new_refines (put 7 ∷ put 8 ∷ put 9 ∷ get ∷ []) (some 2) 2 (waiting receiving) (omega arith)
      (λ f t. refl)
