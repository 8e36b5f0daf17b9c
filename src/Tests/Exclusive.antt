-- ===== src/Tests/Exclusive.antt =====
-- The theorems on the exclusive receiver at concrete inputs.
use rapidfire.Prelude.{
  ℕ, ◌≡◌, ◌≢◌, ◌≤◌, refl, some, none, false, not, ◌==◌, List, [], ◌∷◌, take, drop, min, ok, arith,
}
use rapidfire.Sync.{done}
use rapidfire.Shared.{Queue, Inner, set_queue}
use rapidfire.Queue.Observe
use rapidfire.Queue.Single.{pop_single, pop_single_batch}
use rapidfire.Channel.Core
use rapidfire.Channel.Waiters.{sending, receiving, waiting}
use rapidfire.Channel.Futures.{ready}
use rapidfire.Mpsc.Receiver.{start, awaiting, complete, try_recv, poll_recv, poll_recv_many}
use rapidfire.Refine.Holds.{Represents, Contains, Represents-Contains}
use rapidfire.Refine.Claim.{quiet}
use rapidfire.Refine.Run.{new-Represents}
use rapidfire.Parked.Invariant.{IsParked, here, waiters_consistent}
use rapidfire.Sequential.Attempt.{received}
use rapidfire.Sequential.Withdrawn.{withdrawn}
use rapidfire.Sequential.Waiting.{polled}
use rapidfire.Exclusive.Single.{wake_count}
use rapidfire.Exclusive.Pop.{pop_single_refines}
use rapidfire.Exclusive.Batches.{pop_single_batch_refines}
use rapidfire.Exclusive.Trying.{single_try_recv_refines, single_poll_recv_refines}
use rapidfire.Exclusive.Waking.{IsServed}
use rapidfire.Exclusive.RecvMany.{recv_many_takes, recv_many_resumes}
use rapidfire.Exclusive.RecvNone.{none_found, recv_many_waits}
use rapidfire.Exclusive.RoundTrip.{send_all, send_all_lem, sent_then_received}

abbrev two : ℕ
two = 2

abbrev three : List ℕ
three = 5 ∷ 6 ∷ 7 ∷ []

-- A channel of four slots; a message is a number, and so is a waker.
abbrev four_slots : Inner ℕ ℕ
four_slots = Core.new (some 4)

four_slots-Represents : Represents four_slots.queue []
unfolding Core.new
four_slots-Represents = new-Represents (some 4)

four_slots-IsParked : IsParked four_slots
four_slots-IsParked = waiters_consistent (λ a b. a == b) (some 4) four_slots here

sent_three :
    (t : Inner ℕ ℕ) × (send_all 2 (5 ∷ 6 ∷ 7 ∷ []) (quiet four_slots)
      ≡ done (ok tt ∷ ok tt ∷ ok tt ∷ []) (quiet t))
    × Represents t.queue (5 ∷ 6 ∷ 7 ∷ [])
    × IsParked t
unfolding Core.new Observe.new
sent_three =
    send_all_lem (5 ∷ 6 ∷ 7 ∷ []) [] four_slots 0 four_slots-Represents four_slots-IsParked refl
      (omega arith) (omega arith)

-- The same channel after three messages were sent.
abbrev three_values : Inner ℕ ℕ
three_values = sent_three.0

three_values-Contains : Contains three_values.queue (5 ∷ 6 ∷ 7 ∷ [])
three_values-Contains = Represents-Contains sent_three.2

some_values : three ≢ []
some_values e = cc

pop_single_refines_example :
    (q' : Queue ℕ) × (pop_single (waiting sending) (quiet three_values)
      ≡ done
          (some (5, not (wake_count three_values (waiting sending) == 0)))
          (quiet (set_queue (λ _. q') three_values)))
    × Contains q' (6 ∷ 7 ∷ [])
    × (q'.capacity ≡ three_values.queue.capacity)
    × (q'.tail.index ≡ three_values.queue.tail.index)
pop_single_refines_example =
    pop_single_refines three_values (waiting sending) three_values-Contains (λ f t. refl)

pop_single_batch_refines_example :
    (k : ℕ) × (k ≤ 2)
    × (k ≤ 3)
    × (two ≢ 0 → three ≢ [] → k ≢ 0)
    × ((q' : Queue ℕ) × (pop_single_batch (9 ∷ []) 2 (waiting sending) (quiet three_values)
          ≡ done
              (9 ∷ take k (5 ∷ 6 ∷ 7 ∷ []), k, min (wake_count three_values (waiting sending)) k)
              (quiet (set_queue (λ _. q') three_values)))
        × Contains q' (drop k (5 ∷ 6 ∷ 7 ∷ []))
        × (q'.capacity ≡ three_values.queue.capacity)
        × (q'.tail.index ≡ three_values.queue.tail.index))
pop_single_batch_refines_example =
    pop_single_batch_refines three_values (9 ∷ []) 2 (waiting sending) three_values-Contains
      (λ f t. refl)

single_try_recv_refines_example :
    (q' : Queue ℕ) × (try_recv 1 (quiet three_values)
      ≡ received three_values.queue.capacity (5 ∷ 6 ∷ 7 ∷ []) (set_queue (λ _. q') three_values))
    × Contains q' (6 ∷ 7 ∷ [])
    × (q'.capacity ≡ three_values.queue.capacity)
    × (q'.tail.index ≡ three_values.queue.tail.index)
single_try_recv_refines_example =
    single_try_recv_refines three_values 0 three_values-Contains sent_three.3

single_poll_recv_refines_example :
    (q' : Queue ℕ) × (poll_recv (λ a b. a == b) 1 20 none (quiet three_values)
      ≡ polled
          (λ a b. a == b)
          20
          three_values.queue.capacity
          (5 ∷ 6 ∷ 7 ∷ [])
          (set_queue (λ _. q') (withdrawn receiving none three_values)))
    × Contains q' (6 ∷ 7 ∷ [])
    × (q'.capacity ≡ three_values.queue.capacity)
    × (q'.tail.index ≡ three_values.queue.tail.index)
single_poll_recv_refines_example =
    single_poll_recv_refines three_values 0 (λ a b. a == b) 20 none three_values-Contains
      sent_three.3

recv_many_takes_example :
    (t : Inner ℕ ℕ) × (poll_recv_many (λ a b. a == b) 2 20 (9 ∷ []) 2 start (quiet three_values)
      ≡ done (ready (ok (min 2 3)), 9 ∷ take (min 2 3) (5 ∷ 6 ∷ 7 ∷ []), complete) (quiet t))
    × Contains t.queue (drop (min 2 3) (5 ∷ 6 ∷ 7 ∷ []))
    × IsServed three_values t (min 2 3)
recv_many_takes_example =
    recv_many_takes three_values 2 (λ a b. a == b) 20 (9 ∷ []) 2 three_values-Contains sent_three.3
      some_values (omega arith) (omega arith)

recv_many_resumes_example :
    (t : Inner ℕ ℕ) × (poll_recv_many
        (λ a b. a == b)
        2
        20
        (9 ∷ [])
        2
        (awaiting (some 1))
        (quiet three_values)
      ≡ done (ready (ok (min 2 3)), 9 ∷ take (min 2 3) (5 ∷ 6 ∷ 7 ∷ []), complete) (quiet t))
    × Contains t.queue (drop (min 2 3) (5 ∷ 6 ∷ 7 ∷ []))
    × IsServed (withdrawn receiving (some 1) three_values) t (min 2 3)
recv_many_resumes_example =
    recv_many_resumes three_values (5 ∷ 6 ∷ 7 ∷ []) 2 (λ a b. a == b) 20 (9 ∷ []) 2 (some 1)
      three_values-Contains sent_three.3 some_values (omega arith) (omega arith)

recv_many_waits_example :
    (t : Inner ℕ ℕ) × (poll_recv_many (λ a b. a == b) 1 20 (9 ∷ []) 2 start (quiet four_slots)
      ≡ none_found false (9 ∷ []) 1 t)
    × Contains t.queue []
    × (t.recv_waiters ≡ (1, 20) ∷ [])
    × (t.send_waiters ≡ [])
    × (t.woken ≡ [])
unfolding Core.new
recv_many_waits_example =
    recv_many_waits four_slots 0 (λ a b. a == b) 20 (9 ∷ []) 2
      (Represents-Contains four_slots-Represents) four_slots-IsParked (omega arith)

sent_then_received_example :
    (t : Inner ℕ ℕ) × (u : Inner ℕ ℕ) × (send_all 2 (5 ∷ 6 ∷ 7 ∷ []) (quiet four_slots)
      ≡ done (ok tt ∷ ok tt ∷ ok tt ∷ []) (quiet t))
    × (poll_recv_many (λ a b. a == b) 10 20 (9 ∷ []) 10 start (quiet t)
        ≡ done (ready (ok 3), 9 ∷ 5 ∷ 6 ∷ 7 ∷ [], complete) (quiet u))
    × Contains u.queue []
unfolding Core.new Observe.new
sent_then_received_example =
    sent_then_received four_slots (5 ∷ 6 ∷ 7 ∷ []) 0 10 (λ a b. a == b) 20 (9 ∷ []) 10
      four_slots-Represents four_slots-IsParked refl some_values (omega arith) (omega arith)
      (omega arith) (omega arith)
