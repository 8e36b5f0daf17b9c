-- ===== src/Tests/Interference.antt =====
-- The theorems on interference at a concrete schedule.
use rapidfire.Prelude.{ℕ, ◌+◌, refl, some, none, [], ◌∷◌, arith}
use rapidfire.Layout.{add_usize}
use rapidfire.Sync.{World, act, spurious}
use rapidfire.Shared.{Inner, set_head_index, set_tail_index}
use rapidfire.Queue.Claim.{claim_bounded}
use rapidfire.Queue.Observe
use rapidfire.Channel.Core
use rapidfire.Channel.Core.{try_recv_nonblocking}
use rapidfire.Channel.Futures.{recv_wait}
use rapidfire.Interference.Parking.{Settled, recv_wait-Settled, single_recv_wait-Settled}
use rapidfire.Mpsc.Receiver
use rapidfire.Interference.Unbounded.{Claimed, claim-Fresh}
use rapidfire.Queue.Push.{claim}
use rapidfire.Interference.Ending.{Ends}
use rapidfire.Interference.Popping.{pop-Ends}
use rapidfire.Queue.Pop.{pop}
use rapidfire.Interference.After.{After, Reaches}
use rapidfire.Interference.Capacity.{Admitted, claim_bounded_admits}

-- A new channel of two slots, before a failure of an exchange and an advance of the head.
abbrev disturbed : World (Inner ℕ ℕ)
disturbed = record {
  shared = Core.new (some 2);
  schedule = spurious ∷ act (λ s. set_head_index (s.queue.head.index + 1) s) ∷ [];
}

claim_bounded_admits_example : After (Admitted 2) (claim_bounded 9 2 disturbed)
unfolding Core.new Observe.new
claim_bounded_admits_example =
    claim_bounded_admits 9 2 disturbed
      (omega arith, (tt, ((λ s. (omega arith, λ c. omega arith)), tt))) (omega arith)

-- The first exchange or load of the poll may be overtaken, and the head moves.
recv_wait-Settled_example :
    Reaches (Settled 10 1 0) (recv_wait 73 (try_recv_nonblocking 80) 10 1 0 0 disturbed)
recv_wait-Settled_example = recv_wait-Settled 10 1 0 73 80 0 disturbed (omega arith) (omega arith)

single_recv_wait-Settled_example :
    Reaches (Settled 10 1 0) (recv_wait 73 Receiver.try_recv_nonblocking 10 1 0 0 disturbed)
single_recv_wait-Settled_example = single_recv_wait-Settled 10 1 0 73 0 disturbed (omega arith)

-- A new unbounded channel, before another thread's claim.
abbrev claimed_elsewhere : World (Inner ℕ ℕ)
claimed_elsewhere = record {
  shared = Core.new none;
  schedule = act (λ s. set_tail_index (add_usize s.queue.tail.index 1) s) ∷ [];
}

claim-Fresh_example : After (Claimed 1 claimed_elsewhere 0) (claim 6 claimed_elsewhere)
unfolding Core.new Observe.new
claim-Fresh_example =
    claim-Fresh 1 6 0 claimed_elsewhere refl
      (omega arith, ((λ s room. (ground arith, ground arith)), tt)) (omega arith)

-- The first exchange of the pop may fail, and the head moves.
pop-Ends_example : Ends (pop 80 (λ s. 0) disturbed)
pop-Ends_example = pop-Ends 80 (λ s. 0) disturbed (omega arith)
