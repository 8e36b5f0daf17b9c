-- ===== src/Tests/Runs.antt =====
-- Runs of src/queue.rs by evaluation.
use rapidfire.Prelude.{
  ℕ, zero, suc, ◌≡◌, refl, Option, none, some, false, List, [], ◌∷◌, ◌++◌, ok, err, update,
}
use rapidfire.Sync.{World}
use rapidfire.Shared.{Inner}
use rapidfire.Queue.Push.{push, fill, find_block, install_next, claim}
use rapidfire.Queue.Pop.{pop, drain_slot, finish_block, sample}
use rapidfire.Queue.Claim.{claim_fetch_add, claim_bounded, claim_bounded_loop, is_full}
use rapidfire.Queue.Pool.{take_block, take_block_slow, recycle}
use rapidfire.Queue.Memory.{
  allocate, load_state, write_value, take_value, publish, mark_read, reset, load_marks, clear_marks,
}
use rapidfire.Layout.{items_between}
use rapidfire.Queue.Observe
use rapidfire.Channel.Core
use rapidfire.Channel.Waiters.{waiting, receiving}
use rapidfire.Refine.Claim.{quiet}
use rapidfire.Refine.Run.{Op, put, get, Reply, pushed, popped, run}

abbrev puts : ℕ → List (Op ℕ)
puts zero = []
puts (suc n) = put n ∷ puts n

abbrev gets : ℕ → List (Op ℕ)
gets zero = []
gets (suc n) = get ∷ gets n

abbrev fresh : Option ℕ → World (Inner ℕ ℕ)
fresh capacity = quiet (Core.new capacity)

-- The replies to the last calls.
abbrev last : List (Reply ℕ) → List (Reply ℕ)
last [] = []
last (r ∷ []) = r ∷ []
last (r ∷ s ∷ rs) = last (s ∷ rs)

-- 65 values go through two blocks and come out in order.
two_blocks :
    last (run 4 (waiting receiving) (puts 65 ++ gets 65) (fresh none))
    ≡ popped (some (0, false)) ∷ []
unfolding run Core.new Observe.new push claim claim_fetch_add fill find_block install_next
    take_block take_block_slow allocate write_value publish pop sample drain_slot finish_block
    load_state take_value mark_read load_marks clear_marks reset recycle update
two_blocks = refl

-- A queue of capacity 2 refuses the third value until one is taken.
full_at_two :
    run 4 (waiting receiving) (put 7 ∷ put 8 ∷ put 9 ∷ get ∷ put 9 ∷ []) (fresh (some 2))
    ≡ pushed (ok false)
      ∷ pushed (ok false)
      ∷ pushed (err 9)
      ∷ popped (some (7, false))
      ∷ pushed (ok false)
      ∷ []
unfolding run Core.new Observe.new push claim claim_bounded claim_bounded_loop is_full items_between
    fill find_block write_value publish pop sample drain_slot load_state take_value mark_read update
full_at_two = refl
