-- ===== src/Tests/Teardown.antt =====
-- Runs of the drop of the queue by evaluation.
use rapidfire.Prelude.{ℕ, ◌≡◌, refl, update, Option, none, some, List, [], ◌∷◌}
use rapidfire.Sync.{Outcome, done, starved, fault, panicked}
use rapidfire.Shared.{Inner}
use rapidfire.Queue.Push.{push, fill, find_block, claim}
use rapidfire.Queue.Claim.{claim_fetch_add}
use rapidfire.Queue.Memory.{write_value, publish}
use rapidfire.Queue.Observe
use rapidfire.Queue.Teardown.{drop_queue, drop_values, free_chain}
use rapidfire.Channel.Core
use rapidfire.Channel.Waiters.{waiting, receiving}
use rapidfire.Refine.Claim.{quiet}

-- What the drop finds after a push.
abbrev dropped_after : {R : Type 0} → Outcome (Inner ℕ ℕ) R → Option (List ℕ × List ℕ)
dropped_after (done r w) = drop_queue w.shared.queue
dropped_after starved = none
dropped_after fault = none
dropped_after panicked = none

drop_of_none : drop_queue (Observe.new {A = ℕ} none) ≡ some ([], 0 ∷ [])
unfolding drop_queue drop_values free_chain Observe.new update
drop_of_none = refl

drop_of_one :
    dropped_after (push 3 (waiting receiving) 7 (quiet (Core.new none))) ≡ some (7 ∷ [], 0 ∷ [])
unfolding drop_queue drop_values free_chain Core.new Observe.new push claim claim_fetch_add fill
    find_block write_value publish update
drop_of_one = refl
