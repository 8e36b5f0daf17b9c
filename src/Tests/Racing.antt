-- ===== src/Tests/Racing.antt =====
-- Pushes and a pop of a bounded queue that interleave, at a concrete run.
use rapidfire.Prelude.{ℕ, zero, suc, ◌≤◌, ◌≡◌, refl, List, [], ◌∷◌, some, false, update, ◌⊎◌, arith}
use rapidfire.Layout.{items_between}
use rapidfire.Shared.{Inner}
use rapidfire.Queue.Observe
use rapidfire.Channel.Core
use rapidfire.Threads.Program.{Program, access, ◌>>=◌, return}
use rapidfire.Threads.System.{System, turn, Reach, here, later}
use rapidfire.Threads.Claim.{claim, claim_bounded, claim_bounded_loop, is_full}
use rapidfire.Threads.Push.{push, complete, fill, find_block, write_value, publish}
use rapidfire.Threads.Pop.{pop, pop_loop, load_state}
use rapidfire.Threads.Seeking.{tail_index}
use rapidfire.Threads.Roles.{head_index}
use rapidfire.Threads.Phases.{Settled}
use rapidfire.Threads.Capacity.{Actor, pushing, popping, capacity_kept, head_advances}

-- No receiver waits.
abbrev no_flag : Inner ℕ ℕ → ℕ
no_flag s = 0

-- Two threads push; all others pop.
abbrev worker : ℕ → Program (Inner ℕ ℕ) (Unit {0})
worker zero = push 3 1 no_flag 10 >>= λ _. return tt
worker (suc zero) = push 3 1 no_flag 11 >>= λ _. return tt
worker (suc (suc i)) = pop 3 1 no_flag >>= λ _. return tt

worker-Actor : (i : ℕ) → Actor 1 (worker i)
unfolding Settled
worker-Actor zero = pushing 3 no_flag 10 (λ _. return tt) (λ _. tt)
worker-Actor (suc zero) = pushing 3 no_flag 11 (λ _. return tt) (λ _. tt)
worker-Actor (suc (suc i)) = popping 3 no_flag (λ _. return tt) (λ _. tt)

-- A new channel with room for one value.
abbrev racing : System (Inner ℕ ℕ) (Unit {0})
racing = record { shared = Core.new (some 1); thread = worker }

-- The next access of a thread.
abbrev advance : ℕ → System (Inner ℕ ℕ) (Unit {0}) → System (Inner ℕ ℕ) (Unit {0})
advance i s = elim (s.thread i) [
  | access f k ↦ record { shared = f false s.shared; thread = update s.thread i (k false s.shared) }
  | _ ↦ s
]

abbrev advance_each : List ℕ → System (Inner ℕ ℕ) (Unit {0}) → System (Inner ℕ ℕ) (Unit {0})
advance_each [] s = s
advance_each (i ∷ is) s = advance_each is (advance i s)

-- Both pushes see room before either claims; the one that loses finds the queue full. The other
-- fills its slot, and a pop finds it.
abbrev raced : System (Inner ℕ ℕ) (Unit {0})
raced = advance_each (0 ∷ 1 ∷ 0 ∷ 1 ∷ 0 ∷ 1 ∷ 1 ∷ 1 ∷ 0 ∷ 0 ∷ 0 ∷ 0 ∷ 0 ∷ 2 ∷ 2 ∷ 2 ∷ []) racing

raced-Reach : Reach racing 16 raced
unfolding Core.new Observe.new push claim claim_bounded claim_bounded_loop is_full complete fill
    find_block write_value publish pop pop_loop load_state update items_between
raced-Reach =
    later
      (later
        (later
          (later
            (later
              (later
                (later
                  (later
                    (later
                      (later
                        (later
                          (later
                            (later
                              (later
                                (later (later (here) (turn 0 false _ _ refl))
                                  (turn 1 false _ _ refl))
                                (turn 0 false _ _ refl))
                              (turn 1 false _ _ refl))
                            (turn 0 false _ _ refl))
                          (turn 1 false _ _ refl))
                        (turn 1 false _ _ refl))
                      (turn 1 false _ _ refl))
                    (turn 0 false _ _ refl))
                  (turn 0 false _ _ refl))
                (turn 0 false _ _ refl))
              (turn 0 false _ _ refl))
            (turn 0 false _ _ refl))
          (turn 2 false _ _ refl))
        (turn 2 false _ _ refl))
      (turn 2 false _ _ refl)

capacity_kept_example : items_between (head_index raced.shared) (tail_index raced.shared) ≤ 1
unfolding Core.new Observe.new items_between
capacity_kept_example =
    capacity_kept 1 16 racing raced (λ e. absurd (omega arith)) worker-Actor (omega arith)
      (ground arith) (omega arith) (omega arith) raced-Reach

-- The pop claims.
head_advances_example :
    (head_index (advance 2 raced).shared ≡ head_index raced.shared)
    ⊎ (head_index (advance 2 raced).shared ≡ suc (head_index raced.shared))
unfolding Core.new Observe.new push claim claim_bounded claim_bounded_loop is_full complete fill
    find_block write_value publish pop pop_loop load_state update items_between
head_advances_example =
    head_advances 1 16 racing raced (advance 2 raced) (λ e. absurd (omega arith)) worker-Actor
      (omega arith) (ground arith) (omega arith) (omega arith) raced-Reach (turn 2 false _ _ refl)
