-- ===== src/Tests/Threads.antt =====
-- Threads that interleave, at a concrete run.
use rapidfire.Prelude.{ℕ, refl, Option, none, false, List, [], ◌∷◌, ◌≢◌, ◌≤◌, ◌<◌, update, arith}
use rapidfire.Layout.{offset_of, block_cap, unbounded}
use rapidfire.Shared.{Inner, set_tail_index}
use rapidfire.Queue.Observe
use rapidfire.Channel.Core
use rapidfire.Threads.Program.{access}
use rapidfire.Threads.System.{System, turn, Reach, here, later}
use rapidfire.Threads.Claim.{claim, claim_fetch_add}
use rapidfire.Threads.Phases.{Delivers}
use rapidfire.Threads.Claims.{claimer, claims_distinct, claims_cover}
use rapidfire.Threads.Seeking.{tail_index, Taken}

-- A new channel whose tail is on the last slot of its first block.
abbrev near_end : Inner ℕ ℕ
near_end = set_tail_index 62 (Core.new none)

abbrev last_slot : ℕ
last_slot = 62

-- The first position after the sentinel.
abbrev next_block : ℕ
next_block = 64

-- Every thread claims.
abbrev claiming : System (Inner ℕ ℕ) (Option ℕ)
claiming = record { shared = near_end; thread = λ _. claim 3 unbounded }

-- The next access of a thread whose program is `access f k`.
abbrev advance : ℕ → (s : System (Inner ℕ ℕ) (Option ℕ)) → System (Inner ℕ ℕ) (Option ℕ)
advance i s = elim (s.thread i) [
  | access f k ↦ record { shared = f false s.shared; thread = update s.thread i (k false s.shared) }
  | _ ↦ s
]

abbrev advance_each : List ℕ → System (Inner ℕ ℕ) (Option ℕ) → System (Inner ℕ ℕ) (Option ℕ)
advance_each [] s = s
advance_each (i ∷ is) s = advance_each is (advance i s)

-- Both threads prepare before either adds; the one that comes second sees the contention, lands on
-- the sentinel and goes another round.
abbrev contended : System (Inner ℕ ℕ) (Option ℕ)
contended = advance_each (0 ∷ 1 ∷ 0 ∷ 1 ∷ 0 ∷ 1 ∷ 1 ∷ 1 ∷ 1 ∷ []) claiming

contended-Reach : Reach claiming 9 contended
unfolding Core.new Observe.new claim claim_fetch_add update
contended-Reach =
    later
      (later
        (later
          (later
            (later
              (later
                (later (later (later (here) (turn 0 false _ _ refl)) (turn 1 false _ _ refl))
                  (turn 0 false _ _ refl))
                (turn 1 false _ _ refl))
              (turn 0 false _ _ refl))
            (turn 1 false _ _ refl))
          (turn 1 false _ _ refl))
        (turn 1 false _ _ refl))
      (turn 1 false _ _ refl)

claims_distinct_example :
    (last_slot ≢ next_block)
    × (62 ≤ last_slot)
    × (last_slot < 65)
    × (offset_of last_slot ≢ block_cap)
unfolding Core.new Observe.new claim claim_fetch_add update
claims_distinct_example =
    claims_distinct claiming contended 9 0 1 last_slot next_block (λ _. claimer 3 unbounded)
      (omega arith) contended-Reach refl refl (λ e. absurd (omega arith))

claims_cover_example : (i : ℕ) × Delivers tail_index ⊥ (Taken next_block) (contended.thread i)
unfolding Core.new Observe.new claim claim_fetch_add update
claims_cover_example =
    claims_cover claiming contended 9 next_block (λ _. claimer 3 unbounded) (omega arith)
      contended-Reach (omega arith) (omega arith) (λ e. absurd (ground arith))
