-- ===== src/Interference/Unbounded.antt =====
-- The claim of `push` in src/queue.rs on an unbounded queue, under interference.
use rapidfire.Prelude.{
  ℕ, ◌+◌, ◌*◌, ◌≤◌, ◌≡◌, length, Bool, true, false, Option, none, some, ◌==◌, if◌then◌else◌, arith,
}
use rapidfire.Layout.{unbounded}
use rapidfire.Sync.{World, disturb}
use rapidfire.Shared.{Inner}
use rapidfire.Queue.Claim.{claim_cas, claim_fetch_add}
use rapidfire.Queue.Push.{claim}
use rapidfire.Interference.After.{After, After-bind}
use rapidfire.Interference.Rely.{disturb-Later}
use rapidfire.Interference.Claims.{HasRoom, disturb-HasRoom, Fresh, claim_fetch_add-Fresh}
use rapidfire.Interference.Exchanges.{claim_cas-Fresh}

module _ {A W : Type 0} (step : ℕ) where
  -- A claim is made, of a fresh position.
  abbrev pub Claimed : World (Inner A W) → ℕ → Option ℕ → World (Inner A W) → Type 0
  Claimed w n none w' = ⊥
  Claimed w n (some p) w' = Fresh step w n p w'

  either-Fresh :
      (fuel n : ℕ) (b : Bool) (w : World (Inner A W))
      → HasRoom step (fuel + n) w
      → 3 * length w.schedule + 3 ≤ fuel
      → After (Fresh step w n) ((if b then claim_fetch_add fuel else claim_cas fuel) w)
  either-Fresh fuel n true w h r = claim_fetch_add-Fresh step fuel n w h (ground arith)
  either-Fresh fuel n false w h r = claim_cas-Fresh step fuel n w h r

  -- Whatever other threads do between the accesses of a producer on an unbounded queue, as long as
  -- they only move the tail forward, by at most `step` between two accesses, and the positions do not
  -- run out: with fuel for three rounds and three more for each of their events, the claim returns,
  -- in either of its modes, whatever the hint on contention says. The claimed position is at or past
  -- the tail of the start, below the tail of the end, and no sentinel. So no claim that ended before
  -- had it, and no claim that starts later has it.
  pub claim-Fresh :
      (fuel n : ℕ) (w : World (Inner A W))
      → w.shared.queue.capacity ≡ unbounded
      → HasRoom step (fuel + n) w
      → 3 * length w.schedule + 3 ≤ fuel
      → After (Claimed w n) (claim fuel w)
  unfolding claim
  claim-Fresh fuel n w u h r =
      let w1 = disturb w in
      let h1 = disturb-HasRoom step (fuel + n) w h in
      let l = disturb-Later w in
      let e : (w.shared.queue.capacity == unbounded) ≡ true = ground arith in
      let b = w1.shared.queue.tail.contended == 0 in
      simp e (
        After-bind (if b then claim_fetch_add fuel else claim_cas fuel) _ w1 (Fresh step w1 n)
          (Claimed w n) (either-Fresh fuel n b w1 h1.0 (ground arith))
          (λ p w' f. (omega (arith, f.0, h1.1), f.1, f.2, f.3)))
