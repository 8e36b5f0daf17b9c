-- ===== src/Threads/ClaimRuns.antt =====
-- The programs of the claims are the calls of src/queue.rs.
use rapidfire.Prelude.{
  ℕ, zero, suc, ◌≡◌, refl, none, some, Bool, true, false, ◌==◌, if◌then◌else◌, arith,
}
use rapidfire.Layout.{add_usize, offset_of, block_cap, contention_window, unbounded}
use rapidfire.Sync
use rapidfire.Sync.{World, M, Exchange, won, lost, disturb, is_spurious}
use rapidfire.Shared.{Inner, set_tail_index, set_tail_contended}
use rapidfire.Queue.Claim
use rapidfire.Queue.Push
use rapidfire.Threads.Program
use rapidfire.Threads.Program.{Program, run}
use rapidfire.Threads.Runs.{Runs, Runs-bind, Runs-exchange, Runs-if, Runs-return}
use rapidfire.Threads.Claim as Threaded

module _ {A W : Type 0} where
  -- What follows the addition: the hint, then another round at a sentinel.
  after_fetch :
      (same sentinel : Bool) (tail : ℕ) (p : Program (Inner A W) ℕ) (m : M (Inner A W) ℕ)
      → Runs p m
      → Runs
          (Program.◌>>◌
            (if same
              then Program.return tt
              else Program.store (set_tail_contended contention_window))
            (if sentinel then p else Program.return tail))
          (Sync.◌>>◌
            (if same then Sync.return tt else Sync.store (set_tail_contended contention_window))
            (if sentinel then m else Sync.return tail))
  unfolding run
  after_fetch true true tail p m e w = e w
  after_fetch true false tail p m e w = refl
  after_fetch false true tail p m e w = e _
  after_fetch false false tail p m e w = refl

  claim_fetch_add-Runs :
      (fuel : ℕ) → Runs (Threaded.claim_fetch_add {A = A} {W = W} fuel) (Claim.claim_fetch_add fuel)
  unfolding Claim.claim_fetch_add Threaded.claim_fetch_add run
  claim_fetch_add-Runs zero w = refl
  claim_fetch_add-Runs (suc fuel) w = after_fetch _ _ _ _ _ (claim_fetch_add-Runs fuel) _

  adapt-Runs : (failed : Bool) → Runs (Threaded.adapt {A = A} {W = W} failed) (Claim.adapt failed)
  unfolding Claim.adapt Threaded.adapt run
  adapt-Runs failed w = ground arith

  is_full-Runs :
      (limit tail : ℕ)
      → Runs (Threaded.is_full {A = A} {W = W} limit tail) (Claim.is_full limit tail)
  unfolding Claim.is_full Threaded.is_full run
  is_full-Runs limit tail w = ground arith

  after_exchange :
      {R : Type 0} (r : Exchange) (p : Program (Inner A W) R) (q : ℕ → Program (Inner A W) R)
      (m : M (Inner A W) R) (n : ℕ → M (Inner A W) R)
      → Runs p m
      → ((a : ℕ) → Runs (q a) (n a))
      → Runs (elim r [ won ↦ p | lost a ↦ q a ]) (elim r [ won ↦ m | lost a ↦ n a ])
  after_exchange won p q m n a b = a
  after_exchange (lost actual) p q m n a b = b actual

  -- An attempt to move the tail, and what follows when it is won or lost.
  advance_tail-Runs :
      {R : Type 0} (tail : ℕ) (p : Program (Inner A W) R) (q : ℕ → Program (Inner A W) R)
      (m : M (Inner A W) R) (n : ℕ → M (Inner A W) R)
      → Runs p m
      → ((a : ℕ) → Runs (q a) (n a))
      → Runs
          (Program.◌>>=◌ (Threaded.advance_tail tail) λ r. elim r [ won ↦ p | lost a ↦ q a ])
          (Sync.◌>>=◌ (Claim.advance_tail tail) λ r. elim r [ won ↦ m | lost a ↦ n a ])
  advance_tail-Runs tail p q m n a b =
      Runs-bind (Threaded.advance_tail tail) (Claim.advance_tail tail)
        (λ r. elim r [ won ↦ p | lost a ↦ q a ]) (λ r. elim r [ won ↦ m | lost a ↦ n a ])
        (Runs-exchange (λ s. s.queue.tail.index) set_tail_index tail (add_usize tail 1))
        λ r. after_exchange r p q m n a b

  claim_cas_loop-Runs :
      (fuel tail : ℕ) (failed : Bool)
      → Runs
          (Threaded.claim_cas_loop {A = A} {W = W} fuel tail failed)
          (Claim.claim_cas_loop fuel tail failed)
  unfolding Claim.claim_cas_loop Threaded.claim_cas_loop run
  claim_cas_loop-Runs zero tail failed = λ w. refl
  claim_cas_loop-Runs (suc fuel) tail failed =
      advance_tail-Runs tail _ _ _ _
        (Runs-if (offset_of tail == block_cap) _ _ _ _
          (claim_cas_loop-Runs fuel (add_usize tail 1) failed)
          (Runs-bind (Threaded.adapt failed) (Claim.adapt failed) _ _ (adapt-Runs failed)
            λ _. Runs-return tail))
        λ actual. claim_cas_loop-Runs fuel actual true

  claim_cas-Runs :
      (fuel : ℕ) → Runs (Threaded.claim_cas {A = A} {W = W} fuel) (Claim.claim_cas fuel)
  unfolding Claim.claim_cas Threaded.claim_cas run
  claim_cas-Runs fuel w = claim_cas_loop-Runs fuel _ false _

  claim_bounded_loop-Runs :
      (fuel limit tail : ℕ)
      → Runs
          (Threaded.claim_bounded_loop {A = A} {W = W} fuel limit tail)
          (Claim.claim_bounded_loop fuel limit tail)
  unfolding Claim.claim_bounded_loop Threaded.claim_bounded_loop run
  claim_bounded_loop-Runs zero limit tail = λ w. refl
  claim_bounded_loop-Runs (suc fuel) limit tail =
      Runs-if (offset_of tail == block_cap) _ _ _ _
        (advance_tail-Runs tail _ _ _ _ (claim_bounded_loop-Runs fuel limit (add_usize tail 1))
          (claim_bounded_loop-Runs fuel limit))
        (Runs-bind (Threaded.is_full limit tail) (Claim.is_full limit tail) _ _
          (is_full-Runs limit tail)
          λ full. Runs-if full _ _ _ _ (Runs-return none) (
            advance_tail-Runs tail _ _ _ _ (Runs-return (some tail))
              (claim_bounded_loop-Runs fuel limit)))

  claim_bounded-Runs :
      (fuel limit : ℕ)
      → Runs (Threaded.claim_bounded {A = A} {W = W} fuel limit) (Claim.claim_bounded fuel limit)
  unfolding Claim.claim_bounded Threaded.claim_bounded run
  claim_bounded-Runs fuel limit w = claim_bounded_loop-Runs fuel limit _ _

  -- Under every schedule the thread program of a claim does what `claim` does.
  pub claim-Runs :
      (fuel : ℕ) (w : World (Inner A W))
      → run (Threaded.claim fuel w.shared.queue.capacity) w ≡ Push.claim fuel w
  unfolding Push.claim Threaded.claim run
  claim-Runs fuel w =
      Runs-if (w.shared.queue.capacity == unbounded) _ _ _ _
        (λ w0.
          let idle = (disturb w0).shared.queue.tail.contended == 0 in
          Runs-bind (if idle then Threaded.claim_fetch_add fuel else Threaded.claim_cas fuel)
            (if idle then Claim.claim_fetch_add fuel else Claim.claim_cas fuel)
            (λ tail. Program.return (some tail)) (λ tail. Sync.return (some tail))
            (Runs-if idle _ _ _ _ (claim_fetch_add-Runs fuel) (claim_cas-Runs fuel))
            (λ tail. Runs-return (some tail)) (disturb w0))
        (claim_bounded-Runs fuel w.shared.queue.capacity) w
