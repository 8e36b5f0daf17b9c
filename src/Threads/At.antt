-- ===== src/Threads/At.antt =====
-- When a program does at one world what a call does, by the shape of the code.
use rapidfire.Prelude.{ℕ, ◌≡◌, refl, List, Bool, true, false, if◌then◌else◌}
use rapidfire.Sync
use rapidfire.Sync.{World, done, M, Event, disturb, Exchange, won, lost}
use rapidfire.Threads.Program
use rapidfire.Threads.Program.{Program, run}

module _ {S : Type 0} where
  -- The rules of Runs at one world.
  pub run-if :
      {R : Type 0} (c : Bool) (p q : Program S R) (m n : M S R) (w : World S)
      → run p w ≡ m w
      → run q w ≡ n w
      → run (if c then p else q) w ≡ (if c then m else n) w
  run-if true p q m n w a b = a
  run-if false p q m n w a b = b

  pub run-load-if :
      {R Q : Type 0} (c : Bool) (f : S → R) (g : R → Program S Q) (h : R → M S Q) (w : World S)
      → ((r : R) → run (g r) (disturb w) ≡ h r (disturb w))
      → run (Program.◌>>=◌ (if c then Program.load f else Program.crash) g) w
        ≡ Sync.◌>>=◌ (if c then Sync.load f else Sync.crash) h w
  unfolding run
  run-load-if true f g h w e = e (f (disturb w).shared)
  run-load-if false f g h w e = refl

  pub run-exchange :
      {R : Type 0} (weak hit : Bool) (now : ℕ) (s s' : S) (es : List (Event S)) (p : Program S R)
      (q : ℕ → Program S R) (m : M S R) (n : ℕ → M S R) (w : World S)
      → run p (record { shared = s'; schedule = es }) ≡ m (record { shared = s'; schedule = es })
      → run (q now) (record { shared = s; schedule = es })
        ≡ n now (record { shared = s; schedule = es })
      → run
          (elim (if weak then lost now else if hit then won else lost now) as (λ _. Program S R) [
            | won ↦ p
            | lost actual ↦ q actual
          ])
          (record { shared = if weak then s else if hit then s' else s; schedule = es })
        ≡ Sync.◌>>=◌
            (λ _.
              if weak
              then done (lost now) (record { shared = s; schedule = es })
              else if hit
              then done won (record { shared = s'; schedule = es })
              else done (lost now) (record { shared = s; schedule = es }))
            (λ r. elim r as (λ _. M S R) [ won ↦ m | lost actual ↦ n actual ])
            w
  run-exchange true hit now s s' es p q m n w a b = b
  run-exchange false true now s s' es p q m n w a b = a
  run-exchange false false now s s' es p q m n w a b = b
