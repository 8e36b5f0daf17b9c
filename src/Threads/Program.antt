-- ===== src/Threads/Program.antt =====
-- A call as the sequence of its accesses, each with what follows it: the same operations as those of
-- Sync, for a scheduler that picks a thread before each access.
use rapidfire.Prelude.{ℕ, Bool, ◌==◌, if◌then◌else◌}
use rapidfire.Sync.{World, Outcome, done, starved, fault, disturb, is_spurious, Exchange, won, lost}

-- An access changes the shared state; what follows depends on the state before. Its Boolean is
-- whether a weak compare-exchange fails though its value matches. A call may end with a result, run
-- out of fuel, or fault.
pub data Program (S R : Type 0) : Type 0 where
  finished : R → Program S R
  access : (Bool → S → S) → (Bool → S → Program S R) → Program S R
  hungry : Program S R
  faulty : Program S R

infixl 5 ◌>>=◌ ◌>>◌
abbrev pub ◌>>=◌ : {S R Q : Type 0} → Program S R → (R → Program S Q) → Program S Q
◌>>=◌ (finished r) g = g r
◌>>=◌ (access f k) g = access f (λ b s. k b s >>= g)
◌>>=◌ hungry g = hungry
◌>>=◌ faulty g = faulty

abbrev pub ◌>>◌ : {S Q : Type 0} → Program S (Unit {0}) → Program S Q → Program S Q
◌>>◌ m k = m >>= λ _. k

module _ {S : Type 0} where
  abbrev pub return : {R : Type 0} → R → Program S R
  return r = finished r

  abbrev pub starve : {R : Type 0} → Program S R
  starve = hungry

  abbrev pub crash : {R : Type 0} → Program S R
  crash = faulty

  abbrev pub load : {R : Type 0} → (S → R) → Program S R
  load f = access (λ _ s. s) (λ _ s. finished (f s))

  abbrev pub store : (S → S) → Program S (Unit {0})
  store f = access (λ _ s. f s) (λ _ _. finished tt)

  abbrev pub fetch : {R : Type 0} → (S → R) → (S → S) → Program S R
  fetch f g = access (λ _ s. g s) (λ _ s. finished (f s))

  abbrev pub compare_exchange_weak : (S → ℕ) → (ℕ → S → S) → ℕ → ℕ → Program S Exchange
  compare_exchange_weak get put expected new =
      access (λ weak s. if weak then s else if get s == expected then put new s else s)
        (λ weak s.
          finished (if weak then lost (get s) else if get s == expected then won else lost (get s)))

  -- One thread's run of a program under a schedule, as in Sync.
  unfoldable pub run : {R : Type 0} → Program S R → World S → Outcome S R
  run (finished r) w = done r w
  run (access f k) w =
      let w' = disturb w in
      let weak = is_spurious w.schedule in
      run (k weak w'.shared) (record w' { shared = f weak w'.shared })
  run hungry w = starved
  run faulty w = fault
