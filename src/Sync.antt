-- ===== src/Sync.antt =====
-- src/sync.rs and the atomics that it passes on: one thread's accesses to shared memory. A call
-- runs as one thread. Before each of its shared accesses the other threads may act: a schedule says
-- how, an event for each access, and the empty schedule leaves the thread alone. Accesses are
-- sequentially consistent.
use rapidfire.Prelude.{ℕ, ◌≡◌, refl, List, [], ◌∷◌, Bool, true, false, if◌then◌else◌, ◌==◌}

-- What the environment does before an access: change the shared state, or make a weak
-- compare-exchange fail though its value matches.
pub data Event (S : Type 0) : Type 0 where
  act : (S → S) → Event S
  spurious : Event S

pub record World (S : Type 0) : Type 0 where
  pub shared : S
  pub schedule : List (Event S)

-- `starved`: the fuel of a loop ran out. `fault`: undefined behaviour, such as a read through a null
-- pointer, an index past the slots of a block, or a read of a value that is not there. `panicked`:
-- the source panics.
pub data Outcome (S R : Type 0) : Type 0 where
  done : R → World S → Outcome S R
  starved : Outcome S R
  fault : Outcome S R
  panicked : Outcome S R

abbrev pub M : Type 0 → Type 0 → Type 0
M S R = World S → Outcome S R

infixl 5 ◌>>=◌ ◌>>◌
abbrev pub ◌>>=◌ : {S R Q : Type 0} → M S R → (R → M S Q) → M S Q
◌>>=◌ m f w = elim (m w) [
  | done r w' ↦ f r w'
  | starved ↦ starved
  | fault ↦ fault
  | panicked ↦ panicked
]

abbrev pub ◌>>◌ : {S Q : Type 0} → M S (Unit {0}) → M S Q → M S Q
◌>>◌ m k = m >>= λ _. k

module _ {S : Type 0} where
  abbrev pub return : {R : Type 0} → R → M S R
  return r w = done r w

  abbrev pub crash : {R : Type 0} → M S R
  crash w = fault

  abbrev pub panic : {R : Type 0} → M S R
  panic w = panicked

  abbrev pub starve : {R : Type 0} → M S R
  starve w = starved

  -- The next event of the schedule.
  abbrev pub settle : S → List (Event S) → World S
  settle s [] = record { shared = s; schedule = [] }
  settle s (act f ∷ es) = record { shared = f s; schedule = es }
  settle s (spurious ∷ es) = record { shared = s; schedule = es }

  abbrev pub disturb : World S → World S
  disturb w = settle w.shared w.schedule

  abbrev pub is_spurious : List (Event S) → Bool
  is_spurious (spurious ∷ es) = true
  is_spurious _ = false

  -- An atomic load.
  abbrev pub load : {R : Type 0} → (S → R) → M S R
  load f w = let w' = disturb w in done (f w'.shared) w'

  -- An atomic store.
  abbrev pub store : (S → S) → M S (Unit {0})
  store f w = let w' = disturb w in done tt (record w' { shared = f w'.shared })

  -- An atomic read-modify-write: `fetch_add`, `fetch_sub`, `swap`. It returns the old value.
  abbrev pub fetch : {R : Type 0} → (S → R) → (S → S) → M S R
  fetch f g w = let w' = disturb w in done (f w'.shared) (record w' { shared = g w'.shared })

-- The result of a compare-exchange.
pub data Exchange : Type 0 where
  won : Exchange
  lost : ℕ → Exchange

module _ {S : Type 0} where
  -- `compare_exchange_weak` on a number, with the reader and the writer of its cell.
  abbrev pub compare_exchange_weak : (S → ℕ) → (ℕ → S → S) → ℕ → ℕ → M S Exchange
  compare_exchange_weak get put expected new w =
      let weak = is_spurious w.schedule in
      let w' = disturb w in
      let now = get w'.shared in
      if weak
      then done (lost now) w'
      else if now == expected
      then done won (record w' { shared = put new w'.shared })
      else done (lost now) w'

-- A call that returns is followed by what comes after it.
pub bind-done :
    {S R Q : Type 0} (m : M S R) (f : R → M S Q) {w w' : World S} {r : R}
    → m w ≡ done r w'
    → (m >>= f) w ≡ f r w'
bind-done m f e = rw (e, ◌>>=◌) refl
