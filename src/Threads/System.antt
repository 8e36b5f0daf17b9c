-- ===== src/Threads/System.antt =====
-- The interleavings of threads over a shared state.
use rapidfire.Prelude.{ℕ, suc, ◌≡◌, Bool, update}
use rapidfire.Threads.Program.{Program, access}

-- Each thread makes one call. A thread that makes several is as many threads, of which the
-- scheduler picks none before the one before it has finished.
pub record System (S R : Type 0) : Type 0 where
  pub shared : S
  pub thread : ℕ → Program S R

module _ {S R : Type 0} where
  -- The next access of a thread.
  pub data Step (s : System S R) : System S R → Type 0 where
    turn :
        (i : ℕ) (weak : Bool) (f : Bool → S → S) (k : Bool → S → Program S R)
        → s.thread i ≡ access f k
        → Step s (record { shared = f weak s.shared; thread = update s.thread i (k weak s.shared) })

  -- The states after a number of accesses.
  pub data Reach (start : System S R) : ℕ → System S R → Type 0 where
    here : Reach start 0 start
    later : {n : ℕ} {s t : System S R} → Reach start n s → Step s t → Reach start (suc n) t
