-- ===== src/Sequential/Withdrawn.antt =====
-- A future of src/lib.rs that takes back its registration, for a thread that is alone.
use rapidfire.Prelude.{ℕ, ◌≡◌, refl, Option, none, some, false, Bool-cases, inl, inr}
use rapidfire.Sync.{done}
use rapidfire.Shared.{Inner}
use rapidfire.Channel.Waiters.{Side, receiving, sending, has, cancel, unregister}
use rapidfire.Refine.Claim.{quiet}
use rapidfire.Parked.Invariant.{IsParked, cancel-IsParked}
use rapidfire.Parked.Wakes.{unregister_cancels}

module _ {A W : Type 0} where
  -- The channel after a future has taken back its registration.
  abbrev pub withdrawn : Side → Option ℕ → Inner A W → Inner A W
  withdrawn side none s = s
  withdrawn side (some my) s = cancel side my s

  pub unregister-withdrawn :
      (s : Inner A W) (side : Side) (id : Option ℕ)
      → IsParked s
      → unregister side id false (quiet s) ≡ done tt (quiet (withdrawn side id s))
  unfolding unregister
  unregister-withdrawn s side none h = refl
  unregister-withdrawn s side (some my) h = unregister_cancels s side my h

  pub withdrawn-IsParked :
      (s : Inner A W) (side : Side) (id : Option ℕ) → IsParked s → IsParked (withdrawn side id s)
  withdrawn-IsParked s side none h = h
  withdrawn-IsParked s side (some my) h = cancel-IsParked s side my h

  cancel-queue : (s : Inner A W) (side : Side) (my : ℕ) → (cancel side my s).queue ≡ s.queue
  unfolding cancel
  cancel-queue s receiving my = elim (Bool-cases (has my s.recv_waiters)) [
    | inl e ↦ rw e refl
    | inr e ↦ rw e refl
  ]
  cancel-queue s sending my = elim (Bool-cases (has my s.send_waiters)) [
    | inl e ↦ rw e refl
    | inr e ↦ rw e refl
  ]

  pub withdrawn-queue :
      (s : Inner A W) (side : Side) (id : Option ℕ) → (withdrawn side id s).queue ≡ s.queue
  withdrawn-queue s side none = refl
  withdrawn-queue s side (some my) = cancel-queue s side my
