-- ===== src/Threads/Runs.antt =====
-- When a program is a call of Sync: the rules that follow the shape of the code.
use rapidfire.Prelude.{
  ℕ, ◌≡◌, refl, Bool, true, false, ◌==◌, if◌then◌else◌, ◌∙◌, ap, Bool-cases, inl, inr,
}
use rapidfire.Sync
use rapidfire.Sync.{
  World, Outcome, done, starved, fault, panicked, M, disturb, is_spurious, Exchange,
}
use rapidfire.Threads.Program
use rapidfire.Threads.Program.{
  Program, finished, access, hungry, faulty, ◌>>=◌, run, load, store, fetch, compare_exchange_weak,
}

-- Under every schedule the program does what the call does.
abbrev pub Runs : {S R : Type 0} → Program S R → M S R → Type 0
Runs p m = (w : World _) → run p w ≡ m w

pub bind_outcome :
    {S R Q : Type 0} (o : Outcome S R) (g h : R → M S Q)
    → ((r : R) (w : World S) → g r w ≡ h r w)
    → (w : World S) → Sync.◌>>=◌ (λ _. o) g w ≡ Sync.◌>>=◌ (λ _. o) h w
bind_outcome (done r w') g h e w = e r w'
bind_outcome starved g h e w = refl
bind_outcome fault g h e w = refl
bind_outcome panicked g h e w = refl

pub run-bind :
    {S R Q : Type 0} (p : Program S R) (g : R → Program S Q) (w : World S)
    → run (p >>= g) w ≡ Sync.◌>>=◌ (run p) (λ r. run (g r)) w
unfolding run
run-bind (finished r) g w = refl
run-bind (access f k) g w = run-bind (k _ _) g _
run-bind hungry g w = refl
run-bind faulty g w = refl

module _ {S : Type 0} where
  pub Runs-return : {R : Type 0} (r : R) → Runs {S = S} (Program.return r) (Sync.return r)
  unfolding run
  Runs-return r w = refl

  pub Runs-load : {R : Type 0} (f : S → R) → Runs (load f) (Sync.load f)
  unfolding run
  Runs-load f w = refl

  pub Runs-store : (f : S → S) → Runs (store f) (Sync.store f)
  unfolding run
  Runs-store f w = refl

  pub Runs-fetch : {R : Type 0} (f : S → R) (g : S → S) → Runs (fetch f g) (Sync.fetch f g)
  unfolding run
  Runs-fetch f g w = refl

  pub Runs-exchange :
      (get : S → ℕ) (put : ℕ → S → S) (expected new : ℕ)
      → Runs
          (compare_exchange_weak get put expected new)
          (Sync.compare_exchange_weak get put expected new)
  unfolding run
  Runs-exchange get put expected new w = elim (Bool-cases (is_spurious w.schedule)) [
    | inl e ↦ simp e
    | inr e ↦ elim (Bool-cases (get (disturb w).shared == expected)) [
      | inl e2 ↦ simp (e, e2)
      | inr e2 ↦ simp (e, e2)
    ]
  ]

  pub Runs-bind :
      {R Q : Type 0} (p : Program S R) (m : M S R) (g : R → Program S Q) (h : R → M S Q)
      → Runs p m
      → ((r : R) → Runs (g r) (h r))
      → Runs (p >>= g) (Sync.◌>>=◌ m h)
  Runs-bind p m g h a b w =
      run-bind p g w
      ∙ ap (λ o. Sync.◌>>=◌ (λ _. o) (λ r. run (g r)) w) (a w)
      ∙ bind_outcome (m w) (λ r. run (g r)) h b w

  pub Runs-if :
      {R : Type 0} (c : Bool) (p q : Program S R) (m n : M S R)
      → Runs p m
      → Runs q n
      → Runs (if c then p else q) (if c then m else n)
  Runs-if true p q m n a b = a
  Runs-if false p q m n a b = b
