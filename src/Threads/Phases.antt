-- ===== src/Threads/Phases.antt =====
-- The phases of a call that claims a position of src/queue.rs from a shared index: it seeks until it
-- claims one, and after that it leaves the index alone.
use rapidfire.Prelude.{ℕ, ◌≡◌, ◌≢◌, ◌⊎◌, inl, inr, refl, Bool, true, false, if◌then◌else◌}
use rapidfire.Layout.{add_usize, offset_of, block_cap}
use rapidfire.Threads.Program.{Program, finished, access, hungry, faulty, ◌>>=◌}

module _ {S X : Type 0} (index : S → X) where
  -- No access changes what `index` reads, and the result is as told.
  unfoldable pub Settled : {R : Type 0} → (R → Type 0) → Program S R → Type 0
  Settled Owned (finished r) = Owned r
  Settled Owned (access f k) =
      (b : Bool) (s : S) → (index (f b s) ≡ index s) × Settled Owned (k b s)
  Settled Owned hungry = Unit
  Settled Owned faulty = Unit

  pub Settled-if :
      {R : Type 0} (Owned : R → Type 0) (c : Bool) (p q : Program S R)
      → (c ≡ true → Settled Owned p)
      → (c ≡ false → Settled Owned q)
      → Settled Owned (if c then p else q)
  Settled-if Owned true p q a b = a refl
  Settled-if Owned false p q a b = b refl

  pub Settled-bind :
      {R Q : Type 0} (Owned : R → Type 0) (Owned' : Q → Type 0) (m : Program S R)
      (g : R → Program S Q)
      → Settled Owned m
      → ((r : R) → Owned r → Settled Owned' (g r))
      → Settled Owned' (m >>= g)
  unfolding Settled
  Settled-bind Owned Owned' (finished r) g h e = e r h
  Settled-bind Owned Owned' (access f k) g h e =
      λ b s. ((h b s).0, Settled-bind Owned Owned' (k b s) g (h b s).1 e)
  Settled-bind Owned Owned' hungry g h e = tt
  Settled-bind Owned Owned' faulty g h e = tt

module _ {S X : Type 0} (index : S → X) (Stuck : Type 0) where
  -- The rest of a call: no access changes what `index` reads, and the result is as told. If `Stuck` is
  -- empty, the rest returns after finitely many accesses, and neither runs out of fuel nor faults.
  unfoldable pub Delivers : {R : Type 0} → (R → Type 0) → Program S R → Type 0
  Delivers Owned (finished r) = Owned r
  Delivers Owned (access f k) =
      (b : Bool) (s : S) → (index (f b s) ≡ index s) × Delivers Owned (k b s)
  Delivers Owned hungry = Stuck
  Delivers Owned faulty = Stuck

  pub Delivers-if :
      {R : Type 0} (Owned : R → Type 0) (c : Bool) (p q : Program S R)
      → (c ≡ true → Delivers Owned p)
      → (c ≡ false → Delivers Owned q)
      → Delivers Owned (if c then p else q)
  Delivers-if Owned true p q a b = a refl
  Delivers-if Owned false p q a b = b refl

  pub Delivers-bind :
      {R Q : Type 0} (Owned : R → Type 0) (Owned' : Q → Type 0) (m : Program S R)
      (g : R → Program S Q)
      → Delivers Owned m
      → ((r : R) → Owned r → Delivers Owned' (g r))
      → Delivers Owned' (m >>= g)
  unfolding Delivers
  Delivers-bind Owned Owned' (finished r) g h e = e r h
  Delivers-bind Owned Owned' (access f k) g h e =
      λ b s. ((h b s).0, Delivers-bind Owned Owned' (k b s) g (h b s).1 e)
  Delivers-bind Owned Owned' hungry g h e = h
  Delivers-bind Owned Owned' faulty g h e = h

module _ {S : Type 0} (index : S → ℕ) where
  -- One access, from a state to the next, and the predicates on what follows it: it leaves the index,
  -- or adds one to it. Over a sentinel it claims nothing; any other position it claims.
  abbrev pub Moves : S → S → Type 0 → (ℕ → Type 0) → Type 0
  Moves s s' Seeking Owning =
      ((index s' ≡ index s) × Seeking)
      ⊎ (index s' ≡ add_usize (index s) 1)
        × (((offset_of (index s) ≡ block_cap) × Seeking)
            ⊎ (offset_of (index s) ≢ block_cap) × Owning (index s))

module _ {S : Type 0} (index : S → ℕ) (Stuck : Type 0) where
  -- `Idle` is what is known of a result without a claim.
  unfoldable pub Seeks : {R : Type 0} → (R → Type 0) → (ℕ → R → Type 0) → Program S R → Type 0
  Seeks Idle Owned (finished r) = Idle r
  Seeks Idle Owned (access f k) =
      (b : Bool) (s : S)
      → Moves index s (f b s) (Seeks Idle Owned (k b s))
          (λ p. Delivers index Stuck (Owned p) (k b s))
  Seeks Idle Owned hungry = Unit
  Seeks Idle Owned faulty = Unit

  pub Seeks-if :
      {R : Type 0} (Idle : R → Type 0) (Owned : ℕ → R → Type 0) (c : Bool) (p q : Program S R)
      → (c ≡ true → Seeks Idle Owned p)
      → (c ≡ false → Seeks Idle Owned q)
      → Seeks Idle Owned (if c then p else q)
  Seeks-if Idle Owned true p q a b = a refl
  Seeks-if Idle Owned false p q a b = b refl

  -- A call that never touches the index seeks in vain.
  pub Seeks-Settled :
      {R : Type 0} (Idle : R → Type 0) (Owned : ℕ → R → Type 0) (m : Program S R)
      → Settled index Idle m
      → Seeks Idle Owned m
  unfolding Settled Seeks
  Seeks-Settled Idle Owned (finished r) h = h
  Seeks-Settled Idle Owned (access f k) h =
      λ b s. inl ((h b s).0, Seeks-Settled Idle Owned (k b s) (h b s).1)
  Seeks-Settled Idle Owned hungry h = tt
  Seeks-Settled Idle Owned faulty h = tt

  pub Seeks-bind :
      {R Q : Type 0} (Idle : R → Type 0) (Owned : ℕ → R → Type 0) (Idle' : Q → Type 0)
      (Owned' : ℕ → Q → Type 0) (m : Program S R) (g : R → Program S Q)
      → Seeks Idle Owned m
      → ((r : R) → Idle r → Seeks Idle' Owned' (g r))
      → ((p : ℕ) (r : R) → Owned p r → Delivers index Stuck (Owned' p) (g r))
      → Seeks Idle' Owned' (m >>= g)
  unfolding Seeks
  Seeks-bind Idle Owned Idle' Owned' (finished r) g h e o = e r h
  Seeks-bind Idle Owned Idle' Owned' (access f k) g h e o = λ b s. elim (h b s) [
    | inl (same, rest) ↦ inl (same, Seeks-bind Idle Owned Idle' Owned' (k b s) g rest e o)
    | inr (more, inl (at, rest)) ↦
        inr (more, inl (at, Seeks-bind Idle Owned Idle' Owned' (k b s) g rest e o))
    | inr (more, inr (off, rest)) ↦ inr (
      more,
      inr (
        off,
        Delivers-bind index Stuck (Owned (index s)) (Owned' (index s)) (k b s) g rest (o (index s)),
      ),
    )
  ]
  Seeks-bind Idle Owned Idle' Owned' hungry g h e o = tt
  Seeks-bind Idle Owned Idle' Owned' faulty g h e o = tt
