-- ===== src/Threads/Roles.antt =====
-- How a call may move the head of the queue of src/queue.rs: by one when it claims a position, and
-- over the sentinel when it has claimed the last slot of a block, which it alone may do.
use rapidfire.Prelude.{ℕ, ◌+◌, ◌≡◌, ◌≢◌, ap, Bool, if◌then◌else◌, ◌⊎◌, inl, inr}
use rapidfire.Layout.{add_usize, offset_of, block_cap}
use rapidfire.Shared.{Inner}
use rapidfire.Threads.Program.{Program, finished, access, hungry, faulty, ◌>>=◌}
use rapidfire.Threads.Phases.{Settled, Settled-if, Settled-bind}

module _ {A W : Type 0} where
  abbrev pub head_index : Inner A W → ℕ
  head_index s = s.queue.head.index

  -- What producers write: the tail and their cached head.
  abbrev pub tail_side : Inner A W → ℕ × ℕ
  tail_side s = (s.queue.tail.index, s.queue.tail.cached)

  abbrev pub indices : Inner A W → ℕ × (ℕ × ℕ)
  indices s = (head_index s, tail_side s)

  -- A call, or its rest, that moves nothing.
  abbrev pub Idle : {R : Type 0} → Program (Inner A W) R → Type 0
  Idle prog = Settled indices (λ _. Unit {0}) prog

  -- The rest of a pop that has claimed the last slot `h` of a block: it still has to move the head
  -- over the sentinel, and does not return before.
  unfoldable pub Finishes : {R : Type 0} → ℕ → Program (Inner A W) R → Type 0
  Finishes h (finished r) = ⊥
  Finishes h (access f k) =
      (b : Bool) (s : Inner A W)
      → (tail_side (f b s) ≡ tail_side s)
        × (((head_index (f b s) ≡ head_index s) × Finishes h (k b s))
            ⊎ (head_index (f b s) ≡ add_usize h 2) × Idle (k b s))
  Finishes h hungry = Unit
  Finishes h faulty = Unit

  -- One access of a call that has claimed nothing so far, and the predicates on what follows it.
  abbrev pub Claims : Inner A W → Inner A W → Type 0 → (ℕ → Type 0) → Type 0 → Type 0
  Claims s s' Seeking Finishing Done =
      (tail_side s' ≡ tail_side s)
      × (((head_index s' ≡ head_index s) × Seeking)
          ⊎ (head_index s' ≡ add_usize (head_index s) 1)
            × (offset_of (head_index s) ≢ block_cap)
            × (((offset_of (head_index s) + 1 ≡ block_cap) × Finishing (head_index s))
                ⊎ (offset_of (head_index s) + 1 ≢ block_cap) × Done))

  unfoldable pub Consumes : {R : Type 0} → Program (Inner A W) R → Type 0
  Consumes (finished r) = Unit
  Consumes (access f k) =
      (b : Bool) (s : Inner A W)
      → Claims s (f b s) (Consumes (k b s)) (λ h. Finishes h (k b s)) (Idle (k b s))
  Consumes hungry = Unit
  Consumes faulty = Unit

  pub Consumes-Idle : {R : Type 0} (m : Program (Inner A W) R) → Idle m → Consumes m
  unfolding Settled Consumes
  Consumes-Idle (finished r) h = tt
  Consumes-Idle (access f k) h = λ b s.
      let same = (h b s).0 in
      (ap (λ t. t.1) same, inl (ap (λ t. t.0) same, Consumes-Idle (k b s) (h b s).1))
  Consumes-Idle hungry h = tt
  Consumes-Idle faulty h = tt

  pub Idle-then-Consumes :
      {R Q : Type 0} (m : Program (Inner A W) R) (g : R → Program (Inner A W) Q)
      → Idle m
      → ((r : R) → Consumes (g r))
      → Consumes (m >>= g)
  unfolding Settled Consumes
  Idle-then-Consumes (finished r) g h e = e r
  Idle-then-Consumes (access f k) g h e = λ b s.
      let same = (h b s).0 in
      (ap (λ t. t.1) same, inl (ap (λ t. t.0) same, Idle-then-Consumes (k b s) g (h b s).1 e))
  Idle-then-Consumes hungry g h e = tt
  Idle-then-Consumes faulty g h e = tt

  pub Idle-then-Finishes :
      {R Q : Type 0} (p : ℕ) (m : Program (Inner A W) R) (g : R → Program (Inner A W) Q)
      → Idle m
      → ((r : R) → Finishes p (g r))
      → Finishes p (m >>= g)
  unfolding Settled Finishes
  Idle-then-Finishes p (finished r) g h e = e r
  Idle-then-Finishes p (access f k) g h e = λ b s.
      let same = (h b s).0 in
      (ap (λ t. t.1) same, inl (ap (λ t. t.0) same, Idle-then-Finishes p (k b s) g (h b s).1 e))
  Idle-then-Finishes p hungry g h e = tt
  Idle-then-Finishes p faulty g h e = tt

  pub Idle-bind :
      {R Q : Type 0} (m : Program (Inner A W) R) (g : R → Program (Inner A W) Q)
      → Idle m
      → ((r : R) → Idle (g r))
      → Idle (m >>= g)
  Idle-bind m g h e = Settled-bind indices (λ _. Unit {0}) (λ _. Unit {0}) m g h (λ r _. e r)

  pub Idle-if :
      {R : Type 0} (c : Bool) (p q : Program (Inner A W) R)
      → Idle p
      → Idle q
      → Idle (if c then p else q)
  Idle-if c p q a b = Settled-if indices (λ _. Unit {0}) c p q (λ _. a) (λ _. b)

  pub Finishes-bind :
      {R Q : Type 0} (p : ℕ) (m : Program (Inner A W) R) (g : R → Program (Inner A W) Q)
      → Finishes p m
      → ((r : R) → Idle (g r))
      → Finishes p (m >>= g)
  unfolding Finishes
  Finishes-bind p (finished r) g h e = absurd h
  Finishes-bind p (access f k) g h e = λ b s. (
    (h b s).0,
    elim (h b s).1 [
      | inl (same, rest) ↦ inl (same, Finishes-bind p (k b s) g rest e)
      | inr (over, rest) ↦ inr (over, Idle-bind (k b s) g rest e)
    ],
  )
  Finishes-bind p hungry g h e = tt
  Finishes-bind p faulty g h e = tt

  pub Consumes-bind :
      {R Q : Type 0} (m : Program (Inner A W) R) (g : R → Program (Inner A W) Q)
      → Consumes m
      → ((r : R) → Idle (g r))
      → Consumes (m >>= g)
  unfolding Consumes
  Consumes-bind (finished r) g h e = Consumes-Idle (g r) (e r)
  Consumes-bind (access f k) g h e = λ b s. (
    (h b s).0,
    elim (h b s).1 [
      | inl (same, rest) ↦ inl (same, Consumes-bind (k b s) g rest e)
      | inr (more, off, inl (last, rest)) ↦
          inr (more, off, inl (last, Finishes-bind (head_index s) (k b s) g rest e))
      | inr (more, off, inr (inner, rest)) ↦
          inr (more, off, inr (inner, Idle-bind (k b s) g rest e))
    ],
  )
  Consumes-bind hungry g h e = tt
  Consumes-bind faulty g h e = tt
