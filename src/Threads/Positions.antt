-- ===== src/Threads/Positions.antt =====
-- The invariant of the claims of src/queue.rs when any number of threads interleave.
use rapidfire.Prelude.{
  ℕ, suc, ◌+◌, ◌≤◌, ◌<◌, ◌≡◌, ◌≢◌, refl, sym, ap, ◌∙◌, subst, Option, none, some, Bool, update,
  update_self, update_ne, dec_lt, inl, inr, arith,
}
use mathlib.Core.Option.{IsSome}
use rapidfire.Layout.{offset_of, block_cap, usize_mod}
use rapidfire.Shared.{Inner}
use rapidfire.Threads.Program.{Program, access}
use rapidfire.Threads.System.{System, Step, turn}
use rapidfire.Threads.Tables.{update_all, update_both, update_claimed}
use rapidfire.Threads.Phases.{Delivers, Seeks}
use rapidfire.Threads.Seeking.{tail_index, Taken, Refused}

module _ {A W : Type 0} (Stuck : Type 0) where
  -- What is known of a thread by the position that it has claimed, if any.
  abbrev pub Phase : Option ℕ → Program (Inner A W) (Option ℕ) → Type 0
  Phase none prog = Seeks tail_index Stuck Refused Taken prog
  Phase (some p) prog = Delivers tail_index Stuck (Taken p) prog

  -- The claims so far: `held` says which thread has claimed which position. The positions are those
  -- from the first tail to the present one without the sentinels, each claimed by one thread.
  pub record IsClaimed (first n : ℕ) (s : System (Inner A W) (Option ℕ)) : Type 0 where
    pub held : ℕ → Option ℕ
    pub phase : (i : ℕ) → Phase (held i) (s.thread i)
    pub above : first ≤ tail_index s.shared
    pub below : tail_index s.shared ≤ first + n
    pub within :
        (i p : ℕ)
        → held i ≡ some p
        → (first ≤ p) × (p < tail_index s.shared) × (offset_of p ≢ block_cap)
    pub single : (i j p : ℕ) → held i ≡ some p → held j ≡ some p → i ≡ j
    pub covered :
        (p : ℕ)
        → first ≤ p
        → p < tail_index s.shared
        → offset_of p ≢ block_cap
        → (i : ℕ) × (held i ≡ some p)

  -- An access that claims nothing: what the tail passes over are sentinels.
  IsClaimed-pass :
      (first n : ℕ) (s : System (Inner A W) (Option ℕ)) (i : ℕ) (s' : Inner A W)
      (rest : Program (Inner A W) (Option ℕ)) (c : IsClaimed first n s)
      → tail_index s.shared ≤ tail_index s'
      → tail_index s' ≤ suc (tail_index s.shared)
      → ((p : ℕ) → tail_index s.shared ≤ p → p < tail_index s' → offset_of p ≡ block_cap)
      → Phase (c.held i) rest
      → IsClaimed first (suc n) (record { shared = s'; thread = update s.thread i rest })
  IsClaimed-pass first n s i s' rest c up one passed ph = record {
    held = c.held;
    phase = update_all (λ j. Phase (c.held j)) s.thread i rest c.phase ph;
    above = let a = c.above in omega arith;
    below = let b = c.below in omega arith;
    within = λ j p h. let (a, b, o) = c.within j p h in (a, omega arith, o);
    single = c.single;
    covered = λ p a b o. elim (dec_lt p (tail_index s.shared)) [
      | yes lt ↦ c.covered p a lt o
      | no ge ↦ absurd (o (passed p (omega arith) b))
    ];
  }

  -- An access that claims the position at the tail.
  IsClaimed-take :
      (first n : ℕ) (s : System (Inner A W) (Option ℕ)) (i : ℕ) (s' : Inner A W)
      (rest : Program (Inner A W) (Option ℕ)) (c : IsClaimed first n s)
      → c.held i ≡ none
      → tail_index s' ≡ suc (tail_index s.shared)
      → offset_of (tail_index s.shared) ≢ block_cap
      → Delivers tail_index Stuck (Taken (tail_index s.shared)) rest
      → IsClaimed first (suc n) (record { shared = s'; thread = update s.thread i rest })
  IsClaimed-take first n s i s' rest c free one off ph = record {
    held = update c.held i (some (tail_index s.shared));
    phase =
        update_both Phase c.held s.thread i (some (tail_index s.shared)) rest (λ j _. c.phase j) ph;
    above = let a = c.above in omega arith;
    below = let b = c.below in omega arith;
    within = λ j p h. elim (update_claimed c.held i j (tail_index s.shared) p h) [
      | inl (_, at) ↦
          let a = c.above in (omega arith, omega arith, λ o. off (ap offset_of (sym at) ∙ o))
      | inr (_, h') ↦ let (a, b, o) = c.within j p h' in (a, omega arith, o)
    ];
    single = λ j m p h g. elim (update_claimed c.held i j (tail_index s.shared) p h) [
      | inl (x, at) ↦ elim (update_claimed c.held i m (tail_index s.shared) p g) [
        | inl (y, _) ↦ omega arith
        | inr (_, g') ↦ let w = (c.within m p g').1 in absurd (omega arith)
      ]
      | inr (_, h') ↦ elim (update_claimed c.held i m (tail_index s.shared) p g) [
        | inl (y, at) ↦ let w = (c.within j p h').1 in absurd (omega arith)
        | inr (_, g') ↦ c.single j m p h' g'
      ]
    ];
    covered = λ p a b o. elim (dec_lt p (tail_index s.shared)) [
      | yes lt ↦
          let (j, h) = c.covered p a lt o in
          (
            j,
            update_ne c.held (some (tail_index s.shared))
                  (λ e. absurd (subst IsSome (sym h ∙ ap c.held (sym e) ∙ free) tt))
                ∙ h,
          )
      | no ge ↦ (i, update_self c.held i (some (tail_index s.shared)) ∙ ap some (omega arith))
    ];
  }

  -- One access of a thread that has claimed nothing so far, or of one that has its position.
  access-IsClaimed :
      (first n : ℕ) (s : System (Inner A W) (Option ℕ)) (i : ℕ) (weak : Bool)
      (f : Bool → Inner A W → Inner A W) (k : Bool → Inner A W → Program (Inner A W) (Option ℕ))
      (c : IsClaimed first n s)
      → first + suc n < usize_mod
      → (h : Option ℕ) → c.held i ≡ h
      → Phase h (access f k)
      → IsClaimed first
          (suc n)
          (record { shared = f weak s.shared; thread = update s.thread i (k weak s.shared) })
  unfolding Seeks Delivers
  access-IsClaimed first n s i weak f k c small none e ph = elim (ph weak s.shared) [
    | inl (same, rest) ↦
        IsClaimed-pass first n s i _ _ c (omega arith) (omega arith) (λ p a b. absurd (omega arith))
          (subst (λ h. Phase h (k weak s.shared)) (sym e) rest)
    | inr (more, inl (at, rest)) ↦
        let b = c.below in
        IsClaimed-pass first n s i _ _ c (omega arith) (omega arith)
          (λ p a b. ap offset_of (omega arith) ∙ at)
          (subst (λ h. Phase h (k weak s.shared)) (sym e) rest)
    | inr (more, inr (off, rest)) ↦
        let b = c.below in IsClaimed-take first n s i _ _ c e (omega arith) off rest
  ]
  access-IsClaimed first n s i weak f k c small (some p) e ph =
      let (same, rest) = ph weak s.shared in
      IsClaimed-pass first n s i _ _ c (omega arith) (omega arith) (λ p a b. absurd (omega arith))
        (subst (λ h. Phase h (k weak s.shared)) (sym e) rest)

  pub Step-IsClaimed :
      (first n : ℕ) (s t : System (Inner A W) (Option ℕ))
      → first + suc n < usize_mod
      → IsClaimed first n s
      → Step s t
      → IsClaimed first (suc n) t
  Step-IsClaimed first n s _ small c (turn i weak f k eq) =
      access-IsClaimed first n s i weak f k c small (c.held i) refl
        (subst (Phase (c.held i)) eq (c.phase i))
