-- ===== src/Threads/Claims.antt =====
-- The positions that producers of src/queue.rs claim when any number of them interleave.
use rapidfire.Prelude.{
  ℕ, suc, ◌+◌, ◌≤◌, ◌<◌, ◌≡◌, ◌≢◌, refl, sym, ap, ◌∙◌, subst, Option, none, some, arith,
}
use mathlib.Core.Option.{get_or, IsSome}
use rapidfire.Layout.{offset_of, block_cap, usize_mod}
use rapidfire.Shared.{Inner}
use rapidfire.Threads.Program.{Program, finished, ◌>>=◌, return}
use rapidfire.Threads.System.{System, Reach, here, later}
use rapidfire.Threads.Claim.{claim}
use rapidfire.Threads.Positions.{IsClaimed, Phase, Step-IsClaimed}
use rapidfire.Threads.Phases.{Settled, Delivers, Seeks, Seeks-Settled, Seeks-bind}
use rapidfire.Threads.Seeking.{tail_index, Taken, Refused, claim-Seeks}

module _ {A W : Type 0} (Stuck : Type 0) where
  -- What follows a claim.
  abbrev pub and_fill :
      (ℕ → Program (Inner A W) (Option ℕ)) → Option ℕ → Program (Inner A W) (Option ℕ)
  and_fill fill none = return none
  and_fill fill (some p) = fill p

  -- The programs of the threads: a claim; a call that starts with a claim, leaves the tail alone after
  -- it and returns the claimed position; any other call that leaves the tail alone. If `Stuck` is
  -- empty, what follows a claim neither runs out of fuel nor faults.
  pub data Caller : Program (Inner A W) (Option ℕ) → Type 0 where
    claimer : (fuel limit : ℕ) → Caller (claim fuel limit)
    producer :
        (fuel limit : ℕ) (fill : ℕ → Program (Inner A W) (Option ℕ))
        → ((p : ℕ) → Delivers tail_index Stuck (Taken p) (fill p))
        → Caller (claim fuel limit >>= and_fill fill)
    bystander :
        (prog : Program (Inner A W) (Option ℕ)) → Settled tail_index Refused prog → Caller prog

  Caller-Seeks :
      (prog : Program (Inner A W) (Option ℕ))
      → Caller prog
      → Seeks tail_index Stuck Refused Taken prog
  unfolding Seeks Delivers Settled
  Caller-Seeks _ (claimer fuel limit) = claim-Seeks A W Stuck fuel limit
  Caller-Seeks _ (producer fuel limit fill h) =
      Seeks-bind tail_index Stuck Refused Taken Refused Taken (claim fuel limit) (and_fill fill)
        (claim-Seeks A W Stuck fuel limit) go_none go_some
    where
      go_none : (r : Option ℕ) → r ≡ none → Seeks tail_index Stuck Refused Taken (and_fill fill r)
      go_none none e = refl
      go_none (some p) e = absurd (subst IsSome e tt)

      go_some :
          (p : ℕ) (r : Option ℕ)
          → r ≡ some p
          → Delivers tail_index Stuck (Taken p) (and_fill fill r)
      go_some p none e = absurd (subst IsSome (sym e) tt)
      go_some p (some q) e =
          subst (λ t. Delivers tail_index Stuck (Taken t) (fill q)) (ap (λ o. get_or o p) e) (h q)
  Caller-Seeks _ (bystander prog h) = Seeks-Settled tail_index Stuck Refused Taken prog h

  reach-IsClaimed :
      (start s : System (Inner A W) (Option ℕ)) (n : ℕ)
      → ((i : ℕ) → Caller (start.thread i))
      → tail_index start.shared + n < usize_mod
      → Reach start n s
      → IsClaimed Stuck (tail_index start.shared) n s
  reach-IsClaimed start _ _ calls small here = record {
    held = λ _. none;
    phase = λ i. Caller-Seeks (start.thread i) (calls i);
    above = omega arith;
    below = omega arith;
    within = λ i p h. absurd (subst IsSome (sym h) tt);
    single = λ i j p h. absurd (subst IsSome (sym h) tt);
    covered = λ p a b. absurd (omega arith);
  }
  reach-IsClaimed start t (suc n) calls small (later {s = s} r step) =
      Step-IsClaimed Stuck (tail_index start.shared) n s t small
        (reach-IsClaimed start s n calls (omega arith) r) step

  -- A thread that has returned a position is the one that has claimed it.
  returned-held :
      (first n i p : ℕ) (s : System (Inner A W) (Option ℕ)) (c : IsClaimed Stuck first n s)
      → s.thread i ≡ finished (some p)
      → c.held i ≡ some p
  unfolding Seeks Delivers Settled
  returned-held first n i p s c e =
      go (c.held i) refl (subst (Phase Stuck (c.held i)) e (c.phase i))
    where
      go :
          (h : Option ℕ)
          → c.held i ≡ h
          → Phase {A = A} {W = W} Stuck h (finished (some p))
          → c.held i ≡ some p
      go none _ ph = absurd (subst IsSome ph tt)
      go (some q) h ph = h ∙ sym ph

module _ {A W : Type 0} where
  -- Any number of threads make the calls of `Caller`, and in any order each of their accesses happens
  -- on its own: the claims under contention, with their failed exchanges, among them. Let the number
  -- of accesses be too small for the tail to wrap. Then a position that a thread has returned lies
  -- between the first tail and the present one and is no sentinel, and two threads
  -- have returned two different ones.
  pub claims_distinct :
      (start s : System (Inner A W) (Option ℕ)) (n i j p q : ℕ)
      → ((m : ℕ) → Caller (Unit {0}) (start.thread m))
      → tail_index start.shared + n < usize_mod
      → Reach start n s
      → s.thread i ≡ finished (some p)
      → s.thread j ≡ finished (some q)
      → i ≢ j
      → (p ≢ q)
        × (tail_index start.shared ≤ p)
        × (p < tail_index s.shared)
        × (offset_of p ≢ block_cap)
  claims_distinct start s n i j p q calls small r ei ej ne =
      let c = reach-IsClaimed (Unit {0}) start s n calls small r in
      let hi = returned-held (Unit {0}) (tail_index start.shared) n i p s c ei in
      let hj = returned-held (Unit {0}) (tail_index start.shared) n j q s c ej in
      let (a, b, o) = c.within i p hi in
      (λ same. ne (c.single i j p hi (hj ∙ ap some (sym same))), a, b, o)

  -- Any number of threads make the calls of `Caller`, as `claims_distinct` has it. When what a
  -- thread does after its claim neither runs out of fuel nor faults, no position is lost: every
  -- position from the first tail to the present one that is no sentinel has a thread that has
  -- claimed it, which does not move the tail any more and returns that position after finitely many
  -- accesses of its own, whatever the other threads do.
  pub claims_cover :
      (start s : System (Inner A W) (Option ℕ)) (n p : ℕ)
      → ((m : ℕ) → Caller ⊥ (start.thread m))
      → tail_index start.shared + n < usize_mod
      → Reach start n s
      → tail_index start.shared ≤ p
      → p < tail_index s.shared
      → offset_of p ≢ block_cap
      → (i : ℕ) × Delivers tail_index ⊥ (Taken p) (s.thread i)
  claims_cover start s n p calls small r a b o =
      let c = reach-IsClaimed ⊥ start s n calls small r in
      let (i, h) = c.covered p a b o in (i, subst (λ h. Phase ⊥ h (s.thread i)) h (c.phase i))
