-- ===== src/Threads/Seeking.antt =====
-- The claims of src/queue.rs seek: in each of their accesses they leave the tail alone, or add one to
-- it, which over a sentinel claims nothing and over any other position claims that position.
use rapidfire.Prelude.{
  ℕ, zero, suc, ◌≡◌, ◌≢◌, refl, Option, none, some, Bool, true, false, ltb, leb, ◌==◌,
  if◌then◌else◌, ap, subst, Bool-cases, inl, inr, arith,
}
use rapidfire.Layout.{add_usize, offset_of, block_cap, items_between, unbounded, contention_window}
use rapidfire.Sync.{won, lost}
use rapidfire.Shared.{Inner, set_tail_index, set_tail_contended}
use rapidfire.Threads.Program.{Program, ◌>>=◌, ◌>>◌, return, store}
use rapidfire.Threads.Claim.{
  advance_tail, claim_fetch_add, adapt, claim_cas_loop, claim_cas, is_full, claim_bounded_loop,
  claim_bounded, claim,
}
use rapidfire.Threads.Phases.{
  Moves, Settled, Delivers, Delivers-if, Delivers-bind, Seeks, Settled-if, Seeks-if, Seeks-Settled,
  Seeks-bind,
}

-- A claim that has taken `p` returns it; one that took nothing returns `none`.
abbrev pub Taken : ℕ → Option ℕ → Type 0
Taken p r = r ≡ some p

abbrev pub Refused : Option ℕ → Type 0
Refused r = r ≡ none

abbrev Never : ℕ → Type 0
Never r = ⊥

abbrev Is : ℕ → ℕ → Type 0
Is p r = r ≡ p

module _ {A W : Type 0} where
  abbrev pub tail_index : Inner A W → ℕ
  tail_index s = s.queue.tail.index

module _ {A W : Type 0} (Stuck : Type 0) where
  -- The attempt to move the tail, by what decides it: whether it fails for no reason, and whether it
  -- finds the tail that it expects.
  attempt-Moves :
      {R : Type 0} (Idle : R → Type 0) (Owned : ℕ → R → Type 0) (tail : ℕ)
      (p : Program (Inner A W) R) (q : ℕ → Program (Inner A W) R)
      → (offset_of tail ≡ block_cap → Seeks tail_index Stuck Idle Owned p)
      → (offset_of tail ≢ block_cap → Delivers tail_index Stuck (Owned tail) p)
      → ((actual : ℕ) → Seeks tail_index Stuck Idle Owned (q actual))
      → (weak hit : Bool) (s : Inner A W) → (hit ≡ true → tail ≡ tail_index s)
      → let s' = if weak then s else if hit then set_tail_index (add_usize tail 1) s else s in
        let r = if weak then lost (tail_index s) else if hit then won else lost (tail_index s) in
        let rest = elim r as (λ _. Program (Inner A W) R) [ won ↦ p | lost actual ↦ q actual ] in
        Moves tail_index s s'
          (Seeks tail_index Stuck Idle Owned rest)
          (λ c. Delivers tail_index Stuck (Owned c) rest)
  attempt-Moves Idle Owned tail p q sentinel claimed again true hit s at = inl (refl, again _)
  attempt-Moves Idle Owned tail p q sentinel claimed again false false s at = inl (refl, again _)
  attempt-Moves Idle Owned tail p q sentinel claimed again false true s at = inr (
    ap (λ t. add_usize t 1) (at refl),
    elim (Bool-cases (offset_of tail == block_cap)) [
      | inl o ↦ let e = at refl in inl (ground arith, sentinel (ground arith))
      | inr o ↦
          let e = at refl in
          inr (
            ground arith,
            subst (λ t. Delivers tail_index Stuck (Owned t) p) e (claimed (ground arith)),
          )
    ],
  )

  advance_tail-Seeks :
      {R : Type 0} (Idle : R → Type 0) (Owned : ℕ → R → Type 0) (tail : ℕ)
      (p : Program (Inner A W) R) (q : ℕ → Program (Inner A W) R)
      → (offset_of tail ≡ block_cap → Seeks tail_index Stuck Idle Owned p)
      → (offset_of tail ≢ block_cap → Delivers tail_index Stuck (Owned tail) p)
      → ((actual : ℕ) → Seeks tail_index Stuck Idle Owned (q actual))
      → Seeks tail_index Stuck Idle Owned
          (advance_tail tail >>= λ r. elim r [ won ↦ p | lost actual ↦ q actual ])
  unfolding Seeks
  advance_tail-Seeks Idle Owned tail p q sentinel claimed again weak s =
      attempt-Moves Idle Owned tail p q sentinel claimed again weak (tail_index s == tail) s
        (λ e. ground arith)

module _ (A W Stuck : Type 0) where
  -- What follows the addition: the hint changes no index.
  after_fetch-Seeks :
      (same : Bool) (p : Program (Inner A W) ℕ)
      → Seeks tail_index Stuck Never Is p
      → Seeks tail_index Stuck Never Is
          ((if same then return tt else store (set_tail_contended contention_window)) >> p)
  unfolding Seeks
  after_fetch-Seeks true p h = h
  after_fetch-Seeks false p h = λ b s. inl (refl, h)

  hint-Delivers :
      (same : Bool)
      → Delivers
          (tail_index {A = A} {W = W})
          Stuck
          (λ _. Unit {0})
          (if same then return tt else store (set_tail_contended contention_window))
  unfolding Delivers
  hint-Delivers true = tt
  hint-Delivers false = λ b s. (refl, tt)

  after_fetch-Moves :
      (same sentinel : Bool) (again : Program (Inner A W) ℕ) (s : Inner A W)
      → sentinel ≡ (offset_of (tail_index s) == block_cap)
      → Seeks tail_index Stuck Never Is again
      → let rest =
          (if same then return tt else store (set_tail_contended contention_window))
          >> (if sentinel then again else return (tail_index s)) in
        Moves tail_index s
          (set_tail_index (add_usize (tail_index s) 1) s)
          (Seeks tail_index Stuck Never Is rest)
          (λ c. Delivers tail_index Stuck (Is c) rest)
  unfolding Delivers
  after_fetch-Moves same true again s e h =
      inr (refl, inl (ground arith, after_fetch-Seeks same again h))
  after_fetch-Moves same false again s e h = inr (
    refl,
    inr (
      ground arith,
      Delivers-bind tail_index Stuck (λ _. Unit {0}) (Is (tail_index s)) _ _ (hint-Delivers same)
          (λ _ _. refl),
    ),
  )

  claim_fetch_add-Seeks :
      (fuel : ℕ) → Seeks tail_index Stuck Never Is (claim_fetch_add {A = A} {W = W} fuel)
  unfolding claim_fetch_add Seeks Delivers
  claim_fetch_add-Seeks zero = tt
  claim_fetch_add-Seeks (suc fuel) = λ b s. inl (
    refl,
    λ b' s'.
        after_fetch-Moves (tail_index s' == tail_index s) (offset_of (tail_index s') == block_cap)
          (claim_fetch_add fuel) s' refl (claim_fetch_add-Seeks fuel),
  )

  adapt-Delivers :
      (failed : Bool) → Delivers (tail_index {A = A} {W = W}) Stuck (λ _. Unit {0}) (adapt failed)
  unfolding adapt Delivers
  adapt-Delivers true = λ b s. (refl, λ b' s'. (refl, tt))
  adapt-Delivers false = λ b s. (
    refl,
    Delivers-if tail_index Stuck (λ _. Unit {0}) (ltb 0 s.queue.tail.contended) _ _
        (λ _ b' s'. (refl, tt)) (λ _. tt),
  )

  is_full-Settled :
      (limit tail : ℕ) → Settled (tail_index {A = A} {W = W}) (λ _. Unit {0}) (is_full limit tail)
  unfolding is_full Settled
  is_full-Settled limit tail = λ b s. (
    refl,
    Settled-if tail_index (λ _. Unit {0}) (leb limit (items_between s.queue.tail.cached tail)) _ _
        (λ _ b' s'. (
          refl,
          Settled-if tail_index (λ _. Unit {0}) (leb limit (items_between s'.queue.head.index tail))
              _ _ (λ _. tt) (λ _ b'' s''. (refl, tt)),
        ))
        (λ _. tt),
  )

  claim_cas_loop-Seeks :
      (fuel tail : ℕ) (failed : Bool)
      → Seeks (tail_index {A = A} {W = W}) Stuck Never Is (claim_cas_loop fuel tail failed)
  unfolding claim_cas_loop Seeks Delivers
  claim_cas_loop-Seeks zero tail failed = tt
  claim_cas_loop-Seeks (suc fuel) tail failed =
      let skip = claim_cas_loop fuel (add_usize tail 1) failed in
      let claimed = adapt failed >> return tail in
      advance_tail-Seeks Stuck Never Is tail (if offset_of tail == block_cap then skip else claimed)
        (λ actual. claim_cas_loop fuel actual true)
        (λ o.
          Seeks-if tail_index Stuck Never Is (offset_of tail == block_cap) skip claimed
            (λ _. claim_cas_loop-Seeks fuel (add_usize tail 1) failed) (λ e. absurd (ground arith)))
        (λ o.
          Delivers-if tail_index Stuck (Is tail) (offset_of tail == block_cap) skip claimed
            (λ e. absurd (ground arith))
            (λ _.
              Delivers-bind tail_index Stuck (λ _. Unit {0}) (Is tail) (adapt failed) _
                (adapt-Delivers failed) (λ _ _. refl)))
        λ actual. claim_cas_loop-Seeks fuel actual true

  claim_cas-Seeks : (fuel : ℕ) → Seeks (tail_index {A = A} {W = W}) Stuck Never Is (claim_cas fuel)
  unfolding claim_cas Seeks
  claim_cas-Seeks fuel = λ b s. inl (refl, claim_cas_loop-Seeks fuel (tail_index s) false)

  claim_bounded_loop-Seeks :
      (fuel limit tail : ℕ)
      → Seeks (tail_index {A = A} {W = W}) Stuck Refused Taken (claim_bounded_loop fuel limit tail)
  unfolding claim_bounded_loop Seeks Delivers
  claim_bounded_loop-Seeks zero limit tail = tt
  claim_bounded_loop-Seeks (suc fuel) limit tail =
      Seeks-if tail_index Stuck Refused Taken (offset_of tail == block_cap) _ _
        (λ o.
          advance_tail-Seeks Stuck Refused Taken tail
            (claim_bounded_loop fuel limit (add_usize tail 1)) (claim_bounded_loop fuel limit)
            (λ _. claim_bounded_loop-Seeks fuel limit (add_usize tail 1))
            (λ n. absurd (ground arith)) (claim_bounded_loop-Seeks fuel limit))
        (λ o.
          Seeks-bind tail_index Stuck (λ _. Unit {0}) (λ _ _. ⊥) Refused Taken (is_full limit tail)
            _ (Seeks-Settled tail_index Stuck _ _ (is_full limit tail) (is_full-Settled limit tail))
            (λ full _.
              Seeks-if tail_index Stuck Refused Taken full _ _ (λ _. refl)
                (λ _.
                  advance_tail-Seeks Stuck Refused Taken tail (return (some tail))
                    (claim_bounded_loop fuel limit) (λ n. absurd (ground arith)) (λ _. refl)
                    (claim_bounded_loop-Seeks fuel limit)))
            λ _ _ f. absurd f)

  claim_bounded-Seeks :
      (fuel limit : ℕ)
      → Seeks (tail_index {A = A} {W = W}) Stuck Refused Taken (claim_bounded fuel limit)
  unfolding claim_bounded Seeks
  claim_bounded-Seeks fuel limit =
      λ b s. inl (refl, claim_bounded_loop-Seeks fuel limit (tail_index s))

  pub claim-Seeks :
      (fuel limit : ℕ) → Seeks (tail_index {A = A} {W = W}) Stuck Refused Taken (claim fuel limit)
  unfolding claim Seeks Delivers
  claim-Seeks fuel limit =
      Seeks-if tail_index Stuck Refused Taken (limit == unbounded) _ _
        (λ _ b s. inl (
          refl,
          Seeks-bind tail_index Stuck Never Is Refused Taken
              (if s.queue.tail.contended == 0 then claim_fetch_add fuel else claim_cas fuel)
              (λ tail. return (some tail))
              (Seeks-if tail_index Stuck Never Is (s.queue.tail.contended == 0) _ _
                (λ _. claim_fetch_add-Seeks fuel) (λ _. claim_cas-Seeks fuel))
              (λ _ f. absurd f) (λ p r e. ap some e),
        ))
        (λ _. claim_bounded-Seeks fuel limit)
