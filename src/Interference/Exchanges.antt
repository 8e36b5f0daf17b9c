-- ===== src/Interference/Exchanges.antt =====
-- `claim_cas` of src/queue.rs, and the claim of an unbounded queue, under interference.
use rapidfire.Prelude.{
  ℕ, zero, suc, ◌+◌, ◌*◌, ◌≤◌, ◌<◌, ◌≡◌, ◌≢◌, ◌⊎◌, length, refl, Bool, true, false, ltb, ◌==◌,
  if◌then◌else◌, arith, Bool-cases, inl, inr,
}
use rapidfire.Layout.{usize_mod, add_usize, offset_of, block_cap}
use rapidfire.Sync.{World, Exchange, won, lost, disturb, is_spurious, return, ◌>>=◌, ◌>>◌}
use rapidfire.Shared.{Inner}
use rapidfire.Queue.Memory.{Act}
use rapidfire.Queue.Claim.{advance_tail, adapt, claim_cas_loop, claim_cas}
use rapidfire.Interference.After.{After, After-bind, After-weaken}
use rapidfire.Interference.Rely.{tail_of, disturb-Later, spurious-shorter}
use rapidfire.Interference.Claims.{HasRoom, disturb-HasRoom, Fresh}

module _ {A W : Type 0} (step : ℕ) where
  -- What the exchange leaves.
  abbrev Exchanged : World (Inner A W) → ℕ → ℕ → Exchange → World (Inner A W) → Type 0
  Exchanged w0 n tail won w =
      HasRoom step n w
      × (tail_of w.shared ≡ tail + 1)
      × (tail_of w0.shared ≤ tail)
      × ((length w.schedule < length w0.schedule)
          ⊎ (length w.schedule ≡ length w0.schedule) × (tail_of w0.shared ≡ tail))
  Exchanged w0 n tail (lost actual) w =
      HasRoom step n w
      × (tail_of w.shared ≡ actual)
      × (tail_of w0.shared ≤ actual)
      × ((length w.schedule < length w0.schedule)
          ⊎ (length w.schedule ≡ length w0.schedule) × (tail_of w0.shared ≢ tail))

  advance_tail-Exchanged :
      (n tail : ℕ) (w : World (Inner A W))
      → HasRoom step (suc n) w
      → After (Exchanged w n tail) (advance_tail tail w)
  advance_tail-Exchanged n tail w h =
      let w' = disturb w in
      let h' = disturb-HasRoom step (suc n) w h in
      let l = disturb-Later w in
      let room : HasRoom step n w' = (omega (arith, h'.0.0), h'.0.1) in
      elim (Bool-cases (is_spurious w.schedule)) [
        | inl e ↦ simp e (room, refl, h'.1, inl (spurious-shorter w.shared w.schedule e))
        | inr e ↦ elim (Bool-cases (w'.shared.queue.tail.index == tail)) [
          | inl e2 ↦
              simp (e, e2)
                (
                  (ground (arith, h'.0.0), h'.0.1),
                  ground (arith, h'.0.0),
                  ground arith,
                  ground arith,
                )
          | inr e2 ↦ simp (e, e2) (room, refl, h'.1, ground arith)
        ]
      ]

  adapt-After :
      (n : ℕ) (failed : Bool) (w : World (Inner A W))
      → HasRoom step n w
      → After (λ _ w'. HasRoom step n w' × (tail_of w.shared ≤ tail_of w'.shared)) (adapt failed w)
  unfolding adapt
  adapt-After n true w h =
      let h1 = disturb-HasRoom step n w h in
      let h2 = disturb-HasRoom step n (disturb w) h1.0 in (h2.0, omega (arith, h1.1, h2.1))
  adapt-After n false w h =
      let w1 = disturb w in
      let h1 = disturb-HasRoom step n w h in
      let h2 = disturb-HasRoom step n w1 h1.0 in
      elim (Bool-cases (ltb 0 w1.shared.queue.tail.contended)) [
        | inl e ↦ simp e (h2.0, omega (arith, h1.1, h2.1))
        | inr e ↦ simp e h1
      ]

  -- How many rounds are left.
  tries : ℕ → World (Inner A W) → ℕ
  tries tail w =
      3 * length w.schedule
      + (if tail_of w.shared == tail then (if offset_of tail == block_cap then 2 else 1) else 3)

  abbrev on_exchange : {R : Type 0} → Act A W R → (ℕ → Act A W R) → Exchange → Act A W R
  on_exchange k again won = k
  on_exchange k again (lost actual) = again actual

  After-advance :
      {R : Type 0} (k : Act A W R) (again : ℕ → Act A W R) (n tail : ℕ) (w : World (Inner A W))
      (Q : R → World (Inner A W) → Type 0)
      → HasRoom step (suc n) w
      → ((w' : World (Inner A W)) → Exchanged w n tail won w' → After Q (k w'))
      → ((actual : ℕ) (w' : World (Inner A W))
          → Exchanged w n tail (lost actual) w'
          → After Q (again actual w'))
      → After Q ((advance_tail tail >>= on_exchange k again) w)
  After-advance {R} k again n tail w Q h f g =
      After-bind (advance_tail tail) (on_exchange k again) w (Exchanged w n tail) Q
        (advance_tail-Exchanged n tail w h) go
    where
      go :
          (r : Exchange) (w' : World (Inner A W))
          → Exchanged w n tail r w'
          → After Q (on_exchange k again r w')
      go won w' q = f w' q
      go (lost actual) w' q = g actual w' q

  tries-won :
      (fuel n tail : ℕ) (w w' : World (Inner A W))
      → Exchanged w n tail won w'
      → offset_of tail ≡ 63
      → tail + 1 < usize_mod
      → tries tail w ≤ suc fuel
      → tries (add_usize tail 1) w' ≤ fuel
  unfolding tries
  tries-won fuel n tail w w' q e small r = let c = q.1 in let d = q.3 in ground arith

  tries-lost :
      (fuel n tail actual : ℕ) (w w' : World (Inner A W))
      → Exchanged w n tail (lost actual) w'
      → tries tail w ≤ suc fuel
      → tries actual w' ≤ fuel
  unfolding tries
  tries-lost fuel n tail actual w w' q r = let c = q.1 in let d = q.3 in ground arith

  claim_cas_loop-Fresh :
      (fuel n tail : ℕ) (failed : Bool) (w : World (Inner A W))
      → HasRoom step (fuel + n) w
      → tries tail w ≤ fuel
      → After (Fresh step w n) (claim_cas_loop fuel tail failed w)
  unfolding claim_cas_loop tries
  claim_cas_loop-Fresh zero n tail failed w h r = absurd (ground arith)
  claim_cas_loop-Fresh (suc fuel) n tail failed w h r =
      After-advance
        (if offset_of tail == block_cap
          then claim_cas_loop fuel (add_usize tail 1) failed
          else (do adapt failed; return tail))
        (λ actual. claim_cas_loop fuel actual true) (fuel + n) tail w (Fresh step w n)
        (omega (arith, h.0), h.1)
        (λ w' q. elim (Bool-cases (offset_of tail == block_cap)) [
          | inl e ↦ simp e (
              After-weaken (claim_cas_loop fuel (add_usize tail 1) failed w') (Fresh step w' n)
                (Fresh step w n)
                (claim_cas_loop-Fresh fuel n (add_usize tail 1) failed w' q.0 (
                  tries-won fuel (fuel + n) tail w w' q (ground arith) (omega (arith, q.0.0, q.1))
                    r))
                (λ p w'' f. (omega (arith, f.0, q.1, q.2), f.1, f.2, f.3)))
          | inr e ↦ simp e (
              After-bind (adapt failed) _ w' _ (Fresh step w n)
                (adapt-After (fuel + n) failed w' q.0)
                (λ _ w'' (room, later).
                  (q.2, omega (arith, later, q.1), ground arith, (omega (arith, room.0), room.1))))
        ])
        (λ actual w' q.
          After-weaken (claim_cas_loop fuel actual true w') (Fresh step w' n) (Fresh step w n)
            (claim_cas_loop-Fresh fuel n actual true w' q.0
              (tries-lost fuel (fuel + n) tail actual w w' q r))
            (λ p w'' f. (omega (arith, f.0, q.1, q.2), f.1, f.2, f.3)))

  pub claim_cas-Fresh :
      (fuel n : ℕ) (w : World (Inner A W))
      → HasRoom step (fuel + n) w
      → 3 * length w.schedule + 3 ≤ fuel
      → After (Fresh step w n) (claim_cas fuel w)
  unfolding claim_cas tries
  claim_cas-Fresh fuel n w h r =
      let w1 = disturb w in
      let h1 = disturb-HasRoom step (fuel + n) w h in
      let l = disturb-Later w in
      After-weaken (claim_cas_loop fuel (tail_of w1.shared) false w1) (Fresh step w1 n)
        (Fresh step w n)
        (claim_cas_loop-Fresh fuel n (tail_of w1.shared) false w1 h1.0 (ground arith))
        (λ p w'' f. (omega (arith, f.0, h1.1), f.1, f.2, f.3))
