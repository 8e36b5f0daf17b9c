-- ===== src/Interference/Claims.antt =====
-- `claim_fetch_add` and `claim_cas` of src/queue.rs under interference: a claim is of a position that
-- no earlier claim had, and the tail stands past it afterwards.
use rapidfire.Prelude.{
  ℕ, zero, suc, ◌+◌, ◌≤◌, ◌<◌, ◌≡◌, ◌≢◌, length, refl, Bool, true, false, List, [], ◌∷◌, All, ◌==◌,
  if◌then◌else◌, arith, Bool-cases, inl, inr,
}
use rapidfire.Layout.{usize_mod, add_usize, offset_of, block_cap, contention_window}
use rapidfire.Sync.{Event, act, spurious, World, disturb, settle, return, store}
use rapidfire.Shared.{Inner, set_tail_index, set_tail_contended}
use rapidfire.Queue.Claim.{claim_fetch_add}
use rapidfire.Interference.After.{After, After-bind, After-weaken}
use rapidfire.Interference.Rely.{tail_of, Later, disturb-Later}

module _ {A W : Type 0} (step : ℕ) where
  -- Other threads move the tail forward, between two accesses by at most `step`, as long as the
  -- positions do not run out.
  abbrev pub Forward : Event (Inner A W) → Type 0
  Forward (act f) =
      (s : Inner A W)
      → tail_of s + step < usize_mod
      → (tail_of s ≤ tail_of (f s)) × (tail_of (f s) ≤ tail_of s + step)
  Forward spurious = Unit

  -- How far they may move it yet.
  abbrev pub reach : List (Event (Inner A W)) → ℕ
  reach [] = 0
  reach (e ∷ es) = step + reach es

  -- The tail does not come to the end of the positions, with some more claims of this thread.
  abbrev pub HasRoom : ℕ → World (Inner A W) → Type 0
  HasRoom n w = (tail_of w.shared + reach w.schedule + n < usize_mod) × All Forward w.schedule

  settle-HasRoom :
      (n : ℕ) (s : Inner A W) (es : List (Event (Inner A W)))
      → tail_of s + reach es + n < usize_mod
      → All Forward es
      → HasRoom n (settle s es) × (tail_of s ≤ tail_of (settle s es).shared)
  settle-HasRoom n s [] c h = ((c, tt), omega arith)
  settle-HasRoom n s (act f ∷ es) c h =
      let k = h.0 s (omega (arith, c)) in ((omega arith, h.1), k.0)
  settle-HasRoom n s (spurious ∷ es) c h = ((omega arith, h.1), omega arith)

  pub disturb-HasRoom :
      (n : ℕ) (w : World (Inner A W))
      → HasRoom n w
      → HasRoom n (disturb w) × (tail_of w.shared ≤ tail_of (disturb w).shared)
  disturb-HasRoom n w h = settle-HasRoom n w.shared w.schedule h.0 h.1

  -- A claimed position: it is at or past the tail of the start, below the tail of the end, and no
  -- sentinel.
  abbrev pub Fresh : World (Inner A W) → ℕ → ℕ → World (Inner A W) → Type 0
  Fresh w n p w' =
      (tail_of w.shared ≤ p) × (p < tail_of w'.shared) × (offset_of p ≢ block_cap) × HasRoom n w'

  abbrev pub rounds : World (Inner A W) → ℕ
  rounds w = length w.schedule + (if offset_of (tail_of w.shared) == block_cap then 2 else 1)

  -- The hint on contention is set or not.
  hint-After :
      (n : ℕ) (b : Bool) (w : World (Inner A W))
      → HasRoom n w
      → After
          (λ _ w'. HasRoom n w' × (tail_of w.shared ≤ tail_of w'.shared) × Later w w')
          ((if b then return tt else store (set_tail_contended contention_window)) w)
  hint-After n true w h = (h, omega arith, inr (refl, refl))
  hint-After n false w h = let k = disturb-HasRoom n w h in (k.0, k.1, disturb-Later w)

  -- A round that finds a sentinel leaves fewer rounds.
  fewer-rounds :
      (w w1 w2 w4 : World (Inner A W)) (fuel : ℕ)
      → Later w w1
      → Later w1 w2
      → Later (record w2 { shared = set_tail_index (add_usize (tail_of w2.shared) 1) w2.shared }) w4
      → offset_of (tail_of w2.shared) ≡ 63
      → rounds w ≤ suc fuel
      → rounds w4 ≤ fuel
  fewer-rounds w w1 w2 w4 fuel l1 l2 l4 e r = ground arith

  pub claim_fetch_add-Fresh :
      (fuel n : ℕ) (w : World (Inner A W))
      → HasRoom (fuel + n) w
      → rounds w ≤ fuel
      → After (Fresh w n) (claim_fetch_add fuel w)
  unfolding claim_fetch_add
  claim_fetch_add-Fresh zero n w h r = absurd (ground arith)
  claim_fetch_add-Fresh (suc fuel) n w h r =
      let w1 = disturb w in
      let h1 = disturb-HasRoom (suc fuel + n) w h in
      let w2 = disturb w1 in
      let h2 = disturb-HasRoom (suc fuel + n) w1 h1.0 in
      let t = tail_of w2.shared in
      let l1 = disturb-Later w in
      let l2 = disturb-Later w1 in
      let w3 = record w2 { shared = set_tail_index (add_usize t 1) w2.shared } in
      let h3 : HasRoom (fuel + n) w3 = (omega (arith, h2.0.0), h2.0.1) in
      After-bind
        (if t == tail_of w1.shared then return tt else store (set_tail_contended contention_window))
        _ w3 _ (Fresh w n) (hint-After (fuel + n) (t == tail_of w1.shared) w3 h3)
        (λ _ w4 (h4, later, l4). elim (Bool-cases (offset_of t == block_cap)) [
          | inl e ↦ simp e (
              After-weaken (claim_fetch_add fuel w4) (Fresh w4 n) (Fresh w n)
                (claim_fetch_add-Fresh fuel n w4 h4
                  (fewer-rounds w w1 w2 w4 fuel l1 l2 l4 (ground arith) r))
                (λ p w' q. (omega (arith, q.0, later, h1.1, h2.1, h2.0.0), q.1, q.2, q.3)))
          | inr e ↦ simp e (
            omega (arith, h1.1, h2.1),
            omega (arith, later, h2.0.0),
            ground arith,
            (omega (arith, h4.0), h4.1),
          )
        ])
