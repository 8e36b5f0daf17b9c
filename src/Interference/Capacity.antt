-- ===== src/Interference/Capacity.antt =====
-- `claim_bounded` of src/queue.rs under interference: it admits no value beyond the capacity.
use rapidfire.Prelude.{
  ℕ, zero, suc, ◌+◌, ◌*◌, ◌≤◌, ◌<◌, ◌≡◌, ◌≢◌, ◌⊎◌, length, refl, Option, none, some, Bool, true,
  false, leb, ◌==◌, if◌then◌else◌, arith, Bool-cases, inl, inr,
}
use rapidfire.Layout.{add_usize, offset_of, block_cap, items_between}
use rapidfire.Sync.{World, Exchange, won, lost, disturb, is_spurious, return, ◌>>=◌}
use rapidfire.Shared.{Inner}
use rapidfire.Queue.Memory.{Act}
use rapidfire.Queue.Claim.{advance_tail, is_full, claim_bounded_loop, claim_bounded}
use rapidfire.Interference.After.{After, After-bind}
use rapidfire.Interference.Rely.{
  head_of, tail_of, Fair, disturb-Fair, Later, disturb-Later, Later-trans, spurious-shorter,
}

-- A head further on leaves fewer values.
pub items_between-antitone : (h h' t : ℕ) → h ≤ h' → items_between h' t ≤ items_between h t
unfolding items_between
items_between-antitone h h' t k = ground arith

module _ {A W : Type 0} where
  -- What the capacity check leaves: a verdict that there is room rests on a head that has been.
  abbrev Checked : World (Inner A W) → ℕ → ℕ → Bool → World (Inner A W) → Type 0
  Checked w0 limit tail true w = Fair w
  Checked w0 limit tail false w =
      Fair w × (c : ℕ) × (items_between c tail < limit) × (c ≤ head_of w.shared) × Later w0 w

  is_full-After :
      (limit tail : ℕ) (w : World (Inner A W))
      → Fair w
      → After (Checked w limit tail) (is_full limit tail w)
  unfolding is_full
  is_full-After limit tail w h =
      let w1 = disturb w in
      let h1 = (disturb-Fair w h).0 in
      let l1 = disturb-Later w in
      let c = w1.shared.queue.tail.cached in
      elim (Bool-cases (leb limit (items_between c tail))) [
        | inr e ↦ simp e (h1, c, ground arith, h1.0, l1)
        | inl e ↦
            let w2 = disturb w1 in
            let h2 = (disturb-Fair w1 h1).0 in
            let l2 = disturb-Later w1 in
            let n = head_of w2.shared in
            elim (Bool-cases (leb limit (items_between n tail))) [
              | inl e2 ↦ simp (e, e2) h2
              | inr e2 ↦
                  let h3 = disturb-Fair w2 h2 in
                  simp (e, e2)
                    (
                      (h3.1, h3.0.1),
                      n,
                      ground arith,
                      h3.1,
                      Later-trans w w1 (disturb w2) l1
                          (Later-trans w1 w2 (disturb w2) l2 (disturb-Later w2)),
                    )
            ]
      ]

  -- What the exchange leaves.
  abbrev Moved : World (Inner A W) → ℕ → Exchange → World (Inner A W) → Type 0
  Moved w0 tail won w =
      Fair w
      × (head_of w0.shared ≤ head_of w.shared)
      × (tail_of w.shared ≡ add_usize tail 1)
      × ((length w.schedule < length w0.schedule)
          ⊎ (length w.schedule ≡ length w0.schedule) × (tail_of w0.shared ≡ tail))
  Moved w0 tail (lost actual) w =
      Fair w
      × (tail_of w.shared ≡ actual)
      × ((length w.schedule < length w0.schedule)
          ⊎ (length w.schedule ≡ length w0.schedule) × (tail_of w0.shared ≢ tail))

  advance_tail-After :
      (tail : ℕ) (w : World (Inner A W)) → Fair w → After (Moved w tail) (advance_tail tail w)
  advance_tail-After tail w h =
      let w' = disturb w in
      let h' = disturb-Fair w h in
      let l = disturb-Later w in
      elim (Bool-cases (is_spurious w.schedule)) [
        | inl e ↦ simp e (h'.0, refl, inl (spurious-shorter w.shared w.schedule e))
        | inr e ↦ elim (Bool-cases (w'.shared.queue.tail.index == tail)) [
          | inl e2 ↦ simp (e, e2) (h'.0, h'.1, refl, ground arith)
          | inr e2 ↦ simp (e, e2) (h'.0, refl, ground arith)
        ]
      ]

  abbrev on_exchange : {R : Type 0} → Act A W R → (ℕ → Act A W R) → Exchange → Act A W R
  on_exchange k again won = k
  on_exchange k again (lost actual) = again actual

  After-exchange :
      {R : Type 0} (k : Act A W R) (again : ℕ → Act A W R) (tail : ℕ) (w : World (Inner A W))
      (Q : R → World (Inner A W) → Type 0)
      → Fair w
      → ((w' : World (Inner A W)) → Moved w tail won w' → After Q (k w'))
      → ((actual : ℕ) (w' : World (Inner A W))
          → Moved w tail (lost actual) w'
          → After Q (again actual w'))
      → After Q ((advance_tail tail >>= on_exchange k again) w)
  After-exchange {R} k again tail w Q h f g =
      After-bind (advance_tail tail) (on_exchange k again) w (Moved w tail) Q
        (advance_tail-After tail w h) go
    where
      go :
          (r : Exchange) (w' : World (Inner A W))
          → Moved w tail r w'
          → After Q (on_exchange k again r w')
      go won w' q = f w' q
      go (lost actual) w' q = g actual w' q

  abbrev on_verdict : Act A W (Option ℕ) → Bool → Act A W (Option ℕ)
  on_verdict k full = if full then return none else k

  After-verdict :
      (k : Act A W (Option ℕ)) (limit tail : ℕ) (w : World (Inner A W))
      (Q : Option ℕ → World (Inner A W) → Type 0)
      → Fair w
      → ((w' : World (Inner A W)) → Fair w' → Q none w')
      → ((w' : World (Inner A W)) → Checked w limit tail false w' → After Q (k w'))
      → After Q ((is_full limit tail >>= on_verdict k) w)
  After-verdict k limit tail w Q h f g =
      After-bind (is_full limit tail) (on_verdict k) w (Checked w limit tail) Q
        (is_full-After limit tail w h) go
    where
      go :
          (full : Bool) (w' : World (Inner A W))
          → Checked w limit tail full w'
          → After Q (on_verdict k full w')
      go true w' q = f w' q
      go false w' q = g w' q

  -- What a claim leaves: a claimed position is no sentinel, the tail stands right after it, and below
  -- it there are fewer values than the limit.
  abbrev pub Admitted : ℕ → Option ℕ → World (Inner A W) → Type 0
  Admitted limit none w = Fair w
  Admitted limit (some tail) w =
      Fair w
      × (offset_of tail ≢ block_cap)
      × (w.shared.queue.tail.index ≡ add_usize tail 1)
      × (items_between (head_of w.shared) tail < limit)

  -- A bound on the rounds that are left. An event of the other threads costs three at most: it may
  -- move the tail away, and on to a sentinel.
  abbrev rank : ℕ → World (Inner A W) → ℕ
  rank tail w =
      3 * length w.schedule
      + (if tail_of w.shared == tail then (if offset_of tail == block_cap then 1 else 0) else 2)

  rank-lost :
      (tail actual : ℕ) (w w' : World (Inner A W))
      → Moved w tail (lost actual) w'
      → rank actual w' < rank tail w
  rank-lost tail actual w w' q = let d = q.2 in let e = q.1 in ground arith

  rank-won :
      (tail : ℕ) (w w' : World (Inner A W))
      → Moved w tail won w'
      → offset_of tail ≡ block_cap
      → rank (add_usize tail 1) w' < rank tail w
  rank-won tail w w' q o = let d = q.3 in let e = q.2 in ground arith

  rank-Later : (tail : ℕ) (w w' : World (Inner A W)) → Later w w' → rank tail w' ≤ rank tail w
  rank-Later tail w w' l = ground arith

  loop-Admitted :
      (fuel limit tail : ℕ) (w : World (Inner A W))
      → Fair w
      → rank tail w < fuel
      → After (Admitted limit) (claim_bounded_loop fuel limit tail w)
  unfolding claim_bounded_loop
  loop-Admitted zero limit tail w h r = absurd (omega arith)
  loop-Admitted (suc fuel) limit tail w h r = elim (Bool-cases (offset_of tail == block_cap)) [
    | inl e ↦
        let o : offset_of tail ≡ block_cap = ground arith in
        simp e (
          After-exchange (claim_bounded_loop fuel limit (add_usize tail 1))
            (claim_bounded_loop fuel limit) tail w (Admitted limit) h
            (λ w' q.
              let less = rank-won tail w w' q o in
              loop-Admitted fuel limit (add_usize tail 1) w' q.0 (omega arith))
            (λ actual w' q.
              let less = rank-lost tail actual w w' q in
              loop-Admitted fuel limit actual w' q.0 (omega arith)))
    | inr e ↦ simp e (
        After-verdict
          (advance_tail tail >>= on_exchange (return (some tail)) (claim_bounded_loop fuel limit))
          limit tail w (Admitted limit) h (λ w' q. q)
          (λ w' (fair, c, below, behind, later).
            After-exchange (return (some tail)) (claim_bounded_loop fuel limit) tail w'
              (Admitted limit) fair
              (λ w'' q.
                let least = q.1 in
                let k = items_between-antitone c (head_of w''.shared) tail (omega arith) in
                (q.0, ground arith, q.2, omega arith))
              (λ actual w'' q.
                let less = rank-lost tail actual w' w'' q in
                let less' = rank-Later tail w w' later in
                loop-Admitted fuel limit actual w'' q.0 (omega arith))))
  ]

  -- Whatever other threads do between the accesses of a producer on a bounded queue, as long as the
  -- head only advances and the cached head stays behind it: with fuel for three rounds and three
  -- more for each of their events, a claim returns. If it succeeds, then right after its exchange
  -- the tail stands just past the claimed position, which is no sentinel, and below that position
  -- there are fewer values than the limit. In either case the cached head is still behind the head.
  pub claim_bounded_admits :
      (fuel limit : ℕ) (w : World (Inner A W))
      → Fair w
      → 3 * length w.schedule + 3 ≤ fuel
      → After (Admitted limit) (claim_bounded fuel limit w)
  unfolding claim_bounded
  claim_bounded_admits fuel limit w h enough =
      let w' = disturb w in
      let l = disturb-Later w in
      loop-Admitted fuel limit w'.shared.queue.tail.index w' (disturb-Fair w h).0 (ground arith)
