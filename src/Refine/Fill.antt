-- ===== src/Refine/Fill.antt =====
-- What the second half of `push` does to memory for a thread that is alone.
use rapidfire.Prelude.{
  ℕ, ◌+◌, ◌<◌, ◌≡◌, ◌≢◌, refl, Option, none, some, not, List, [], ◌∷◌, ◌==◌, ◌⊎◌, update, arith, ap,
  ◌∙◌,
}
use mathlib.Core.Path.{ap₂}
use rapidfire.Layout.{lap_of, offset_of, start_of, written_tag}
use rapidfire.Sync.{done}
use rapidfire.Shared.{Block, Inner, set_queue, set_pool, set_spare}
use rapidfire.Queue.Memory.{allocate, fresh_block, write_value, publish}
use rapidfire.Queue.Pool.{
  ready_block, nothing, pick, pick_queue, or_pool, take_block, take_block_slow,
}
use rapidfire.Queue.Push.{find_block, fill}
use rapidfire.Refine.Holds.{free_blocks, free_list}
use rapidfire.Refine.Claim.{quiet}

module _ {A : Type 0} where
  -- Memory after a value and its tag went into a slot.
  unfoldable pub put_slot : (ℕ → Block A) → ℕ → ℕ → A → ℕ → ℕ → Block A
  put_slot m b o v tag =
      let c = (m b).slots in
      let written = update c o (record (c o) { value = some v }) in
      let block = record (m b) { slots = written } in
      update (update m b block) b (record (update m b block b) {
        slots =
            update (update m b block b).slots o
              (record ((update m b block b).slots o) { state = tag });
      })

  pub put_slot-header :
      (m : ℕ → Block A) (b o : ℕ) (v : A) (tag x : ℕ)
      → ((put_slot m b o v tag x).start ≡ (m x).start)
        × ((put_slot m b o v tag x).next ≡ (m x).next)
        × ((put_slot m b o v tag x).read_marks ≡ (m x).read_marks)
  unfolding put_slot update
  put_slot-header m b o v tag x = ground arith

  pub put_slot_self :
      (m : ℕ → Block A) (b o : ℕ) (v : A) (tag : ℕ)
      → (put_slot m b o v tag b).slots o ≡ record { value = some v; state = tag }
  unfolding put_slot update
  put_slot_self m b o v tag = ground arith

  pub put_slot-ne :
      (m : ℕ → Block A) (b o : ℕ) (v : A) (tag x p : ℕ)
      → (x ≢ b) ⊎ (p ≢ o)
      → (put_slot m b o v tag x).slots p ≡ (m x).slots p
  unfolding put_slot update
  put_slot-ne m b o v tag x p h = ground arith

module _ {A W : Type 0} where
  abbrev pub with_memory : Inner A W → (ℕ → Block A) → Inner A W
  with_memory s m = set_queue (λ q. record q { memory = m }) s

  -- The state after the oldest recycled block was taken.
  abbrev pub reused : Inner A W → List ℕ → Inner A W
  reused s rest =
      set_queue
        (λ q. record q { spare = none; pool = record { ready = rest; retired = q.pool.retired } }) s

  -- The state after a block was allocated.
  abbrev pub grown : Inner A W → Inner A W
  grown s =
      set_queue
        (λ q. record q {
          memory = update q.memory q.allocated fresh_block;
          allocated = q.allocated + 1;
        })
        s

  slow-reuse :
      (s : Inner A W) (a : ℕ) (rest : List ℕ)
      → s.queue.pool.ready ≡ a ∷ rest
      → take_block_slow (quiet s)
        ≡ done a (quiet (set_pool (λ p. record { ready = rest; retired = p.retired }) s))
  unfolding take_block_slow
  slow-reuse s a rest e =
      let picked : pick_queue s.queue
          ≡ (ready_block a, record { ready = rest; retired = s.queue.pool.retired }) =
        ap (λ r. pick s.queue.memory r s.queue.pool.retired) e in
      rw picked

  slow-grow :
      (s : Inner A W)
      → s.queue.pool.ready ≡ []
      → s.queue.pool.retired ≡ []
      → take_block_slow (quiet s) ≡ done s.queue.allocated (quiet (grown s))
  unfolding take_block_slow allocate
  slow-grow s e r =
      let picked : pick_queue s.queue ≡ (nothing, record { ready = []; retired = [] }) =
        ap₂ (pick s.queue.memory) e r in
      ground (arith, picked)

  or_pool-reuse :
      (s : Inner A W) (spare : Option ℕ) (a : ℕ) (rest : List ℕ)
      → free_blocks spare s.queue.pool.ready ≡ a ∷ rest
      → or_pool spare (quiet (set_spare none s)) ≡ done a (quiet (reused s rest))
  unfolding or_pool
  or_pool-reuse s none a rest e = slow-reuse (set_spare none s) a rest e
  or_pool-reuse s (some b) a rest e = ground arith

  pub take_block-reuse :
      (s : Inner A W) (a : ℕ) (rest : List ℕ)
      → free_list s.queue ≡ a ∷ rest
      → take_block (quiet s) ≡ done a (quiet (reused s rest))
  unfolding take_block
  take_block-reuse s a rest e = or_pool-reuse s s.queue.spare a rest e

  or_pool-grow :
      (s : Inner A W) (spare : Option ℕ)
      → s.queue.spare ≡ spare
      → free_blocks spare s.queue.pool.ready ≡ []
      → s.queue.pool.retired ≡ []
      → or_pool spare (quiet (set_spare none s)) ≡ done s.queue.allocated (quiet (grown s))
  unfolding or_pool
  or_pool-grow s none q e r = slow-grow (set_spare none s) e r ∙ ground arith
  or_pool-grow s (some b) q e r = cc

  pub take_block-grow :
      (s : Inner A W)
      → free_list s.queue ≡ []
      → s.queue.pool.retired ≡ []
      → take_block (quiet s) ≡ done s.queue.allocated (quiet (grown s))
  unfolding take_block
  take_block-grow s e r = or_pool-grow s s.queue.spare refl e r

  pub fill-plain :
      (fuel : ℕ) (flag : Inner A W → ℕ) (v : A) (tail : ℕ) (s : Inner A W)
      → offset_of tail < 62
      → (s.queue.memory s.queue.tail.block).start ≡ start_of tail
      → fill fuel flag v tail (quiet s)
        ≡ done (not (flag s == 0)) (
            quiet (
              with_memory s (
                put_slot s.queue.memory s.queue.tail.block
                  (offset_of tail)
                  v
                  (written_tag (lap_of tail)))))
  unfolding fill find_block write_value publish put_slot
  fill-plain fuel flag v tail s low here = ground arith
