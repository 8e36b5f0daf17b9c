-- ===== src/Queue/Push.antt =====
-- The producer's side of src/queue.rs: `push`, `find_block`, `install_next`.
use rapidfire.Prelude.{
  ℕ, zero, suc, ◌+◌, Option, none, some, Bool, not, ◌&&◌, ltb, ◌==◌, if◌then◌else◌, Result, ok, err,
}
use rapidfire.Layout.{
  lap, block_cap, pooled, unbounded, add_usize, offset_of, lap_of, start_of, written_tag,
}
use rapidfire.Sync.{◌>>=◌, ◌>>◌, return, starve, load, store}
use rapidfire.Shared.{Inner, set_block, set_tail_block}
use rapidfire.Queue.Memory.{Act, deref, write_value, publish}
use rapidfire.Queue.Pool.{take_block}
use rapidfire.Queue.Claim.{claim_fetch_add, claim_cas, claim_bounded}

module _ {A W : Type 0} where
  -- The walk of `find_block_slow` from a block; where the source snoozes, other threads act.
  unfoldable pub find_block_walk : ℕ → ℕ → ℕ → Act A W ℕ
  find_block_walk zero start block = starve
  find_block_walk (suc fuel) start block =
      let walk = λ (b : ℕ). find_block_walk fuel start b in
      do
        s ← load (λ s. (s.queue.memory block).start)
        if s == start
            then return block
            else (if ltb start s && not (s == pooled)
                then (do prev ← load (λ s. (s.queue.memory block).prev); b ← deref prev; walk b)
                else (do b ← load (λ s. s.queue.tail.block); walk b))

  unfoldable pub find_block_slow : ℕ → ℕ → Act A W ℕ
  unfolding find_block_walk
  find_block_slow fuel pos = do
    block ← load (λ s. s.queue.tail.block)
    find_block_walk fuel (start_of pos) block

  unfoldable pub find_block : ℕ → ℕ → Act A W ℕ
  find_block fuel pos = do
    block ← load (λ s. s.queue.tail.block)
    start ← load (λ s. (s.queue.memory block).start)
    if start == start_of pos then return block else find_block_slow fuel pos

  unfoldable pub install_next : ℕ → ℕ → Act A W (Unit {0})
  install_next block tail = do
    next ← take_block
    store (set_block next λ b. record b { prev = some block })
    store (set_block next λ b. record b { next = none })
    store (set_block next λ b. record b { start = add_usize (start_of tail) lap })
    store (set_block block λ b. record b { next = some next })
    store (set_tail_block next)

  -- The claim of `push`; `none` means that a bounded queue is full.
  unfoldable pub claim : ℕ → Act A W (Option ℕ)
  claim fuel w =
      let limit = w.shared.queue.capacity in
      (if limit == unbounded
          then (do
            contended ← load (λ s. s.queue.tail.contended)
            tail ← if contended == 0 then claim_fetch_add fuel else claim_cas fuel
            return (some tail))
          else claim_bounded fuel limit)
        w

  -- The rest of `push`, once a position is claimed.
  unfoldable pub fill : ℕ → (Inner A W → ℕ) → A → ℕ → Act A W Bool
  fill fuel wake_flag value tail = do
    flag ← load wake_flag
    block ← find_block fuel tail
    if offset_of tail + 1 == block_cap then install_next block tail else return tt
    write_value block (offset_of tail) value
    publish block (offset_of tail) (written_tag (lap_of tail))
    return (not (flag == 0))

  -- `wake_flag` is the reference that the source passes. `err` hands the value back.
  unfoldable pub push : ℕ → (Inner A W → ℕ) → A → Act A W (Result Bool A)
  push fuel wake_flag value = do
    claimed ← claim fuel
    elim claimed [
      | none ↦ return (err value)
      | some tail ↦ (do wake ← fill fuel wake_flag value tail; return (ok wake))
    ]
