-- ===== src/Queue/Single.antt =====
-- The exclusive receive paths of src/queue.rs: `pop_single`, `pop_single_batch`, `recycle_single`.
use rapidfire.Prelude.{
  ℕ, zero, suc, ◌+◌, ◌-◌, Option, none, some, Bool, not, ◌==◌, if◌then◌else◌, List, [], ◌∷◌, ◌++◌,
  length, min,
}
use rapidfire.Layout.{block_cap, pooled, unbounded, add_usize, offset_of, lap_of, written_tag}
use rapidfire.Sync.{◌>>=◌, ◌>>◌, return, load, store, fetch}
use rapidfire.Shared.{Inner, set_block, set_head_index, set_head_block}
use rapidfire.Queue.Memory.{Act, deref, load_state, take_value}
use rapidfire.Queue.Pool.{recycle}

module _ {A W : Type 0} where
  unfoldable pub recycle_single : ℕ → Act A W (Unit {0})
  recycle_single block = do store (set_block block λ b. record b { start = pooled }); recycle block

  -- `head.block` moves on when the last slot of a block was taken.
  unfoldable pub step_block : Bool → ℕ → Act A W (Unit {0})
  step_block last block =
      if last
      then (do
        next ← load (λ s. (s.queue.memory block).next)
        n ← deref next
        store (set_head_block n))
      else return tt

  -- The new head, and the value of the wake flag: an unbounded queue stores the head and looks at
  -- no flag, a bounded one adds to it.
  unfoldable pub release_slots : (Inner A W → ℕ) → ℕ → ℕ → Act A W ℕ
  release_slots wake_flag head advance w =
      (if w.shared.queue.capacity == unbounded
          then (do store (set_head_index (add_usize head advance)); return 0)
          else (do
            fetch (λ _. tt) (λ s. set_head_index (add_usize s.queue.head.index advance) s)
            load wake_flag))
        w

  unfoldable pub pop_single : (Inner A W → ℕ) → Act A W (Option (A × Bool))
  pop_single wake_flag = do
    head ← load (λ s. s.queue.head.index)
    block ← load (λ s. s.queue.head.block)
    state ← load_state block (offset_of head)
    if state == written_tag (lap_of head)
        then (let last = offset_of head + 1 == block_cap in
            do
              value ← take_value block (offset_of head)
              step_block last block
              flag ← release_slots wake_flag head (if last then 2 else 1)
              if last then recycle_single block else return tt
              return (some (value, not (flag == 0))))
        else return none

  -- The values of at most `n` slots from an offset on, up to the first that is not written.
  unfoldable pub take_ready : ℕ → ℕ → ℕ → ℕ → Act A W (List A)
  take_ready zero block offset tag = return []
  take_ready (suc n) block offset tag =
      let more = take_ready n block (offset + 1) tag in
      do
        state ← load_state block offset
        if state == tag
            then (do value ← take_value block offset; values ← more; return (value ∷ values))
            else return []

  -- The two numbers: how many values were taken, and how many senders to wake.
  unfoldable pub pop_single_batch : List A → ℕ → (Inner A W → ℕ) → Act A W (List A × ℕ × ℕ)
  unfolding take_ready
  pop_single_batch buffer limit wake_flag = if limit == 0 then return (buffer, 0, 0) else (do
    head ← load (λ s. s.queue.head.index)
    block ← load (λ s. s.queue.head.block)
    state ← load_state block (offset_of head)
    if state == written_tag (lap_of head)
        then (do
          values ←
              take_ready (min limit (block_cap - offset_of head)) block (offset_of head)
                (written_tag (lap_of head))
          let count = length values
          let last = offset_of head + count == block_cap
          step_block last block
          flag ← release_slots wake_flag head (if last then count + 1 else count)
          if last then recycle_single block else return tt
          return (buffer ++ values, count, min flag count))
        else return (buffer, 0, 0))
