-- ===== src/Queue/Pop.antt =====
-- The consumer's side of src/queue.rs: `pop` and `finish_block`.
use rapidfire.Prelude.{ℕ, zero, suc, ◌+◌, Option, none, some, Bool, false, not, ◌==◌, if◌then◌else◌}
use rapidfire.Layout.{block_cap, unbounded, add_usize, offset_of, lap_of, written_tag}
use rapidfire.Sync.{◌>>=◌, ◌>>◌, return, starve, load, store, compare_exchange_weak, won, lost}
use rapidfire.Shared.{Inner, set_head_index, set_head_block}
use rapidfire.Queue.Backoff.{snooze_bounded}
use rapidfire.Queue.Memory.{Act, load_marks, reset, deref, load_state, take_value, mark_read}
use rapidfire.Queue.Pool.{recycle, retire}

module _ {A W : Type 0} where
  -- Without a next block it faults; the source has a debug assertion there.
  unfoldable pub finish_block : ℕ → ℕ → Act A W (Unit {0})
  finish_block block head = do
    next ← load (λ s. (s.queue.memory block).next)
    n ← deref next
    store (set_head_block n)
    store (set_head_index (add_usize head 2))
    finished ← load_marks 62 0 block
    if finished then (do reset block; recycle block) else retire block

  -- Whether a consumer must look at its wake flag: unbounded senders never park.
  unfoldable pub sample : (Inner A W → ℕ) → Act A W Bool
  sample wake_flag w =
      (if w.shared.queue.capacity == unbounded
          then return false
          else (do flag ← load wake_flag; return (not (flag == 0))))
        w

  -- What `pop` does once it has claimed `head`.
  unfoldable pub drain_slot : (Inner A W → ℕ) → ℕ → ℕ → Act A W (Option (A × Bool))
  drain_slot wake_flag head block = do
    wake ← sample wake_flag
    value ← take_value block (offset_of head)
    if offset_of head + 1 == block_cap
        then finish_block block head
        else mark_read block (offset_of head)
    return (some (value, wake))

  -- The loop of `pop`; `polls` is its backoff.
  unfoldable pub pop_loop : ℕ → (Inner A W → ℕ) → ℕ → ℕ → ℕ → Act A W (Option (A × Bool))
  pop_loop zero wake_flag polls head block = starve
  pop_loop (suc fuel) wake_flag polls head block =
      let again = λ (polls' head' block' : ℕ). pop_loop fuel wake_flag polls' head' block' in
      if offset_of head == block_cap
      then (let (polls', more) = snooze_bounded polls in
          if more
          then (do
            head' ← load (λ s. s.queue.head.index)
            block' ← load (λ s. s.queue.head.block)
            again polls' head' block')
          else return none)
      else (do
        state ← load_state block (offset_of head)
        if state == written_tag (lap_of head)
            then (do
              r ←
                  compare_exchange_weak (λ s. s.queue.head.index) set_head_index head
                    (add_usize head 1)
              elim r [
                | won ↦ drain_slot wake_flag head block
                | lost actual ↦ (do
                  block' ← load (λ s. s.queue.head.block)
                  again polls actual block')
              ])
            else (do
              now ← load (λ s. s.queue.head.index)
              if now == head
                  then return none
                  else (do block' ← load (λ s. s.queue.head.block); again polls now block')))

  unfoldable pub pop : ℕ → (Inner A W → ℕ) → Act A W (Option (A × Bool))
  unfolding pop_loop
  pop fuel wake_flag = do
    head ← load (λ s. s.queue.head.index)
    block ← load (λ s. s.queue.head.block)
    pop_loop fuel wake_flag 0 head block
