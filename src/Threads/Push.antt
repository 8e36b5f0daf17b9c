-- ===== src/Threads/Push.antt =====
-- The `push` of src/queue.rs as a program of a thread: what follows the claim.
use rapidfire.Prelude.{
  ℕ, zero, suc, ◌+◌, Option, none, some, Bool, not, ◌&&◌, ◌==◌, ltb, if◌then◌else◌, Result, ok, err,
  update,
}
use rapidfire.Layout.{lap, block_cap, pooled, add_usize, offset_of, lap_of, start_of, written_tag}
use rapidfire.Shared.{Inner, set_queue, set_block, set_slot, set_tail_block, set_pool, set_spare}
use rapidfire.Queue.Memory.{fresh_block}
use rapidfire.Queue.Pool.{Picked, ready_block, retired_block, nothing, pick_queue}
use rapidfire.Threads.Program.{Program, ◌>>=◌, ◌>>◌, return, starve, crash, load, store, fetch}
use rapidfire.Threads.Claim.{claim}
use rapidfire.Threads.Pop.{reset, deref}

module _ {A W : Type 0} where
  unfoldable pub allocate : Program (Inner A W) ℕ
  allocate =
      fetch (λ s. s.queue.allocated)
        (set_queue λ q. record q {
          memory = update q.memory q.allocated fresh_block;
          allocated = q.allocated + 1;
        })

  unfoldable pub write_value : ℕ → ℕ → A → Program (Inner A W) (Unit {0})
  write_value a o v =
      if ltb o block_cap then store (set_slot a o λ c. record c { value = some v }) else crash

  unfoldable pub publish : ℕ → ℕ → ℕ → Program (Inner A W) (Unit {0})
  publish a o tag = store (set_slot a o λ c. record c { state = tag })

  abbrev pub finish_pick : Picked → Program (Inner A W) ℕ
  finish_pick (ready_block a) = return a
  finish_pick (retired_block a) = do reset a; return a
  finish_pick nothing = allocate

  unfoldable pub take_block_slow : Program (Inner A W) ℕ
  take_block_slow = do
    p ← fetch (λ s. (pick_queue s.queue).0) (λ s. set_pool (λ _. (pick_queue s.queue).1) s)
    finish_pick p

  -- The spare block if there was one.
  abbrev pub or_pool : Option ℕ → Program (Inner A W) ℕ
  or_pool (some a) = return a
  or_pool none = take_block_slow

  unfoldable pub take_block : Program (Inner A W) ℕ
  take_block = do spare ← fetch (λ s. s.queue.spare) (set_spare none); or_pool spare

  unfoldable pub find_block_walk : ℕ → ℕ → ℕ → Program (Inner A W) ℕ
  find_block_walk zero start block = starve
  find_block_walk (suc fuel) start block =
      let walk = λ (b : ℕ). find_block_walk fuel start b in
      do
        s ← load (λ s. (s.queue.memory block).start)
        if s == start
            then return block
            else (if ltb start s && not (s == pooled)
                then (do prev ← load (λ s. (s.queue.memory block).prev); b ← deref prev; walk b)
                else (do b ← load (λ s. s.queue.tail.block); walk b))

  unfoldable pub find_block_slow : ℕ → ℕ → Program (Inner A W) ℕ
  find_block_slow fuel pos = do
    block ← load (λ s. s.queue.tail.block)
    find_block_walk fuel (start_of pos) block

  unfoldable pub find_block : ℕ → ℕ → Program (Inner A W) ℕ
  find_block fuel pos = do
    block ← load (λ s. s.queue.tail.block)
    start ← load (λ s. (s.queue.memory block).start)
    if start == start_of pos then return block else find_block_slow fuel pos

  unfoldable pub install_next : ℕ → ℕ → Program (Inner A W) (Unit {0})
  install_next block tail = do
    next ← take_block
    store (set_block next λ b. record b { prev = some block })
    store (set_block next λ b. record b { next = none })
    store (set_block next λ b. record b { start = add_usize (start_of tail) lap })
    store (set_block block λ b. record b { next = some next })
    store (set_tail_block next)

  unfoldable pub fill : ℕ → (Inner A W → ℕ) → A → ℕ → Program (Inner A W) Bool
  fill fuel wake_flag value tail = do
    flag ← load wake_flag
    block ← find_block fuel tail
    if offset_of tail + 1 == block_cap then install_next block tail else return tt
    write_value block (offset_of tail) value
    publish block (offset_of tail) (written_tag (lap_of tail))
    return (not (flag == 0))

  -- What a push does once it has tried to claim a position.
  unfoldable pub complete : ℕ → (Inner A W → ℕ) → A → Option ℕ → Program (Inner A W) (Result Bool A)
  complete fuel wake_flag value none = return (err value)
  complete fuel wake_flag value (some tail) = do
    wake ← fill fuel wake_flag value tail
    return (ok wake)

  unfoldable pub push : ℕ → ℕ → (Inner A W → ℕ) → A → Program (Inner A W) (Result Bool A)
  push fuel limit wake_flag value = claim fuel limit >>= complete fuel wake_flag value
