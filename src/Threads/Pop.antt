-- ===== src/Threads/Pop.antt =====
-- The `pop` of src/queue.rs as a program of a thread. `limit` is the queue's capacity, which does not
-- change.
use rapidfire.Prelude.{
  ℕ, zero, suc, ◌+◌, ◌∷◌, [], ◌++◌, Option, none, some, Bool, true, false, not, ◌==◌, ltb,
  if◌then◌else◌, update,
}
use rapidfire.Layout.{pooled, block_cap, unbounded, add_usize, offset_of, lap_of, written_tag}
use rapidfire.Sync.{Exchange, won, lost}
use rapidfire.Shared.{
  Inner, set_head_index, set_head_block, set_block, set_slot, set_pool, set_spare,
}
use rapidfire.Queue.Backoff.{snooze_bounded}
use rapidfire.Queue.Pool.{is_null}
use rapidfire.Threads.Program.{
  Program, access, faulty, ◌>>=◌, ◌>>◌, return, starve, crash, load, store, fetch,
  compare_exchange_weak,
}

module _ {A W : Type 0} where
  unfoldable pub clear_marks : ℕ → ℕ → Program (Inner A W) (Unit {0})
  clear_marks zero a = return tt
  clear_marks (suc n) a = do
    clear_marks n a
    store (set_block a λ b. record b { read_marks = update b.read_marks n 0 })

  unfoldable pub reset : ℕ → Program (Inner A W) (Unit {0})
  reset a = do clear_marks block_cap a; store (set_block a λ b. record b { start = pooled })

  unfoldable pub load_marks : ℕ → ℕ → ℕ → Program (Inner A W) Bool
  load_marks zero o a = return true
  load_marks (suc left) o a =
      let later = load_marks left (o + 1) a in
      do
        mark ← load (λ s. (s.queue.memory a).read_marks o)
        if mark == 0 then return false else later

  abbrev pub deref : Option ℕ → Program (Inner A W) ℕ
  deref none = crash
  deref (some a) = return a

  unfoldable pub load_state : ℕ → ℕ → Program (Inner A W) ℕ
  load_state a o = if ltb o block_cap then load (λ s. ((s.queue.memory a).slots o).state) else crash

  -- The slot after the value has been moved out of it.
  abbrev pub emptied : ℕ → ℕ → Option A → Inner A W → Inner A W
  emptied a o none s = s
  emptied a o (some v) s = set_slot a o (λ c. record c { value = none }) s

  abbrev pub value_or_fault : Option A → Program (Inner A W) A
  value_or_fault none = faulty
  value_or_fault (some v) = return v

  unfoldable pub take_value : ℕ → ℕ → Program (Inner A W) A
  take_value a o =
      access (λ _ s. emptied a o ((s.queue.memory a).slots o).value s)
        (λ _ s. value_or_fault ((s.queue.memory a).slots o).value)

  unfoldable pub mark_read : ℕ → ℕ → Program (Inner A W) (Unit {0})
  mark_read a o = store (set_block a λ b. record b { read_marks = update b.read_marks o 1 })

  unfoldable pub recycle_slow : ℕ → Program (Inner A W) (Unit {0})
  recycle_slow a = store (set_pool λ p. record p { ready = a ∷ p.ready })

  unfoldable pub recycle : ℕ → Program (Inner A W) (Unit {0})
  recycle a = do
    empty ←
        fetch (λ s. is_null s.queue.spare)
          (λ s. if is_null s.queue.spare then set_spare (some a) s else s)
    if empty then return tt else recycle_slow a

  unfoldable pub retire : ℕ → Program (Inner A W) (Unit {0})
  retire a = store (set_pool λ p. record p { retired = p.retired ++ a ∷ [] })

  -- Without a next block it faults; the source has a debug assertion there.
  unfoldable pub finish_block : ℕ → ℕ → Program (Inner A W) (Unit {0})
  finish_block block head = do
    next ← load (λ s. (s.queue.memory block).next)
    n ← deref next
    store (set_head_block n)
    store (set_head_index (add_usize head 2))
    done ← load_marks 62 0 block
    if done then (do reset block; recycle block) else retire block

  unfoldable pub sample : ℕ → (Inner A W → ℕ) → Program (Inner A W) Bool
  sample limit wake_flag =
      if limit == unbounded
      then return false
      else (do flag ← load wake_flag; return (not (flag == 0)))

  unfoldable pub drain_slot : ℕ → (Inner A W → ℕ) → ℕ → ℕ → Program (Inner A W) (Option (A × Bool))
  drain_slot limit wake_flag head block = do
    wake ← sample limit wake_flag
    value ← take_value block (offset_of head)
    if offset_of head + 1 == block_cap
        then finish_block block head
        else mark_read block (offset_of head)
    return (some (value, wake))

  abbrev pub advance_head : ℕ → Program (Inner A W) Exchange
  advance_head head =
      compare_exchange_weak (λ s. s.queue.head.index) set_head_index head (add_usize head 1)

  unfoldable pub pop_loop :
      ℕ → ℕ → (Inner A W → ℕ) → ℕ → ℕ → ℕ → Program (Inner A W) (Option (A × Bool))
  pop_loop zero limit wake_flag polls head block = starve
  pop_loop (suc fuel) limit wake_flag polls head block =
      let again = λ (polls' head' block' : ℕ). pop_loop fuel limit wake_flag polls' head' block' in
      if offset_of head == block_cap
      then (let (polls', more) = snooze_bounded polls in
          if more
          then (do
            head' ← load (λ s. s.queue.head.index)
            block' ← load (λ s. s.queue.head.block)
            again polls' head' block')
          else return none)
      else (do
        state ← load_state block (offset_of head)
        if state == written_tag (lap_of head)
            then (do
              r ← advance_head head
              elim r [
                | won ↦ drain_slot limit wake_flag head block
                | lost actual ↦ (do
                  block' ← load (λ s. s.queue.head.block)
                  again polls actual block')
              ])
            else (do
              now ← load (λ s. s.queue.head.index)
              if now == head
                  then return none
                  else (do block' ← load (λ s. s.queue.head.block); again polls now block')))

  unfoldable pub pop : ℕ → ℕ → (Inner A W → ℕ) → Program (Inner A W) (Option (A × Bool))
  unfolding pop_loop
  pop fuel limit wake_flag = do
    head ← load (λ s. s.queue.head.index)
    block ← load (λ s. s.queue.head.block)
    pop_loop fuel limit wake_flag 0 head block
