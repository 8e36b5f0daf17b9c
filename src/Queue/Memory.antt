-- ===== src/Queue/Memory.antt =====
-- `Block` of src/queue.rs, and the accesses to a block's cells. An address that is null, and an
-- offset past the array, fault.
use rapidfire.Prelude.{
  ℕ, zero, suc, Option, none, some, Bool, true, false, ◌&&◌, not, ◌==◌, ltb, if◌then◌else◌, update,
  ◌+◌,
}
use rapidfire.Layout.{pooled, block_cap}
use rapidfire.Sync.{M, ◌>>=◌, ◌>>◌, return, crash, disturb, load, store, fetch, done, fault}
use rapidfire.Shared.{Block, Inner, set_queue, set_block, set_slot}

abbrev pub Act : Type 0 → Type 0 → Type 0 → Type 0
Act A W R = M (Inner A W) R

-- A block as `allocate` initialises it.
abbrev pub fresh_block : {A : Type 0} → Block A
fresh_block = record {
  start = pooled;
  next = none;
  prev = none;
  read_marks = λ _. 0;
  slots = λ _. record { value = none; state = 0 };
}

-- Every one of the first `n` marks is set.
unfoldable pub all_marked : ℕ → (ℕ → ℕ) → Bool
all_marked zero marks = true
all_marked (suc n) marks = not (marks n == 0) && all_marked n marks

-- `readers_done` for the blocks that `take_block_slow` looks through while it holds the lock.
unfoldable pub readers_done : {A : Type 0} → Block A → Bool
unfolding all_marked
readers_done b = all_marked 62 b.read_marks

module _ {A W : Type 0} where
  unfoldable pub allocate : Act A W ℕ
  allocate =
      fetch (λ s. s.queue.allocated)
        (set_queue λ q. record q {
          memory = update q.memory q.allocated fresh_block;
          allocated = q.allocated + 1;
        })

  -- The loop of `reset` over the marks, in their order.
  unfoldable pub clear_marks : ℕ → ℕ → Act A W (Unit {0})
  clear_marks zero a = return tt
  clear_marks (suc n) a = do
    clear_marks n a
    store (set_block a λ b. record b { read_marks = update b.read_marks n 0 })

  unfoldable pub reset : ℕ → Act A W (Unit {0})
  reset a = do clear_marks block_cap a; store (set_block a λ b. record b { start = pooled })

  -- `readers_done` where other threads may act: it loads the `left` marks from `o` on, and stops at
  -- one that is not set.
  unfoldable pub load_marks : ℕ → ℕ → ℕ → Act A W Bool
  load_marks zero o a = return true
  load_marks (suc left) o a =
      let later = load_marks left (o + 1) a in
      do
        mark ← load (λ s. (s.queue.memory a).read_marks o)
        if mark == 0 then return false else later

  abbrev pub deref : Option ℕ → Act A W ℕ
  deref none = crash
  deref (some a) = return a

  unfoldable pub load_state : ℕ → ℕ → Act A W ℕ
  load_state a o = if ltb o block_cap then load (λ s. ((s.queue.memory a).slots o).state) else crash

  unfoldable pub write_value : ℕ → ℕ → A → Act A W (Unit {0})
  write_value a o v =
      if ltb o block_cap then store (set_slot a o λ c. record c { value = some v }) else crash

  -- `p.read().assume_init()`: the value is moved out, and a slot without a value faults.
  unfoldable pub take_value : ℕ → ℕ → Act A W A
  take_value a o w =
      let w' = disturb w in
      elim ((w'.shared.queue.memory a).slots o).value [
        | none ↦ fault
        | some v ↦
            done v (record w' { shared = set_slot a o (λ c. record c { value = none }) w'.shared })
      ]

  unfoldable pub publish : ℕ → ℕ → ℕ → Act A W (Unit {0})
  publish a o tag = store (set_slot a o λ c. record c { state = tag })

  unfoldable pub mark_read : ℕ → ℕ → Act A W (Unit {0})
  mark_read a o = store (set_block a λ b. record b { read_marks = update b.read_marks o 1 })
