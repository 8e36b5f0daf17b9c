-- ===== src/Queue/Pool.antt =====
-- The block pool of src/queue.rs: `take_block`, `recycle` and their slow paths. What a thread does
-- while it holds the pool's lock is one access.
use rapidfire.Prelude.{
  ℕ, zero, suc, Option, none, some, Bool, true, false, List, [], ◌∷◌, ◌++◌, if◌then◌else◌,
}
use rapidfire.Sync.{◌>>=◌, ◌>>◌, return, store, fetch}
use rapidfire.Shared.{Block, BlockPool, Queue, set_pool, set_spare}
use rapidfire.Queue.Memory.{Act, readers_done, allocate, reset}

-- The index of the first entry that passes.
pub position : (ℕ → Bool) → List ℕ → Option ℕ
position p [] = none
position p (x ∷ xs) =
    if p x then some 0 else elim (position p xs) [ none ↦ none | some i ↦ some (suc i) ]

-- `Vec::swap_remove`: the entry at an index, whose place the last entry takes.
pub last_or : ℕ → List ℕ → ℕ
last_or d [] = d
last_or d (x ∷ xs) = last_or x xs

pub drop_last : List ℕ → List ℕ
drop_last [] = []
drop_last (x ∷ []) = []
drop_last (x ∷ y ∷ xs) = x ∷ drop_last (y ∷ xs)

pub swap_remove : List ℕ → ℕ → Option (ℕ × List ℕ)
unfolding last_or drop_last
swap_remove [] i = none
swap_remove (x ∷ []) zero = some (x, [])
swap_remove (x ∷ y ∷ xs) zero = some (x, last_or y xs ∷ drop_last (y ∷ xs))
swap_remove (x ∷ xs) (suc i) = elim (swap_remove xs i) [
  | none ↦ none
  | some (y, ys) ↦ some (y, x ∷ ys)
]

pub data Picked : Type 0 where
  ready_block : ℕ → Picked
  retired_block : ℕ → Picked
  nothing : Picked

-- What the locked part of `take_block_slow` picks, and the pool that it leaves.
unfoldable pub pick : {A : Type 0} → (ℕ → Block A) → List ℕ → List ℕ → Picked × BlockPool
unfolding position swap_remove readers_done
pick memory (a ∷ ready) retired = (ready_block a, record { ready = ready; retired = retired })
pick memory [] retired = elim (position (λ a. readers_done (memory a)) retired) [
  | none ↦ (nothing, record { ready = []; retired = retired })
  | some i ↦ elim (swap_remove retired i) [
    | none ↦ (nothing, record { ready = []; retired = retired })
    | some (a, rest) ↦ (retired_block a, record { ready = []; retired = rest })
  ]
]

unfoldable pub pick_queue : {A : Type 0} → Queue A → Picked × BlockPool
unfolding pick
pick_queue q = pick q.memory q.pool.ready q.pool.retired

pub is_null : Option ℕ → Bool
is_null none = true
is_null (some _) = false

module _ {A W : Type 0} where
  unfoldable pub finish_pick : Picked → Act A W ℕ
  finish_pick (ready_block a) = return a
  finish_pick (retired_block a) = do reset a; return a
  finish_pick nothing = allocate

  unfoldable pub take_block_slow : Act A W ℕ
  unfolding finish_pick pick_queue
  take_block_slow = do
    p ← fetch (λ s. (pick_queue s.queue).0) (λ s. set_pool (λ _. (pick_queue s.queue).1) s)
    finish_pick p

  -- The spare block if there was one.
  unfoldable pub or_pool : Option ℕ → Act A W ℕ
  or_pool (some a) = return a
  or_pool none = take_block_slow

  unfoldable pub take_block : Act A W ℕ
  unfolding or_pool
  take_block = do spare ← fetch (λ s. s.queue.spare) (set_spare none); or_pool spare

  unfoldable pub recycle_slow : ℕ → Act A W (Unit {0})
  recycle_slow a = store (set_pool λ p. record p { ready = a ∷ p.ready })

  -- `compare_exchange` of the spare from null; it is the strong one, which fails only on another
  -- value.
  unfoldable pub recycle : ℕ → Act A W (Unit {0})
  unfolding is_null recycle_slow
  recycle a = do
    won ←
        fetch (λ s. is_null s.queue.spare)
          (λ s. if is_null s.queue.spare then set_spare (some a) s else s)
    if won then return tt else recycle_slow a

  unfoldable pub retire : ℕ → Act A W (Unit {0})
  retire a = store (set_pool λ p. record p { retired = p.retired ++ a ∷ [] })
