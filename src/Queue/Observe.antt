-- ===== src/Queue/Observe.antt =====
-- The queue's constructor and its observers in src/queue.rs: `new`, `capacity`, `len`,
-- `claims_below`, `is_empty_seqcst`, and the two parking accesses.
use rapidfire.Prelude.{ℕ, Option, none, some, Bool, [], not, ◌==◌, if◌then◌else◌, update, min}
use rapidfire.Layout.{unbounded, items_between}
use rapidfire.Sync.{◌>>=◌, return, load, fetch, done}
use rapidfire.Shared.{Position, Queue}
use rapidfire.Queue.Memory.{Act, fresh_block}

abbrev pub origin : Position
origin = record { index = 0; block = 0; cached = 0; contended = 0 }

abbrev pub capacity_word : Option ℕ → ℕ
capacity_word none = unbounded
capacity_word (some n) = n

-- The first block has the address 0.
unfoldable pub new : {A : Type 0} → Option ℕ → Queue A
new capacity = record {
  head = origin;
  tail = origin;
  spare = none;
  pool = record { ready = []; retired = [] };
  capacity = capacity_word capacity;
  memory = update (λ _. fresh_block) 0 (record fresh_block { start = 0 });
  allocated = 1;
}

unfoldable pub capacity : {A : Type 0} → Queue A → Option ℕ
capacity q = if q.capacity == unbounded then none else some q.capacity

module _ {A W : Type 0} where
  unfoldable pub receiver_parking : Act A W ℕ
  receiver_parking = fetch (λ s. s.queue.tail.index) (λ s. s)

  unfoldable pub sender_parking : Act A W (Unit {0})
  sender_parking = fetch (λ _. tt) (λ s. s)

  unfoldable pub claims_below : ℕ → Act A W Bool
  claims_below tail = do
    head ← load (λ s. s.queue.head.index)
    return (not (items_between head tail == 0))

  unfoldable pub is_empty_seqcst : Act A W Bool
  is_empty_seqcst = do
    head ← load (λ s. s.queue.head.index)
    tail ← load (λ s. s.queue.tail.index)
    return (items_between head tail == 0)

  unfoldable pub len : Act A W ℕ
  len = do
    head ← load (λ s. s.queue.head.index)
    tail ← load (λ s. s.queue.tail.index)
    λ w. done (min (items_between head tail) w.shared.queue.capacity) w
