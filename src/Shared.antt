-- ===== src/Shared.antt =====
-- The memory that the handles of one channel share: `Slot`, `Block`, `Position`, `BlockPool` and
-- `Queue` of src/queue.rs, `Flags`, `WaiterList` and `Inner` of src/lib.rs. `A` is the type of the
-- messages, `W` that of the wakers.
use rapidfire.Prelude.{ℕ, Bool, Option, List, update}

-- `value` is `none` while the slot is not initialised and after its value has been moved out.
pub record Slot (A : Type 0) : Type 0 where
  pub value : Option A
  pub state : ℕ

-- A block's address is a number, and `none` is the null pointer. The two headers are written out;
-- `read_marks` and `slots` are arrays of `block_cap` entries.
pub record Block (A : Type 0) : Type 0 where
  pub start : ℕ
  pub next : Option ℕ
  pub prev : Option ℕ
  pub read_marks : ℕ → ℕ
  pub slots : ℕ → Slot A

pub record Position : Type 0 where
  pub index : ℕ
  pub block : ℕ
  pub cached : ℕ
  pub contended : ℕ

-- `ready` is only pushed and popped at its end, which is the head of the list here; `retired` is in
-- the order of its vector.
pub record BlockPool : Type 0 where
  pub ready : List ℕ
  pub retired : List ℕ

-- `memory` and `allocated` stand for the allocator: blocks are numbered as they are made, and are
-- not freed while the queue lives.
pub record Queue (A : Type 0) : Type 0 where
  pub head : Position
  pub tail : Position
  pub spare : Option ℕ
  pub pool : BlockPool
  pub capacity : ℕ
  pub memory : ℕ → Block A
  pub allocated : ℕ

pub record Flags : Type 0 where
  pub closed : Bool
  pub waiting_receivers : ℕ
  pub waiting_senders : ℕ
  pub senders : ℕ
  pub receivers : ℕ
  pub next_waiter_id : ℕ

-- The parked wakers with their ids, the longest-waiting first.
abbrev pub WaiterList : Type 0 → Type 0
WaiterList W = List (ℕ × W)

-- `woken` is no field of the source: it records the calls of `wake`, the last one first.
pub record Inner (A W : Type 0) : Type 0 where
  pub queue : Queue A
  pub flags : Flags
  pub recv_waiters : WaiterList W
  pub send_waiters : WaiterList W
  pub woken : List W

module _ {A W : Type 0} where
  abbrev pub set_queue : (Queue A → Queue A) → Inner A W → Inner A W
  set_queue f s = record s { queue = f s.queue }

  abbrev pub set_flags : (Flags → Flags) → Inner A W → Inner A W
  set_flags f s = record s { flags = f s.flags }

  abbrev pub set_head_index : ℕ → Inner A W → Inner A W
  set_head_index i = set_queue λ q. record q { head = record q.head { index = i } }

  abbrev pub set_head_block : ℕ → Inner A W → Inner A W
  set_head_block b = set_queue λ q. record q { head = record q.head { block = b } }

  abbrev pub set_tail_index : ℕ → Inner A W → Inner A W
  set_tail_index i = set_queue λ q. record q { tail = record q.tail { index = i } }

  abbrev pub set_tail_block : ℕ → Inner A W → Inner A W
  set_tail_block b = set_queue λ q. record q { tail = record q.tail { block = b } }

  abbrev pub set_tail_cached : ℕ → Inner A W → Inner A W
  set_tail_cached c = set_queue λ q. record q { tail = record q.tail { cached = c } }

  abbrev pub set_tail_contended : ℕ → Inner A W → Inner A W
  set_tail_contended c = set_queue λ q. record q { tail = record q.tail { contended = c } }

  abbrev pub set_pool : (BlockPool → BlockPool) → Inner A W → Inner A W
  set_pool f = set_queue λ q. record q { pool = f q.pool }

  abbrev pub set_spare : Option ℕ → Inner A W → Inner A W
  set_spare b = set_queue λ q. record q { spare = b }

  -- A write to the block at an address.
  abbrev pub set_block : ℕ → (Block A → Block A) → Inner A W → Inner A W
  set_block a f = set_queue λ q. record q { memory = update q.memory a (f (q.memory a)) }

  -- A write to a slot of the block at an address.
  abbrev pub set_slot : ℕ → ℕ → (Slot A → Slot A) → Inner A W → Inner A W
  set_slot a o f = set_block a λ b. record b { slots = update b.slots o (f (b.slots o)) }
