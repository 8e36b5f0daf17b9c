-- ===== src/Channel/Debug.antt =====
-- What `Debug` shows of a `Sender` and of a `Receiver` in src/lib.rs, and what `debug_dump` in
-- src/queue.rs shows of the queue: the values that are printed, in the order of their accesses, without
-- the layout of the text (a block's start is the word itself, which the text shows as signed).
use rapidfire.Prelude.{
  ℕ, zero, suc, ◌+◌, Option, none, some, List, [], ◌∷◌, length, Bool, ltb, if◌then◌else◌,
}
use rapidfire.Layout.{block_cap, offset_of, lap_of, written_tag}
use rapidfire.Sync.{◌>>=◌, return, load}
use rapidfire.Queue.Memory.{Act, load_state}
use rapidfire.Channel.Handles
use rapidfire.Channel.Sender
use rapidfire.Channel.Receiver

-- The fields that the handles' `Debug` names.
pub record HandleFields : Type 0 where
  pub len : ℕ
  pub capacity : Option ℕ
  pub is_closed : Bool
  pub senders : ℕ
  pub receivers : ℕ

-- A block of the chain: its address, its `start` and its `next`.
pub record ChainEntry : Type 0 where
  pub block : ℕ
  pub start : ℕ
  pub next : Option ℕ

pub record Dump : Type 0 where
  pub head : ℕ
  pub head_block : ℕ
  pub head_start : ℕ
  pub head_slot_state : ℕ
  pub head_contended : ℕ
  pub tail : ℕ
  pub tail_block : ℕ
  pub tail_start : ℕ
  pub tail_contended : ℕ
  pub spare : Option ℕ
  pub pooled_blocks : ℕ
  pub chain : List ChainEntry

-- The parts of a dump that are computed from its head.
unfoldable pub dump_lap : Dump → ℕ
dump_lap d = lap_of d.head

unfoldable pub dump_offset : Dump → ℕ
dump_offset d = offset_of d.head

unfoldable pub dump_expected : Dump → ℕ
dump_expected d = written_tag (lap_of d.head)

module _ {A W : Type 0} where
  unfoldable pub debug_sender : Act A W HandleFields
  debug_sender = do
    len ← Sender.len
    capacity ← Sender.capacity
    closed ← Sender.is_closed
    senders ← Handles.sender_count
    receivers ← Handles.receiver_count
    return (record {
      len = len;
      capacity = capacity;
      is_closed = closed;
      senders = senders;
      receivers = receivers;
    })

  unfoldable pub debug_receiver : Act A W HandleFields
  debug_receiver = do
    len ← Receiver.len
    capacity ← Receiver.capacity
    closed ← Receiver.is_closed
    senders ← Receiver.sender_count
    receivers ← Receiver.receiver_count
    return (record {
      len = len;
      capacity = capacity;
      is_closed = closed;
      senders = senders;
      receivers = receivers;
    })

  -- The blocks from the last one backwards, at most as many as told.
  unfoldable pub dump_chain : ℕ → Option ℕ → Act A W (List ChainEntry)
  dump_chain zero b = return []
  dump_chain (suc n) none = return []
  dump_chain (suc n) (some b) =
      let rest = λ (prev : Option ℕ). dump_chain n prev in
      do
        start ← load (λ s. (s.queue.memory b).start)
        next ← load (λ s. (s.queue.memory b).next)
        prev ← load (λ s. (s.queue.memory b).prev)
        entries ← rest prev
        return (record { block = b; start = start; next = next } ∷ entries)

  unfoldable pub debug_dump : Act A W Dump
  unfolding dump_chain
  debug_dump = do
    h ← load (λ s. s.queue.head.index)
    t ← load (λ s. s.queue.tail.index)
    hb ← load (λ s. s.queue.head.block)
    tb ← load (λ s. s.queue.tail.block)
    hs ← load (λ s. (s.queue.memory hb).start)
    ts ← load (λ s. (s.queue.memory tb).start)
    state ← if ltb (offset_of h) block_cap then load_state hb (offset_of h) else return 0
    chain ← dump_chain 6 (some tb)
    hc ← load (λ s. s.queue.head.contended)
    tc ← load (λ s. s.queue.tail.contended)
    spare ← load (λ s. s.queue.spare)
    pool ← load (λ s. length s.queue.pool.ready + length s.queue.pool.retired)
    return (record {
      head = h;
      head_block = hb;
      head_start = hs;
      head_slot_state = state;
      head_contended = hc;
      tail = t;
      tail_block = tb;
      tail_start = ts;
      tail_contended = tc;
      spare = spare;
      pooled_blocks = pool;
      chain = chain;
    })
