-- ===== src/Interference/Singles.antt =====
-- One attempt of the exclusive receiver, `try_recv_nonblocking` of src/mpsc.rs over `pop_single` of
-- src/queue.rs, under any interference.
use rapidfire.Prelude.{
  ℕ, ◌+◌, ◌≤◌, Option, none, some, length, Bool, true, false, not, ◌==◌, if◌then◌else◌, Result, ok,
  err, ltb,
}
use rapidfire.Layout.{block_cap, pooled, unbounded, add_usize, offset_of, lap_of, written_tag}
use rapidfire.Sync.{World, return, load, fetch, store, crash, ◌>>=◌, ◌>>◌}
use rapidfire.Shared.{Inner, set_block, set_head_index, set_head_block}
use rapidfire.Queue.Memory.{Act, deref, load_state, take_value}
use rapidfire.Queue.Pool.{recycle}
use rapidfire.Queue.Single.{recycle_single, step_block, release_slots, pop_single}
use rapidfire.Channel.Waiters.{sending, waiting, notify_one}
use rapidfire.Channel.Core.{RecvState, recv_state_when_empty}
use rapidfire.Mpsc.Receiver.{try_recv_nonblocking}
use rapidfire.Interference.After.{Reaches, Reaches-bind}
use rapidfire.Interference.Polling.{notify_one-Returns}
use rapidfire.Interference.Ending.{take_value-Ends, recycle-Ends}
use rapidfire.Interference.Shrinking.{disturb-Within, take_value-Shrinks, recycle-Shrinks}
use rapidfire.Interference.Attempts.{
  notify_one-Shrinks, state-Shrinks, Reaches-Within, After-Ends, state-Ends,
}

module _ {A W : Type 0} (n : ℕ) where
  -- A call that ends, and leaves no more than `n` events of the schedule.
  abbrev pub Leaves : {R : Type 0} → Act A W R → Type 0
  Leaves m =
      (w : World (Inner A W))
      → length w.schedule ≤ n
      → Reaches (λ _ w'. length w'.schedule ≤ n) (m w)

  Leaves-bind :
      {R P : Type 0} (m : Act A W R) (f : R → Act A W P)
      → Leaves m
      → ((r : R) → Leaves (f r))
      → Leaves (m >>= f)
  Leaves-bind m f h k w l =
      Reaches-bind m f w (λ _ w'. length w'.schedule ≤ n) (λ _ w'. length w'.schedule ≤ n) (h w l)
        (λ r w' l'. k r w' l')

  Leaves-if :
      {R : Type 0} (c : Bool) (m k : Act A W R) → Leaves m → Leaves k → Leaves (if c then m else k)
  Leaves-if true m k a b = a
  Leaves-if false m k a b = b

  load_state-Leaves : (a o : ℕ) → Leaves (load_state a o)
  unfolding load_state
  load_state-Leaves a o =
      Leaves-if (ltb o block_cap) (load (λ s. ((s.queue.memory a).slots o).state)) crash
        (λ w h. disturb-Within n w h) (λ w h. tt)

  take_value-Leaves : (a o : ℕ) → Leaves (take_value a o)
  take_value-Leaves a o w h =
      Reaches-Within n (take_value a o w) (take_value-Ends a o w) (take_value-Shrinks n a o w h)

  deref-Leaves : (a : Option ℕ) → Leaves (deref a)
  deref-Leaves none w h = tt
  deref-Leaves (some a) w h = h

  recycle_single-Leaves : (block : ℕ) → Leaves (recycle_single block)
  unfolding recycle_single
  recycle_single-Leaves block =
      Leaves-bind (store (set_block block λ b. record b { start = pooled })) (λ _. recycle block)
        (λ w h. disturb-Within n w h)
        (λ _ w h.
          Reaches-Within n (recycle block w) (recycle-Ends block w) (recycle-Shrinks n block w h))

  step_block-Leaves : (last : Bool) (block : ℕ) → Leaves (step_block last block)
  unfolding step_block
  step_block-Leaves last block =
      Leaves-if last
        (do
          next ← load (λ s. (s.queue.memory block).next)
          k ← deref next
          store (set_head_block k))
        (return tt)
        (Leaves-bind (load (λ s. (s.queue.memory block).next)) _ (λ w h. disturb-Within n w h)
          λ next.
            Leaves-bind (deref next) (λ k. store (set_head_block k)) (deref-Leaves next)
              λ k w h. disturb-Within n w h)
        (λ w h. h)

  release_slots-Leaves :
      (flag : Inner A W → ℕ) (head advance : ℕ) → Leaves (release_slots flag head advance)
  unfolding release_slots
  release_slots-Leaves flag head advance w =
      Leaves-if (w.shared.queue.capacity == unbounded)
        (do store (set_head_index (add_usize head advance)); return 0)
        (do
          fetch (λ _. tt) (λ s. set_head_index (add_usize s.queue.head.index advance) s)
          load flag)
        (λ w h. disturb-Within n w h)
        (Leaves-bind
          (fetch (λ _. tt) (λ s. set_head_index (add_usize s.queue.head.index advance) s))
          (λ _. load flag) (λ w h. disturb-Within n w h) (λ _ w h. disturb-Within n w h))
        w

  -- What `pop_single` does with a slot that has been written.
  taken-Leaves :
      (flag : Inner A W → ℕ) (head block : ℕ) (last : Bool)
      → Leaves {R = Option (A × Bool)} (do
        value ← take_value block (offset_of head)
        step_block last block
        flag ← release_slots flag head (if last then 2 else 1)
        if last then recycle_single block else return tt
        return (some (value, not (flag == 0))))
  taken-Leaves flag head block last =
      Leaves-bind (take_value block (offset_of head)) _ (take_value-Leaves block (offset_of head))
        λ value. Leaves-bind (step_block last block) _ (step_block-Leaves last block) λ _.
          Leaves-bind (release_slots flag head (if last then 2 else 1)) _
            (release_slots-Leaves flag head (if last then 2 else 1))
            λ waiting.
              Leaves-bind (if last then recycle_single block else return tt) _
                (Leaves-if last (recycle_single block) (return tt) (recycle_single-Leaves block)
                  (λ w h. h))
                (λ _ w h. h)

  pop_single-Leaves : (flag : Inner A W → ℕ) → Leaves (pop_single flag)
  unfolding pop_single
  pop_single-Leaves flag =
      Leaves-bind (load (λ s. s.queue.head.index)) _ (λ w h. disturb-Within n w h)
        λ head.
          Leaves-bind (load (λ s. s.queue.head.block)) _ (λ w h. disturb-Within n w h)
            λ block.
              Leaves-bind (load_state block (offset_of head)) _
                (load_state-Leaves block (offset_of head))
                λ state.
                  Leaves-if (state == written_tag (lap_of head)) _ (return none)
                    (taken-Leaves flag head block (offset_of head + 1 == block_cap)) (λ w h. h)

  -- It has no loop of its own, so it takes no fuel.
  pub single_attempt-Leaves : Leaves try_recv_nonblocking
  unfolding try_recv_nonblocking
  single_attempt-Leaves =
      Leaves-bind (pop_single (waiting sending)) _ (pop_single-Leaves (waiting sending)) go
    where
      go :
          (r : Option (A × Bool))
          → Leaves (elim r as (λ _. Act A W (Result A RecvState)) [
            | some (value, wake) ↦ (do
              if wake then notify_one sending else return tt
              return (ok value))
            | none ↦ (do state ← recv_state_when_empty; return (err state))
          ])
      go none =
          Leaves-bind recv_state_when_empty _
            (λ w h.
              Reaches-Within n (recv_state_when_empty w) (state-Ends n w) (state-Shrinks n w h))
            (λ _ w h. h)
      go (some (value, wake)) =
          Leaves-bind (if wake then notify_one sending else return tt) _
            (Leaves-if wake (notify_one sending) (return tt)
              (λ w h.
                Reaches-Within n (notify_one sending w)
                  (After-Ends n (notify_one sending w) (notify_one-Returns sending w))
                  (notify_one-Shrinks n sending w h))
              (λ w h. h))
            (λ _ w h. h)
