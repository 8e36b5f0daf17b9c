-- ===== src/Interference/Shrinking.antt =====
-- Calls only use the schedule up: what `pop` of src/queue.rs leaves of it.
use rapidfire.Prelude.{
  ℕ, zero, suc, ◌+◌, ◌≤◌, Option, none, some, List, [], ◌∷◌, length, Bool, true, false, ltb, ◌==◌,
  if◌then◌else◌, arith, inl, inr,
}
use rapidfire.Layout.{pooled, block_cap, unbounded, offset_of, lap_of, written_tag, add_usize}
use rapidfire.Sync.{
  store, World, Outcome, done, starved, fault, panicked, M, Event, act, spurious, settle, disturb,
  return, load, compare_exchange_weak, is_spurious, Exchange, won, lost, crash, ◌>>=◌, ◌>>◌,
}
use rapidfire.Shared.{Inner, set_slot, set_block, set_head_index, set_head_block}
use rapidfire.Queue.Memory.{
  Act, clear_marks, load_marks, reset, deref, load_state, take_value, mark_read,
}
use rapidfire.Queue.Pool.{is_null, recycle, recycle_slow, retire}
use rapidfire.Queue.Pop.{finish_block, sample, drain_slot, pop_loop, pop}
use rapidfire.Interference.Polling.{snooze_bounded-cases}

module _ {S : Type 0} (n : ℕ) where
  -- A call that returns leaves no more than `n` events of the schedule.
  abbrev pub Within : {R : Type 0} → Outcome S R → Type 0
  Within (done r w) = length w.schedule ≤ n
  Within starved = Unit
  Within fault = Unit
  Within panicked = Unit

  pub Within-bind :
      {R P : Type 0} (m : M S R) (f : R → M S P) (w : World S)
      → Within (m w)
      → ((r : R) (w' : World S) → length w'.schedule ≤ n → Within (f r w'))
      → Within ((m >>= f) w)
  Within-bind {R} {P} m f w h k = go (m w) h
    where
      go : (o : Outcome S R) → Within o → Within (((λ _. o) >>= f) w)
      go (done r w') h = k r w' h
      go starved h = tt
      go fault h = tt
      go panicked h = tt

  pub Within-if :
      {R : Type 0} (c : Bool) (m k : M S R) (w : World S)
      → Within (m w)
      → Within (k w)
      → Within ((if c then m else k) w)
  Within-if true m k w a b = a
  Within-if false m k w a b = b

  Within-either :
      {R : Type 0} (c : Bool) (a b : Outcome S R)
      → Within a
      → Within b
      → Within (if c then a else b)
  Within-either true a b h k = h
  Within-either false a b h k = k

  settle-Within : (s : S) (es : List (Event S)) → length es ≤ n → length (settle s es).schedule ≤ n
  settle-Within s [] h = h
  settle-Within s (act f ∷ es) h = omega arith
  settle-Within s (spurious ∷ es) h = omega arith

  pub disturb-Within : (w : World S) → length w.schedule ≤ n → length (disturb w).schedule ≤ n
  disturb-Within w h = settle-Within w.shared w.schedule h

  exchange-Within :
      (get : S → ℕ) (put : ℕ → S → S) (expected new : ℕ) (w : World S)
      → length w.schedule ≤ n
      → Within (compare_exchange_weak get put expected new w)
  exchange-Within get put expected new w h =
      let k = disturb-Within w h in
      let now = get (disturb w).shared in
      Within-either (is_spurious w.schedule) (done (lost now) (disturb w)) _ k (
        Within-either (now == expected)
          (done won (record (disturb w) { shared = put new (disturb w).shared }))
          (done (lost now) (disturb w)) k k)

module _ {A W : Type 0} (n : ℕ) where
  abbrev pub Shrinks : {R : Type 0} → Act A W R → Type 0
  Shrinks m = (w : World (Inner A W)) → length w.schedule ≤ n → Within n (m w)

  pub load_state-Shrinks : (a o : ℕ) → Shrinks (load_state a o)
  unfolding load_state
  load_state-Shrinks a o w h =
      Within-if n (ltb o block_cap) (load (λ s. ((s.queue.memory a).slots o).state)) crash w
        (disturb-Within n w h) tt

  pub take_value-Shrinks : (a o : ℕ) → Shrinks (take_value a o)
  unfolding take_value
  take_value-Shrinks a o w h = go (((disturb w).shared.queue.memory a).slots o).value
    where
      go :
          (v : Option A)
          → Within n (elim v as (λ _. Outcome (Inner A W) A) [
            | none ↦ fault
            | some x ↦ done x (record (disturb w) {
              shared = set_slot a o (λ c. record c { value = none }) (disturb w).shared;
            })
          ])
      go none = tt
      go (some v) = disturb-Within n w h

  pub recycle-Shrinks : (a : ℕ) → Shrinks (recycle a)
  unfolding recycle recycle_slow
  recycle-Shrinks a w h =
      let k = disturb-Within n w h in
      Within-if n (is_null (disturb w).shared.queue.spare) _ _ _ k (disturb-Within n _ k)

  clear_marks-Shrinks : (k a : ℕ) → Shrinks (clear_marks k a)
  unfolding clear_marks
  clear_marks-Shrinks zero a w h = h
  clear_marks-Shrinks (suc k) a w h =
      Within-bind n (clear_marks k a) _ w (clear_marks-Shrinks k a w h)
        (λ _ w'. disturb-Within n w')

  reset-Shrinks : (a : ℕ) → Shrinks (reset a)
  unfolding reset
  reset-Shrinks a w h =
      Within-bind n (clear_marks block_cap a)
        (λ _. store (set_block a λ b. record b { start = pooled })) w
        (clear_marks-Shrinks block_cap a w h) (λ _ w'. disturb-Within n w')

  load_marks-Shrinks : (left o a : ℕ) → Shrinks (load_marks left o a)
  unfolding load_marks
  load_marks-Shrinks zero o a w h = h
  load_marks-Shrinks (suc left) o a w h =
      let h1 = disturb-Within n w h in
      Within-if n (((disturb w).shared.queue.memory a).read_marks o == 0) _ _ (disturb w) h1
        (load_marks-Shrinks left (o + 1) a (disturb w) h1)

  release-Shrinks :
      (all_read : Bool) (block : ℕ)
      → Shrinks (if all_read then (reset block >> recycle block) else retire block)
  unfolding retire
  release-Shrinks all_read block w h =
      Within-if n all_read (reset block >> recycle block) (retire block) w
        (Within-bind n (reset block) (λ _. recycle block) w (reset-Shrinks block w h)
          (λ _. recycle-Shrinks block))
        (disturb-Within n w h)

  finish_block-Shrinks : (block head : ℕ) → Shrinks (finish_block block head)
  unfolding finish_block
  finish_block-Shrinks block head w h =
      let next = ((disturb w).shared.queue.memory block).next in
      Within-bind n (deref next) _ (disturb w) (go next (disturb w) (disturb-Within n w h))
        λ k w1 h1.
          let w2 = record (disturb w1) { shared = set_head_block k (disturb w1).shared } in
          let w3 = record (disturb w2) {
            shared = set_head_index (add_usize head 2) (disturb w2).shared;
          } in
          let h3 = disturb-Within n w2 (disturb-Within n w1 h1) in
          Within-bind n (load_marks 62 0 block) _ w3 (load_marks-Shrinks 62 0 block w3 h3)
            (λ all_read. release-Shrinks all_read block)
    where
      go : (next : Option ℕ) → Shrinks (deref next)
      go none w h = tt
      go (some a) w h = h

  drain_slot-Shrinks :
      (flag : Inner A W → ℕ) (head block : ℕ) → Shrinks (drain_slot flag head block)
  unfolding drain_slot mark_read sample
  drain_slot-Shrinks flag head block w h =
      Within-bind n (sample flag) _ w
        (Within-if n (w.shared.queue.capacity == unbounded) _ _ w h (disturb-Within n w h))
        λ wake w1 h1.
          Within-bind n (take_value block (offset_of head)) _ w1
            (take_value-Shrinks block (offset_of head) w1 h1)
            λ value w2 h2.
              Within-bind n
                (if offset_of head + 1 == block_cap
                  then finish_block block head
                  else mark_read block (offset_of head))
                (λ _. return (some (value, wake))) w2
                (Within-if n (offset_of head + 1 == block_cap) _ _ w2
                  (finish_block-Shrinks block head w2 h2) (disturb-Within n w2 h2))
                (λ _ _ h3. h3)

  pop_loop-Shrinks :
      (fuel : ℕ) (flag : Inner A W → ℕ) (polls head block : ℕ)
      → Shrinks (pop_loop fuel flag polls head block)
  unfolding pop_loop
  pop_loop-Shrinks zero flag polls head block w h = tt
  pop_loop-Shrinks (suc fuel) flag polls head block w h =
      Within-if n (offset_of head == block_cap) _ _ w
        (elim (snooze_bounded-cases polls) [
          | inl e ↦ rw e h
          | inr (e, _) ↦
              rw e (pop_loop-Shrinks fuel flag _ _ _ _ (disturb-Within n _ (disturb-Within n w h)))
        ])
        (Within-bind n (load_state block (offset_of head)) _ w
          (load_state-Shrinks block (offset_of head) w h)
          λ state w1 h1.
            Within-if n (state == written_tag (lap_of head)) _ _ w1
              (Within-bind n
                (compare_exchange_weak (λ s. s.queue.head.index) set_head_index head
                  (add_usize head 1))
                _ w1
                (exchange-Within n (λ s. s.queue.head.index) set_head_index head (add_usize head 1)
                  w1 h1)
                (λ r w2 h2. after (pop_loop-Shrinks fuel flag polls) r w2 h2))
              (Within-if n ((disturb w1).shared.queue.head.index == head) _ _ _
                (disturb-Within n w1 h1)
                (pop_loop-Shrinks fuel flag polls _ _ _
                  (disturb-Within n _ (disturb-Within n w1 h1)))))
    where
      after :
          ((head' block' : ℕ) → Shrinks (pop_loop fuel flag polls head' block'))
          → (r : Exchange)
          → Shrinks (elim r as (λ _. Act A W (Option (A × Bool))) [
            | won ↦ drain_slot flag head block
            | lost actual ↦ (do
              block' ← load (λ s. s.queue.head.block)
              pop_loop fuel flag polls actual block')
          ])
      after again won w h = drain_slot-Shrinks flag head block w h
      after again (lost actual) w h = again actual _ _ (disturb-Within n w h)

  pub pop-Shrinks : (fuel : ℕ) (flag : Inner A W → ℕ) → Shrinks (pop fuel flag)
  unfolding pop
  pop-Shrinks fuel flag w h =
      pop_loop-Shrinks fuel flag 0 _ _ _ (disturb-Within n _ (disturb-Within n w h))
