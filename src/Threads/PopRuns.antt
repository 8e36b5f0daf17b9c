-- ===== src/Threads/PopRuns.antt =====
-- The program of a pop is the `pop` of src/queue.rs, as long as the other threads leave the queue's
-- capacity as it is.
use rapidfire.Prelude.{
  ℕ, suc, zero, ◌+◌, ◌≡◌, refl, ap, ◌∙◌, subst, Option, none, some, List, [], ◌∷◌, All, Bool, false,
  not, ltb, ◌==◌, if◌then◌else◌,
}
use rapidfire.Layout.{add_usize, offset_of, lap_of, written_tag, block_cap, unbounded}
use rapidfire.Sync
use rapidfire.Sync.{
  World, Outcome, done, M, Event, act, spurious, settle, disturb, is_spurious, Exchange, won, lost,
}
use rapidfire.Shared.{Inner, set_head_index}
use rapidfire.Queue.Backoff.{snooze_bounded}
use rapidfire.Queue.Memory
use rapidfire.Queue.Pool
use rapidfire.Queue.Pop
use rapidfire.Threads.Program
use rapidfire.Threads.Program.{Program, run}
use rapidfire.Threads.Runs.{
  Runs, Runs-bind, Runs-load, Runs-if, Runs-return, run-bind, bind_outcome,
}
use rapidfire.Threads.At.{run-if, run-load-if, run-exchange}
use rapidfire.Threads.PushRuns.{reset-Runs, load_marks-Runs, deref-Runs}
use rapidfire.Threads.Pop as Threaded

module _ {A W : Type 0} where
  abbrev Keeps : Event (Inner A W) → Type 0
  Keeps (act f) = (s : Inner A W) → (f s).queue.capacity ≡ s.queue.capacity
  Keeps spurious = Unit

  -- The queue has this capacity, and the other threads do not change it.
  abbrev pub Steady : ℕ → World (Inner A W) → Type 0
  Steady limit w = (w.shared.queue.capacity ≡ limit) × All Keeps w.schedule

  settle-Steady :
      (limit : ℕ) (s : Inner A W) (es : List (Event (Inner A W)))
      → s.queue.capacity ≡ limit
      → All Keeps es
      → Steady limit (settle s es)
  settle-Steady limit s [] e h = (e, tt)
  settle-Steady limit s (act f ∷ es) e h = (h.0 s ∙ e, h.1)
  settle-Steady limit s (spurious ∷ es) e h = (e, h.1)

  disturb-Steady : (limit : ℕ) (w : World (Inner A W)) → Steady limit w → Steady limit (disturb w)
  disturb-Steady limit w h = settle-Steady limit w.shared w.schedule h.0 h.1

  take_value-Runs :
      (a o : ℕ) → Runs (Threaded.take_value {A = A} {W = W} a o) (Memory.take_value a o)
  unfolding Threaded.take_value Memory.take_value run
  take_value-Runs a o w = go (((disturb w).shared.queue.memory a).slots o).value
    where
      go :
          (v : Option A)
          → run (Threaded.value_or_fault v) (record {
            shared = Threaded.emptied a o v (disturb w).shared;
            schedule = (disturb w).schedule;
          })
            ≡ elim v as (λ _. Outcome (Inner A W) A) [
              | none ↦ Sync.fault
              | some x ↦ done x (record {
                shared = Threaded.emptied a o (some x) (disturb w).shared;
                schedule = (disturb w).schedule;
              })
            ]
      go none = refl
      go (some v) = refl

  recycle-Runs : (a : ℕ) → Runs (Threaded.recycle {A = A} {W = W} a) (Pool.recycle a)
  unfolding Threaded.recycle Threaded.recycle_slow Pool.recycle Pool.recycle_slow run
  recycle-Runs a w =
      Runs-if (Pool.is_null (disturb w).shared.queue.spare) _ _ _ _ (Runs-return tt) (λ w'. refl) _

  retire-Runs : (a : ℕ) → Runs (Threaded.retire {A = A} {W = W} a) (Pool.retire a)
  unfolding Threaded.retire Pool.retire run
  retire-Runs a w = refl

  mark_read-Runs : (a o : ℕ) → Runs (Threaded.mark_read {A = A} {W = W} a o) (Memory.mark_read a o)
  unfolding Threaded.mark_read Memory.mark_read run
  mark_read-Runs a o w = refl

  -- What becomes of a block whose last slot has been claimed.
  release-Runs :
      (all_read : Bool) (block : ℕ)
      → Runs {S = Inner A W}
          (if all_read
            then Program.◌>>◌ (Threaded.reset block) (Threaded.recycle block)
            else Threaded.retire block)
          (if all_read
            then Sync.◌>>◌ (Memory.reset block) (Pool.recycle block)
            else Pool.retire block)
  release-Runs all_read block =
      Runs-if all_read _ _ _ _
        (Runs-bind (Threaded.reset block) (Memory.reset block) (λ _. Threaded.recycle block)
          (λ _. Pool.recycle block) (reset-Runs block) (λ _. recycle-Runs block))
        (retire-Runs block)

  finish_block-Runs :
      (block head : ℕ)
      → Runs (Threaded.finish_block {A = A} {W = W} block head) (Pop.finish_block block head)
  unfolding Threaded.finish_block Pop.finish_block run
  finish_block-Runs block head w =
      let next = ((disturb w).shared.queue.memory block).next in
      Runs-bind (Threaded.deref next) (Memory.deref next) _ _ (deref-Runs next)
        (λ n w'.
          Runs-bind (Threaded.load_marks 62 0 block) (Memory.load_marks 62 0 block) _ _
            (load_marks-Runs 62 0 block) (λ all_read. release-Runs all_read block) _)
        (disturb w)

  sample-Runs :
      (limit : ℕ) (flag : Inner A W → ℕ) (w : World (Inner A W))
      → w.shared.queue.capacity ≡ limit
      → run (Threaded.sample limit flag) w ≡ Pop.sample flag w
  unfolding Threaded.sample Pop.sample
  sample-Runs limit flag w e =
      subst (λ l. run (Threaded.sample l flag) w ≡ Pop.sample flag w) e
        (Runs-if (w.shared.queue.capacity == unbounded) _ _ _ _ (Runs-return false)
          (Runs-bind (Program.load flag) (Sync.load flag) (λ f. Program.return (not (f == 0)))
            (λ f. Sync.return (not (f == 0))) (Runs-load flag) (λ f. Runs-return (not (f == 0))))
          w)

  -- What a pop does with a claimed slot once it has sampled the flag.
  abbrev drained : ℕ → ℕ → Bool → Program (Inner A W) (Option (A × Bool))
  drained head block wake = Program.◌>>=◌ (Threaded.take_value block (offset_of head)) λ value.
      Program.◌>>◌
        (if offset_of head + 1 == block_cap
          then Threaded.finish_block block head
          else Threaded.mark_read block (offset_of head))
        (Program.return (some (value, wake)))

  abbrev draining : ℕ → ℕ → Bool → M (Inner A W) (Option (A × Bool))
  draining head block wake = Sync.◌>>=◌ (Memory.take_value block (offset_of head)) λ value.
      Sync.◌>>◌
        (if offset_of head + 1 == block_cap
          then Pop.finish_block block head
          else Memory.mark_read block (offset_of head))
        (Sync.return (some (value, wake)))

  drained-Runs :
      (head block : ℕ) (wake : Bool) → Runs (drained head block wake) (draining head block wake)
  drained-Runs head block wake =
      Runs-bind (Threaded.take_value block (offset_of head))
        (Memory.take_value block (offset_of head)) _ _ (take_value-Runs block (offset_of head))
        λ value.
          Runs-bind
            (if offset_of head + 1 == block_cap
              then Threaded.finish_block block head
              else Threaded.mark_read block (offset_of head))
            (if offset_of head + 1 == block_cap
              then Pop.finish_block block head
              else Memory.mark_read block (offset_of head))
            _ _
            (Runs-if (offset_of head + 1 == block_cap) _ _ _ _ (finish_block-Runs block head)
              (mark_read-Runs block (offset_of head)))
            λ _. Runs-return (some (value, wake))

  drain_slot-Runs :
      (limit : ℕ) (flag : Inner A W → ℕ) (head block : ℕ) (w : World (Inner A W))
      → w.shared.queue.capacity ≡ limit
      → run (Threaded.drain_slot limit flag head block) w ≡ Pop.drain_slot flag head block w
  unfolding Threaded.drain_slot Pop.drain_slot
  drain_slot-Runs limit flag head block w e =
      run-bind (Threaded.sample limit flag) (drained head block) w
      ∙ ap (λ o. Sync.◌>>=◌ (λ _. o) (λ r. run (drained head block r)) w)
          (sample-Runs limit flag w e)
      ∙ bind_outcome (Pop.sample flag w) (λ r. run (drained head block r)) (draining head block)
          (drained-Runs head block) w

  pop_loop-Runs :
      (fuel limit : ℕ) (flag : Inner A W → ℕ) (polls head block : ℕ) (w : World (Inner A W))
      → Steady limit w
      → run (Threaded.pop_loop fuel limit flag polls head block) w
        ≡ Pop.pop_loop fuel flag polls head block w
  unfolding Threaded.pop_loop Pop.pop_loop Threaded.load_state Memory.load_state run
  pop_loop-Runs zero limit flag polls head block w h = refl
  pop_loop-Runs (suc fuel) limit flag polls head block w h =
      let (polls', more) = snooze_bounded polls in
      let w1 = disturb w in
      let h1 = disturb-Steady limit w h in
      let w2 = disturb w1 in
      let h2 = disturb-Steady limit w1 h1 in
      let w3 = disturb w2 in
      let h3 = disturb-Steady limit w2 h2 in
      run-if (offset_of head == block_cap) _ _ _ _ w
        (run-if more _ _ _ _ w
          (pop_loop-Runs fuel limit flag polls' w1.shared.queue.head.index
            w2.shared.queue.head.block w2 h2)
          refl)
        (run-load-if (ltb (offset_of head) block_cap)
          (λ s. ((s.queue.memory block).slots (offset_of head)).state) _ _ w
          λ state.
            run-if (state == written_tag (lap_of head)) _ _ _ _ w1
              (run-exchange (is_spurious w1.schedule) (w2.shared.queue.head.index == head)
                w2.shared.queue.head.index w2.shared (set_head_index (add_usize head 1) w2.shared)
                w2.schedule (Threaded.drain_slot limit flag head block)
                (λ actual.
                  Program.◌>>=◌ (Program.load (λ s. s.queue.head.block))
                    λ block'. Threaded.pop_loop fuel limit flag polls actual block')
                (Pop.drain_slot flag head block)
                (λ actual.
                  Sync.◌>>=◌ (Sync.load (λ s. s.queue.head.block))
                    λ block'. Pop.pop_loop fuel flag polls actual block')
                w1 (drain_slot-Runs limit flag head block _ h2.0)
                (pop_loop-Runs fuel limit flag polls w2.shared.queue.head.index
                  w3.shared.queue.head.block w3 h3))
              (run-if (w2.shared.queue.head.index == head) _ _ _ _ w2 refl (
                pop_loop-Runs fuel limit flag polls w2.shared.queue.head.index
                  w3.shared.queue.head.block w3 h3)))

  -- As long as the other threads leave the capacity as it is, the program of a pop, given that
  -- capacity, does under every schedule what `pop` does, its faults and the end of its fuel included.
  pub pop-Runs :
      (fuel limit : ℕ) (flag : Inner A W → ℕ) (w : World (Inner A W))
      → Steady limit w
      → run (Threaded.pop fuel limit flag) w ≡ Pop.pop fuel flag w
  unfolding Threaded.pop Pop.pop run
  pop-Runs fuel limit flag w h =
      pop_loop-Runs fuel limit flag 0 _ _ (disturb (disturb w))
        (disturb-Steady limit (disturb w) (disturb-Steady limit w h))
