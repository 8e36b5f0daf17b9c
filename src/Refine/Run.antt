-- ===== src/Refine/Run.antt =====
-- Any sequence of pushes and pops by one thread, from a new queue on, is one on the FIFO.
use rapidfire.Prelude.{
  ℕ, suc, ◌+◌, ◌*◌, ◌<◌, ◌≡◌, refl, Option, Bool, false, not, ◌==◌, if◌then◌else◌, List, [], ◌∷◌,
  length, Result, ok, err, arith, ap, ◌∙◌, update, update_self,
}
use rapidfire.Layout.{usize_mod, unbounded}
use rapidfire.Sync.{World, done, starved, fault, panicked}
use rapidfire.Shared.{Queue, Inner, set_queue}
use rapidfire.Queue.Push.{push}
use rapidfire.Queue.Pop.{pop}
use rapidfire.Queue.Observe
use rapidfire.Queue.Memory.{fresh_block}
use rapidfire.Channel.Core
use rapidfire.Fifo
use rapidfire.Refine.Holds.{Holds, Represents}
use rapidfire.Refine.Claim.{quiet}
use rapidfire.Refine.Pushes.{push_refines}
use rapidfire.Refine.Pops.{with_wake, pop_refines}

pub data Op (A : Type 0) : Type 0 where
  put : A → Op A
  get : Op A

-- What a call returned; `broken` is a call that did not return.
pub data Reply (A : Type 0) : Type 0 where
  pushed : Result Bool A → Reply A
  popped : Option (A × Bool) → Reply A
  broken : Reply A

module _ {A W : Type 0} (fuel : ℕ) (flag : Inner A W → ℕ) where
  -- The calls of one thread, in order, up to one that does not return.
  unfoldable pub run : List (Op A) → World (Inner A W) → List (Reply A)
  run [] w = []
  run (put v ∷ ops) w = elim (push fuel flag v w) [
    | done r w' ↦ pushed r ∷ run ops w'
    | starved ↦ broken ∷ []
    | fault ↦ broken ∷ []
    | panicked ↦ broken ∷ []
  ]
  run (get ∷ ops) w = elim (pop fuel flag w) [
    | done r w' ↦ popped r ∷ run ops w'
    | starved ↦ broken ∷ []
    | fault ↦ broken ∷ []
    | panicked ↦ broken ∷ []
  ]

-- The same calls on the FIFO. `wake` is whether the flag is set.
unfoldable pub fifo_run : {A : Type 0} → ℕ → Bool → List A → List (Op A) → List (Reply A)
fifo_run capacity wake xs [] = []
fifo_run capacity wake xs (put v ∷ ops) =
    let (accepted, ys) = Fifo.push capacity xs v in
    pushed (if accepted then ok wake else err v) ∷ fifo_run capacity wake ys ops
fifo_run capacity wake xs (get ∷ ops) =
    let (answer, ys) = Fifo.pop xs in
    popped (with_wake answer (if capacity == unbounded then false else wake))
    ∷ fifo_run capacity wake ys ops

-- Whatever the calls, a queue that holds `xs` and has positions left for them answers as the FIFO
-- that holds `xs`; every call returns.
pub run_refines :
    {A W : Type 0} (ops : List (Op A)) (s : Inner A W) {xs : List A} (fuel : ℕ)
    (flag : Inner A W → ℕ)
    → Represents s.queue xs
    → s.queue.tail.index + 2 * length ops + 256 < usize_mod
    → ((f : Queue A → Queue A) (t : Inner A W) → flag (set_queue f t) ≡ flag t)
    → run (suc (suc fuel)) flag ops (quiet s) ≡ fifo_run s.queue.capacity (not (flag s == 0)) xs ops
unfolding run fifo_run
run_refines [] s fuel flag r room blind = refl
run_refines (put v ∷ ops) s {xs} fuel flag r room blind =
    let (q', e, r', c, t) = push_refines s fuel flag v r (omega arith) blind in
    let next = run_refines ops (set_queue (λ _. q') s) fuel flag r' (omega arith) blind in
    rw (e, run)
      (ap
        (◌∷◌
          (pushed (if (Fifo.push s.queue.capacity xs v).0 then ok (not (flag s == 0)) else err v)))
        (next ∙ λ i.
          fifo_run (c i) (not (blind (λ _. q') s i == 0)) (Fifo.push s.queue.capacity xs v).1 ops))
run_refines (get ∷ ops) s {xs} fuel flag r room blind =
    let (q', e, r', c, t) = pop_refines s (suc fuel) flag r blind in
    let next = run_refines ops (set_queue (λ _. q') s) fuel flag r' (omega arith) blind in
    rw (e, run)
      (ap
        (◌∷◌ (
          popped (
            with_wake (Fifo.pop xs).0
              (if s.queue.capacity == unbounded then false else not (flag s == 0)))))
        (next ∙ λ i. fifo_run (c i) (not (blind (λ _. q') s i == 0)) (Fifo.pop xs).1 ops))

fresh_state :
    (A : Type 0) (a o : ℕ)
    → ((update (λ _. fresh_block {A = A}) 0 (record (fresh_block {A = A}) { start = 0 }) a).slots
        o).state
      ≡ 0
unfolding update
fresh_state A a o = ground arith

-- A new queue holds nothing.
pub new-Represents :
    {A : Type 0} (capacity : Option ℕ) → Represents (Observe.new {A = A} capacity) []
unfolding Observe.new
new-Represents {A} capacity = (0, (λ _. 0), holds, λ o p. absurd (omega arith))
  where
    holds : Holds (Observe.new {A = A} capacity) 0 (λ _. 0) []
    holds = record {
      in_range = omega arith;
      head_index = refl;
      tail_index = refl;
      head_block = refl;
      tail_block = refl;
      cached = (0, refl, omega arith);
      starts =
          λ l p r. ap (λ b. b.start) (update_self (λ _. fresh_block {A = A}) 0 _) ∙ omega arith;
      links = λ l p r. absurd (omega arith);
      alive = λ l p r. omega arith;
      apart = λ k l p r t. absurd (omega arith);
      values = λ i x e. cc;
      tags = λ a o l p k r e. absurd (ground (arith, fresh_state A a o));
      free = tt;
      distinct = tt;
      none_retired = refl;
      ends = ap (λ b. b.next) (update_self (λ _. fresh_block {A = A}) 0 _);
      counted = refl;
      within = λ h. omega arith;
    }

-- A new channel answers any pushes and pops of one thread as the empty FIFO, if they are few enough
-- for the positions and there is fuel for two rounds of a loop; every call returns.
pub run_new_refines :
    {A W : Type 0} (ops : List (Op A)) (capacity : Option ℕ) (fuel : ℕ) (flag : Inner A W → ℕ)
    → 2 * length ops + 256 < usize_mod
    → ((f : Queue A → Queue A) (t : Inner A W) → flag (set_queue f t) ≡ flag t)
    → run (suc (suc fuel)) flag ops (quiet (Core.new capacity))
      ≡ fifo_run (Observe.capacity_word capacity) (not (flag (Core.new capacity) == 0)) [] ops
unfolding Core.new Observe.new
run_new_refines ops capacity fuel flag room blind =
    run_refines ops (Core.new capacity) fuel flag (new-Represents capacity) (omega arith) blind
