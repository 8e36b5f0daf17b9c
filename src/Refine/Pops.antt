-- ===== src/Refine/Pops.antt =====
-- `pop` of src/queue.rs, for a thread that is alone, is the pop of the FIFO.
use rapidfire.Prelude.{
  ℕ, suc, ◌+◌, ◌/◌, ◌%◌, ◌<◌, ◌≡◌, refl, Option, none, some, Bool, false, not, ◌==◌, if◌then◌else◌,
  List, [], ◌∷◌, arith, dec_lt, ap, ◌∙◌,
}
use rapidfire.Layout.{unbounded, add_usize}
use rapidfire.Sync.{done}
use rapidfire.Shared.{Queue, Inner, set_queue}
use rapidfire.Queue.Pop.{pop, drain_slot}
use rapidfire.Fifo
use rapidfire.Refine.Head.{head-offset, head-low, head-value, head-state, head_unwritten}
use rapidfire.Refine.Holds.{Holds, Marked, Represents}
use rapidfire.Refine.Claim.{quiet}
use rapidfire.Refine.Pop.{empty_slot, mark, sampled, popping, pop-drains, pop-empty, drain-plain}
use rapidfire.Refine.Finish.{wipe, returned, moved, drain-last}
use rapidfire.Refine.PopHolds.{
  plain-Holds, plain-Marked, last-Holds, marked_read-Drained, wiped-Reset,
}

-- What `pop` returns of the FIFO's answer.
abbrev pub with_wake : {A : Type 0} → Option A → Bool → Option (A × Bool)
with_wake none w = none
with_wake (some x) w = some (x, w)

module _ {A W : Type 0} (s : Inner A W) (first : ℕ) (at : ℕ → ℕ) (fuel : ℕ) (flag : Inner A W → ℕ)
    (blind : (f : Queue A → Queue A) (t : Inner A W) → flag (set_queue f t) ≡ flag t) where
  abbrev pub PopAnswer : Option A × List A → Type 0
  PopAnswer (answer, ys) =
      (q' : Queue A) × (pop (suc fuel) flag (quiet s)
        ≡ done
            (with_wake answer (if s.queue.capacity == unbounded then false else not (flag s == 0)))
            (quiet (set_queue (λ _. q') s)))
      × Represents q' ys
      × (q'.capacity ≡ s.queue.capacity)
      × (q'.tail.index ≡ s.queue.tail.index)

  sampled_lem :
      sampled (popping s) flag
      ≡ (if s.queue.capacity == unbounded then false else not (flag s == 0))
  unfolding sampled
  sampled_lem =
      ap (λ n. if s.queue.capacity == unbounded then false else not (n == 0))
        (blind (λ q. record q { head = record q.head { index = add_usize q.head.index 1 } }) s)

  pop_none : Holds s.queue first at [] → Marked s.queue first → PopAnswer (Fifo.pop [])
  pop_none held marked = (
    s.queue,
    pop-empty fuel flag s (head-low held) (head_unwritten held),
    (first, at, held, marked),
    refl,
    refl,
  )

  module _ (x : A) (xs : List A) (held : Holds s.queue first at (x ∷ xs))
      (marked : Marked s.queue first) where
    drains :
        pop (suc fuel) flag (quiet s)
        ≡ drain_slot flag s.queue.head.index s.queue.head.block (quiet (popping s))
    drains = pop-drains fuel flag s (head-low held) (head-state held)

    pop_plain : first % 63 < 62 → PopAnswer (Fifo.pop (x ∷ xs))
    pop_plain low = (
      _,
      drains
          ∙ drain-plain flag (popping s) s.queue.head.index s.queue.head.block x
              (omega (arith, head-offset held)) (head-value held)
          ∙ (λ i. done (some (x, sampled_lem i)) (
              quiet (
                set_queue
                  (λ q. record q {
                    memory =
                        mark (empty_slot q.memory (held.head_block i) (head-offset held i))
                          (held.head_block i) (head-offset held i);
                  })
                  (popping s)))),
      (
        first + 1,
        at,
        plain-Holds s.queue first at x xs held _ (marked_read-Drained s.queue first at x xs held)
            low,
        plain-Marked s.queue first at x xs held marked low,
      ),
      refl,
      refl,
    )

    pop_last : first % 63 ≡ 62 → PopAnswer (Fifo.pop (x ∷ xs))
    pop_last last = (
      _,
      drains
          ∙ drain-last flag (popping s) s.queue.head.index s.queue.head.block
              (at (suc (first / 63))) x (omega (arith, head-offset held)) (head-value held)
              (ap (λ b. (s.queue.memory b).next) held.head_block
                ∙ held.links (first / 63) (omega arith) (omega arith))
              (λ o p. marked o (omega arith))
          ∙ (λ i. done (some (x, sampled_lem i)) (
              quiet (
                set_queue
                  (λ q. record q {
                    memory =
                        wipe (empty_slot q.memory (held.head_block i) (head-offset held i))
                          (held.head_block i);
                  })
                  (returned
                    (moved (popping s) (add_usize s.queue.head.index 2) (at (suc (first / 63))))
                    (held.head_block i))))),
      (
        first + 1,
        at,
        last-Holds s.queue first at x xs held _ (wiped-Reset s.queue first at x xs held) last,
        λ o p. absurd (omega arith),
      ),
      refl,
      refl,
    )

  pop_any :
      (xs : List A) → Holds s.queue first at xs → Marked s.queue first → PopAnswer (Fifo.pop xs)
  pop_any [] held marked = pop_none held marked
  pop_any (x ∷ xs) held marked = elim (dec_lt (first % 63) 62) [
    | yes low ↦ pop_plain x xs held marked low
    | no high ↦ pop_last x xs held marked (omega arith)
  ]

-- `pop`, for a thread that is alone, on a queue that holds `xs`, with fuel for one round: it returns
-- the oldest value, and whether the wake flag of a bounded queue is set, or none if `xs` is empty;
-- then the queue holds what the FIFO's pop leaves. The capacity and the tail index stay, and
-- nothing but the queue changes.
pub pop_refines :
    {A W : Type 0} (s : Inner A W) {xs : List A} (fuel : ℕ) (flag : Inner A W → ℕ)
    → Represents s.queue xs
    → ((f : Queue A → Queue A) (t : Inner A W) → flag (set_queue f t) ≡ flag t)
    → (q' : Queue A) × (pop (suc fuel) flag (quiet s)
        ≡ done
            (with_wake
              (Fifo.pop xs).0
              (if s.queue.capacity == unbounded then false else not (flag s == 0)))
            (quiet (set_queue (λ _. q') s)))
      × Represents q' (Fifo.pop xs).1
      × (q'.capacity ≡ s.queue.capacity)
      × (q'.tail.index ≡ s.queue.tail.index)
pop_refines s {xs} fuel flag (first, at, held, marked) blind =
    pop_any s first at fuel flag blind xs held marked
