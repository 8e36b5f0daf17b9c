-- ===== src/Exclusive/Pop.antt =====
-- `pop_single` of src/queue.rs, for a thread that is alone, is the pop of the FIFO.
use rapidfire.Prelude.{
  ℕ, suc, ◌+◌, ◌/◌, ◌%◌, ◌<◌, ◌≡◌, refl, Option, some, Bool, not, ◌==◌, List, [], ◌∷◌, arith,
  dec_lt, ap, ◌∙◌,
}
use rapidfire.Layout.{offset_of, add_usize}
use rapidfire.Sync.{done}
use rapidfire.Shared.{Queue, Inner, set_queue, set_head_index}
use rapidfire.Queue.Single.{pop_single}
use rapidfire.Fifo
use rapidfire.Refine.Head.{head-offset, head-low, head-value, head-state, head_unwritten}
use rapidfire.Refine.Holds.{Holds, Contains}
use rapidfire.Refine.Claim.{quiet}
use rapidfire.Refine.Pop.{empty_slot}
use rapidfire.Refine.Pops.{with_wake}
use rapidfire.Refine.Finish.{returned, moved}
use rapidfire.Refine.PopHolds.{plain-Holds, last-Holds}
use rapidfire.Exclusive.Single.{
  park, park_lem, wake_count, took_value, wake_count-took, pop_single-empty, pop_single-plain,
  pop_single-last,
}

module _ {A W : Type 0} (s : Inner A W) (first : ℕ) (at : ℕ → ℕ) (flag : Inner A W → ℕ)
    (blind : (f : Queue A → Queue A) (t : Inner A W) → flag (set_queue f t) ≡ flag t) where
  -- Whether the flag of a bounded queue is set.
  abbrev pub must_wake : Bool
  must_wake = not (wake_count s flag == 0)

  abbrev pub PopAnswer : Option A × List A → Type 0
  PopAnswer (answer, ys) =
      (q' : Queue A) × (pop_single flag (quiet s)
        ≡ done (with_wake answer must_wake) (quiet (set_queue (λ _. q') s)))
      × Contains q' ys
      × (q'.capacity ≡ s.queue.capacity)
      × (q'.tail.index ≡ s.queue.tail.index)

  module _ (x : A) (xs : List A) (held : Holds s.queue first at (x ∷ xs)) where
    taken : Inner A W
    taken = took_value s s.queue.head.block (offset_of s.queue.head.index)

    -- The flag is read after the value is taken.
    woken-after : not (wake_count taken flag == 0) ≡ must_wake
    unfolding taken
    woken-after =
        ap (λ n. not (n == 0))
          (wake_count-took flag s
            (λ q. record q {
              memory = empty_slot q.memory s.queue.head.block (offset_of s.queue.head.index);
            })
            blind refl)

    pop_plain : first % 63 < 62 → PopAnswer (Fifo.pop (x ∷ xs))
    unfolding taken
    pop_plain low = (
      _,
      pop_single-plain flag s x blind (omega (arith, head-offset held)) (head-state held)
            (head-value held)
          ∙ (λ i. done (some (x, woken-after i)) (
              quiet (
                set_head_index (add_usize s.queue.head.index 1)
                  (took_value s (held.head_block i) (head-offset held i))))),
      (first + 1, at, plain-Holds s.queue first at x xs held _ (λ b. (refl, refl, refl)) low),
      refl,
      refl,
    )

    pop_last : first % 63 ≡ 62 → PopAnswer (Fifo.pop (x ∷ xs))
    unfolding taken
    pop_last last = (
      _,
      pop_single-last flag s x (at (suc (first / 63))) blind (omega (arith, head-offset held))
            (head-state held) (head-value held)
            (ap (λ b. (s.queue.memory b).next) held.head_block
              ∙ held.links (first / 63) (omega arith) (omega arith))
          ∙ (λ i. done (some (x, woken-after i)) (
              quiet (
                set_queue (λ q. record q { memory = park q.memory (held.head_block i) })
                  (returned
                    (moved (took_value s (held.head_block i) (head-offset held i))
                      (add_usize s.queue.head.index 2) (at (suc (first / 63))))
                    (held.head_block i))))),
      (
        first + 1,
        at,
        last-Holds s.queue first at x xs held _ (λ b. park_lem _ (at (first / 63)) b) last,
      ),
      refl,
      refl,
    )

  pub pop_any : (xs : List A) → Holds s.queue first at xs → PopAnswer (Fifo.pop xs)
  pop_any [] held = (
    s.queue,
    pop_single-empty flag s (head-low held) (head_unwritten held),
    (first, at, held),
    refl,
    refl,
  )
  pop_any (x ∷ xs) held = elim (dec_lt (first % 63) 62) [
    | yes low ↦ pop_plain x xs held low
    | no high ↦ pop_last x xs held (omega arith)
  ]

-- `pop_single`, for a thread that is alone, on a queue that contains `xs`: it returns the oldest
-- value, and whether the wake flag of a bounded queue is set, or none if `xs` is empty; then the
-- queue contains what the FIFO's pop leaves. The capacity and the tail index stay, and nothing but
-- the queue changes.
pub pop_single_refines :
    {A W : Type 0} (s : Inner A W) {xs : List A} (flag : Inner A W → ℕ)
    → Contains s.queue xs
    → ((f : Queue A → Queue A) (t : Inner A W) → flag (set_queue f t) ≡ flag t)
    → (q' : Queue A) × (pop_single flag (quiet s)
        ≡ done
            (with_wake (Fifo.pop xs).0 (not (wake_count s flag == 0)))
            (quiet (set_queue (λ _. q') s)))
      × Contains q' (Fifo.pop xs).1
      × (q'.capacity ≡ s.queue.capacity)
      × (q'.tail.index ≡ s.queue.tail.index)
pop_single_refines s {xs} flag (first, at, held) blind = pop_any s first at flag blind xs held
