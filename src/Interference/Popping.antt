-- ===== src/Interference/Popping.antt =====
-- The loop of `pop` of src/queue.rs, under any interference: another round costs a step of the
-- backoff, or something that another thread did.
use rapidfire.Prelude.{
  ℕ, zero, suc, ◌+◌, ◌*◌, ◌≤◌, ◌<◌, ◌≡◌, ◌⊎◌, refl, length, List, [], ◌∷◌, false, ltb, ◌==◌,
  if◌then◌else◌, arith, inl, inr,
}
use rapidfire.Layout.{add_usize, offset_of, lap_of, written_tag, block_cap}
use rapidfire.Sync.{World, Event, act, spurious, settle, disturb, is_spurious, load, ◌>>=◌}
use rapidfire.Shared.{Inner, set_head_index}
use rapidfire.Queue.Memory.{load_state}
use rapidfire.Queue.Backoff.{snooze_limit}
use rapidfire.Queue.Pop.{drain_slot, pop_loop, pop}
use rapidfire.Interference.Polling.{snooze_bounded-cases}
use rapidfire.Interference.Ending.{Ends, Ends-if, Ends-load-if, Ends-exchange, drain_slot-Ends}
use rapidfire.Interference.Rely.{head_of, spurious-shorter}

module _ {A W : Type 0} where
  -- From one world to a later one: an event has happened, or the head is where it was.
  abbrev Passed : World (Inner A W) → World (Inner A W) → Type 0
  Passed w w' =
      (length w'.schedule < length w.schedule)
      ⊎ (length w'.schedule ≡ length w.schedule) × (head_of w'.shared ≡ head_of w.shared)

  settle-Passed :
      (s : Inner A W) (es : List (Event (Inner A W)))
      → Passed (record { shared = s; schedule = es }) (settle s es)
  settle-Passed s [] = inr (refl, refl)
  settle-Passed s (act f ∷ es) = inl (omega arith)
  settle-Passed s (spurious ∷ es) = inl (omega arith)

  disturb-Passed : (w : World (Inner A W)) → Passed w (disturb w)
  disturb-Passed w = settle-Passed w.shared w.schedule

  -- A bound on the rounds that other threads can still cause: two for each event, and one when the
  -- head is not where the pop believes it.
  abbrev rounds : ℕ → World (Inner A W) → ℕ
  rounds head w = 2 * length w.schedule + (if head_of w.shared == head then 0 else 1)

  rounds-Passed :
      (head : ℕ) (w w' : World (Inner A W)) → Passed w w' → rounds head w' ≤ rounds head w
  rounds-Passed head w w' p = ground arith

  -- After the head has been read, whatever it was believed to be.
  rounds-read : (head : ℕ) (w : World (Inner A W)) → rounds (head_of w.shared) w ≤ rounds head w
  rounds-read head w = ground arith

  -- A head that is not the one expected.
  rounds-stale :
      (head : ℕ) (w : World (Inner A W))
      → (head_of w.shared == head) ≡ false
      → rounds (head_of w.shared) w < rounds head w
  rounds-stale head w e = ground arith

  rounds-event :
      (head : ℕ) (w w' : World (Inner A W))
      → length w'.schedule < length w.schedule
      → rounds (head_of w'.shared) w' < rounds head w
  rounds-event head w w' less = ground arith

  rounds-most : (head : ℕ) (w : World (Inner A W)) → rounds head w ≤ 2 * length w.schedule + 1
  rounds-most head w = ground arith

  pop_loop-Ends :
      (fuel : ℕ) (flag : Inner A W → ℕ) (polls head block : ℕ) (w : World (Inner A W))
      → polls ≤ snooze_limit
      → rounds head w + snooze_limit < fuel + polls
      → Ends (pop_loop fuel flag polls head block w)
  unfolding pop_loop load_state
  pop_loop-Ends zero flag polls head block w p r = absurd (omega arith)
  pop_loop-Ends (suc fuel) flag polls head block w p r =
      let w1 = disturb w in
      let w2 = disturb w1 in
      let w3 = disturb w2 in
      let r1 = rounds-Passed head w w1 (disturb-Passed w) in
      let r2 = rounds-Passed head w1 w2 (disturb-Passed w1) in
      let h1 = head_of w1.shared in
      let h2 = head_of w2.shared in
      Ends-if (offset_of head == block_cap) _ _ w
        (λ _.
          let again = rounds-read head w1 in
          let again' = rounds-Passed h1 w1 w2 (disturb-Passed w1) in
          elim (snooze_bounded-cases polls) [
            | inl e ↦ rw e tt
            | inr (e, small) ↦ rw e (
                pop_loop-Ends fuel flag (polls + 1) h1 w2.shared.queue.head.block w2 (omega arith)
                  (omega arith))
          ])
        (λ _.
          Ends-load-if (ltb (offset_of head) block_cap)
            (λ s. ((s.queue.memory block).slots (offset_of head)).state) _ w
            λ state.
              Ends-if (state == written_tag (lap_of head)) _ _ w1
                (λ _.
                  Ends-exchange (is_spurious w1.schedule) (h2 == head) h2 w2.shared
                    (set_head_index (add_usize head 1) w2.shared) w2.schedule
                    (drain_slot flag head block)
                    (λ actual. load (λ s. s.queue.head.block) >>= λ block'.
                      pop_loop fuel flag polls actual block')
                    w1 (drain_slot-Ends flag head block _)
                    (λ why.
                      let later = rounds-Passed h2 w2 w3 (disturb-Passed w2) in
                      pop_loop-Ends fuel flag polls h2 w3.shared.queue.head.block w3 p (elim why [
                        | inl e ↦
                            let less =
                              rounds-event head w1 w2 (spurious-shorter w1.shared w1.schedule e) in
                            omega arith
                        | inr e ↦ let less = rounds-stale head w2 e in omega arith
                      ])))
                (λ _.
                  Ends-if (h2 == head) _ _ w2 (λ _. tt)
                    (λ e.
                      let later = rounds-Passed h2 w2 w3 (disturb-Passed w2) in
                      let stale = rounds-stale head w2 e in
                      pop_loop-Ends fuel flag polls h2 w3.shared.queue.head.block w3 p
                        (omega arith))))

  -- Whatever other threads do between the accesses of a pop, it ends: with fuel for two rounds for
  -- each of their events, for the 72 steps of its backoff and for two more, a pop does not run out of
  -- fuel. It may fault, since nothing is asked of the memory that it finds.
  pub pop-Ends :
      (fuel : ℕ) (flag : Inner A W → ℕ) (w : World (Inner A W))
      → 2 * length w.schedule + snooze_limit + 2 ≤ fuel
      → Ends (pop fuel flag w)
  unfolding pop
  pop-Ends fuel flag w enough =
      let w1 = disturb w in
      let w2 = disturb w1 in
      let r1 = rounds-Passed (head_of w.shared) w w1 (disturb-Passed w) in
      let r2 = rounds-Passed (head_of w1.shared) w1 w2 (disturb-Passed w1) in
      let read = rounds-read (head_of w.shared) w1 in
      pop_loop-Ends fuel flag 0 (head_of w1.shared) w2.shared.queue.head.block w2 (omega arith)
        (let bound = rounds-most (head_of w.shared) w in omega arith)
