-- ===== src/Threads/Consuming.antt =====
-- How a pop of src/queue.rs moves the head: by one when it claims a position, and over the sentinel
-- when it has claimed the last slot of a block, which it alone may do.
use rapidfire.Prelude.{
  ℕ, zero, suc, ◌+◌, ◌≡◌, ◌≢◌, refl, sym, ap, ◌∙◌, subst, ℕ_discrete, Option, some, Bool, true,
  false, ◌==◌, if◌then◌else◌, inl, inr, arith,
}
use rapidfire.Layout.{add_usize, offset_of, lap_of, written_tag, block_cap}
use rapidfire.Sync.{won, lost}
use rapidfire.Shared.{Inner, set_head_index}
use rapidfire.Queue.Backoff.{snooze_bounded}
use rapidfire.Threads.Program.{Program, ◌>>=◌, return, load}
use rapidfire.Threads.Pop.{
  load_marks, reset, deref, load_state, take_value, mark_read, finish_block, sample, drain_slot,
  advance_head, pop_loop, pop,
}
use rapidfire.Threads.Still.{
  deref-Idle, load_state-Idle, take_value-Idle, reset-Idle, load_marks-Idle, recycle-Idle,
  retire-Idle, mark_read-Idle, sample-Idle,
}
use rapidfire.Threads.Roles.{
  head_index, indices, Idle, Finishes, Claims, Consumes, Idle-then-Consumes, Idle-then-Finishes,
  Idle-bind, Idle-if, Finishes-bind,
}
use rapidfire.Threads.Phases.{Settled, Settled-if}

module _ (A W : Type 0) where
  finish_block-Finishes : (block head : ℕ) → Finishes head (finish_block {A = A} {W = W} block head)
  unfolding finish_block Finishes Settled
  finish_block-Finishes block head = λ b s. (
    refl,
    inl (
      refl,
      Idle-then-Finishes head (deref (s.queue.memory block).next) _ (deref-Idle A W _) λ n b s. (
        refl,
        inl (
          refl,
          λ b s. (
            refl,
            inr (
              refl,
              Idle-bind (load_marks 62 0 block) _ (load_marks-Idle A W 62 0 block) λ done.
                  Idle-if done _ _
                    (Idle-bind (reset block) _ (reset-Idle A W block) (λ _. recycle-Idle A W block))
                    (retire-Idle A W block),
            ),
          ),
        ),
      ),
    ),
  )

  Finishes-if :
      {R : Type 0} (h : ℕ) (c : Bool) (p q : Program (Inner A W) R)
      → c ≡ true
      → Finishes h p
      → Finishes h (if c then p else q)
  Finishes-if h c p q e a = subst (λ c. Finishes h (if c then p else q)) (sym e) a

  Consumes-if :
      {R : Type 0} (c : Bool) (p q : Program (Inner A W) R)
      → Consumes p
      → (c ≡ false → Consumes q)
      → Consumes (if c then p else q)
  Consumes-if true p q a b = a
  Consumes-if false p q a b = b refl

  -- What a pop does with a claimed position.
  drain_slot-Finishes :
      (limit : ℕ) (flag : Inner A W → ℕ) (head block : ℕ)
      → offset_of head + 1 ≡ block_cap
      → Finishes head (drain_slot limit flag head block)
  unfolding drain_slot Settled
  drain_slot-Finishes limit flag head block e =
      Idle-then-Finishes head (sample limit flag) _ (sample-Idle A W limit flag) λ wake.
        Idle-then-Finishes head (take_value block (offset_of head)) _
          (take_value-Idle A W block (offset_of head))
          λ value.
            Finishes-bind head
              (if offset_of head + 1 == block_cap
                then finish_block block head
                else mark_read block (offset_of head))
              (λ _. return (some (value, wake)))
              (Finishes-if head (offset_of head + 1 == block_cap) _ _ (ground arith)
                (finish_block-Finishes block head))
              (λ _. tt)

  drain_slot-Idle :
      (limit : ℕ) (flag : Inner A W → ℕ) (head block : ℕ)
      → offset_of head + 1 ≢ block_cap
      → Idle (drain_slot limit flag head block)
  unfolding drain_slot Settled
  drain_slot-Idle limit flag head block e =
      Idle-bind (sample limit flag) _ (sample-Idle A W limit flag) λ wake.
        Idle-bind (take_value block (offset_of head)) _ (take_value-Idle A W block (offset_of head))
          λ value.
            Idle-bind
              (if offset_of head + 1 == block_cap
                then finish_block block head
                else mark_read block (offset_of head))
              (λ _. return (some (value, wake)))
              (Settled-if indices (λ _. Unit {0}) (offset_of head + 1 == block_cap) _ _
                (λ t. absurd (ground arith)) (λ _. mark_read-Idle A W block (offset_of head)))
              (λ _. tt)

  -- The attempt to move the head, by what decides it.
  attempt-Claims :
      (limit : ℕ) (flag : Inner A W → ℕ) (head block : ℕ)
      (again : ℕ → Program (Inner A W) (Option (A × Bool)))
      → offset_of head ≢ block_cap
      → ((actual : ℕ) → Consumes (again actual))
      → (weak hit : Bool) (s : Inner A W) → (hit ≡ true → head ≡ head_index s)
      → let s' = if weak then s else if hit then set_head_index (add_usize head 1) s else s in
        let r = if weak then lost (head_index s) else if hit then won else lost (head_index s) in
        let rest = elim r as (λ _. Program (Inner A W) (Option (A × Bool))) [
          | won ↦ drain_slot limit flag head block
          | lost actual ↦ again actual
        ] in
        Claims s s' (Consumes rest) (λ h. Finishes h rest) (Idle rest)
  attempt-Claims limit flag head block again off h true hit s at = (refl, inl (refl, h _))
  attempt-Claims limit flag head block again off h false false s at = (refl, inl (refl, h _))
  attempt-Claims limit flag head block again off h false true s at =
      let e = at refl in
      (
        refl,
        inr (
          ap (λ t. add_usize t 1) e,
          (λ o. off (ap offset_of e ∙ o)),
          elim (ℕ_discrete (offset_of head + 1) block_cap) [
            | yes last ↦ inl (
              ap (λ t. offset_of t + 1) (sym e) ∙ last,
              subst (λ t. Finishes t (drain_slot limit flag head block)) e
                  (drain_slot-Finishes limit flag head block last),
            )
            | no inner ↦ inr (
              (λ l. inner (ap (λ t. offset_of t + 1) e ∙ l)),
              drain_slot-Idle limit flag head block inner,
            )
          ],
        ),
      )

  advance_head-Consumes :
      (limit : ℕ) (flag : Inner A W → ℕ) (head block : ℕ)
      (again : ℕ → Program (Inner A W) (Option (A × Bool)))
      → offset_of head ≢ block_cap
      → ((actual : ℕ) → Consumes (again actual))
      → Consumes (
          advance_head head >>= λ r. elim r [
            | won ↦ drain_slot limit flag head block
            | lost actual ↦ again actual
          ])
  unfolding Consumes
  advance_head-Consumes limit flag head block again off h weak s =
      attempt-Claims limit flag head block again off h weak (head_index s == head) s
        (λ e. ground arith)

  pop_loop-Consumes :
      (fuel limit : ℕ) (flag : Inner A W → ℕ) (polls head block : ℕ)
      → Consumes (pop_loop fuel limit flag polls head block)
  unfolding pop_loop Consumes
  pop_loop-Consumes zero limit flag polls head block = tt
  pop_loop-Consumes (suc fuel) limit flag polls head block =
      let (polls', more) = snooze_bounded polls in
      Consumes-if (offset_of head == block_cap) _ _
        (Consumes-if more _ _
          (λ b s. (
            refl,
            inl (
              refl,
              λ b' s'. (
                refl,
                inl (
                  refl,
                  pop_loop-Consumes fuel limit flag polls' (head_index s) s'.queue.head.block,
                ),
              ),
            ),
          ))
          (λ _. tt))
        (λ off.
          Idle-then-Consumes (load_state block (offset_of head)) _
            (load_state-Idle A W block (offset_of head))
            λ state.
              Consumes-if (state == written_tag (lap_of head)) _ _
                (advance_head-Consumes limit flag head block
                  (λ actual. (do
                    block' ← load (λ s. s.queue.head.block)
                    pop_loop fuel limit flag polls actual block'))
                  (λ o. absurd (ground arith))
                  (λ actual b s. (
                    refl,
                    inl (refl, pop_loop-Consumes fuel limit flag polls actual s.queue.head.block),
                  )))
                (λ _ b s. (
                  refl,
                  inl (
                    refl,
                    Consumes-if (head_index s == head) _ _ tt (λ _ b' s'. (
                      refl,
                      inl (
                        refl,
                        pop_loop-Consumes fuel limit flag polls (head_index s) s'.queue.head.block,
                      ),
                    )),
                  ),
                )))

  pub pop-Consumes : (fuel limit : ℕ) (flag : Inner A W → ℕ) → Consumes (pop fuel limit flag)
  unfolding pop Consumes
  pop-Consumes fuel limit flag = λ b s. (
    refl,
    inl (
      refl,
      λ b' s'. (
        refl,
        inl (refl, pop_loop-Consumes fuel limit flag 0 (head_index s) s'.queue.head.block),
      ),
    ),
  )
