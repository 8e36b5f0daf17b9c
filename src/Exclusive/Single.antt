-- ===== src/Exclusive/Single.antt =====
-- `pop_single` of src/queue.rs, for a thread that is alone, is the pop of the FIFO.
use rapidfire.Prelude.{
  ℕ, ◌<◌, ◌≡◌, ◌≢◌, refl, Option, none, some, Bool, true, not, ◌==◌, if◌then◌else◌, arith, ap, ◌∙◌,
  update, Bool-cases, inl, inr,
}
use rapidfire.Layout.{pooled, unbounded, written_tag, offset_of, lap_of, add_usize}
use rapidfire.Sync.{done, bind-done, return, ◌>>=◌, ◌>>◌}
use rapidfire.Shared.{Block, Queue, Inner, set_queue, set_head_index}
use rapidfire.Queue.Memory.{Act, load_state, take_value}
use rapidfire.Queue.Single.{recycle_single, step_block, release_slots, pop_single}
use rapidfire.Refine.Claim.{quiet}
use rapidfire.Refine.Pop.{empty_slot, emptied}
use rapidfire.Refine.Finish.{returned, moved, recycle_lem}

module _ {A : Type 0} where
  -- Memory after a block was taken out of use with its marks left alone.
  unfoldable pub park : (ℕ → Block A) → ℕ → ℕ → Block A
  park m b = update m b (record (m b) { start = pooled })

  pub park_lem :
      (m : ℕ → Block A) (b x : ℕ)
      → ((park m b x).next ≡ (m x).next)
        × ((park m b x).slots ≡ (m x).slots)
        × (x ≢ b → park m b x ≡ m x)
  unfolding park update
  park_lem m b x = ground arith

module _ {A W : Type 0} where
  -- The value of the wake flag that the receiver reads.
  abbrev pub wake_count : Inner A W → (Inner A W → ℕ) → ℕ
  wake_count s flag = if s.queue.capacity == unbounded then 0 else flag s

  pub release_slots_lem :
      (flag : Inner A W → ℕ) (advance : ℕ) (s : Inner A W)
      → ((f : Queue A → Queue A) (t : Inner A W) → flag (set_queue f t) ≡ flag t)
      → release_slots flag s.queue.head.index advance (quiet s)
        ≡ done (wake_count s flag) (quiet (set_head_index (add_usize s.queue.head.index advance) s))
  unfolding release_slots
  release_slots_lem flag advance s blind = elim (Bool-cases (s.queue.capacity == unbounded)) [
    | inl e ↦ simp e
    | inr e ↦ simp e (
        ap (λ n. done n (quiet (set_head_index (add_usize s.queue.head.index advance) s)))
          (blind (λ q. record q { head = record q.head { index = add_usize q.head.index advance } })
            s))
  ]

  pub recycle_single_lem :
      (b : ℕ) (s : Inner A W)
      → recycle_single b (quiet s)
        ≡ done tt (quiet (set_queue (λ q. record q { memory = park q.memory b }) (returned s b)))
  unfolding recycle_single park
  recycle_single_lem b s = recycle_lem b (set_queue (λ q. record q { memory = park q.memory b }) s)

  pub pop_single-empty :
      (flag : Inner A W → ℕ) (s : Inner A W)
      → offset_of s.queue.head.index < 63
      → ((s.queue.memory s.queue.head.block).slots (offset_of s.queue.head.index)).state
        ≢ written_tag (lap_of s.queue.head.index)
      → pop_single flag (quiet s) ≡ done none (quiet s)
  unfolding pop_single load_state
  pop_single-empty flag s low other = ground arith

  -- The states after the value was moved out, and after the head moved on.
  abbrev pub took_value : Inner A W → ℕ → ℕ → Inner A W
  took_value s b o = set_queue (λ q. record q { memory = empty_slot q.memory b o }) s

  pub wake_count-took :
      (flag : Inner A W → ℕ) (s : Inner A W) (f : Queue A → Queue A)
      → ((f : Queue A → Queue A) (t : Inner A W) → flag (set_queue f t) ≡ flag t)
      → (f s.queue).capacity ≡ s.queue.capacity
      → wake_count (set_queue f s) flag ≡ wake_count s flag
  wake_count-took flag s f blind c i = if c i == unbounded then 0 else blind f s i

  pub pop_single-plain :
      (flag : Inner A W → ℕ) (s : Inner A W) (x : A)
      → ((f : Queue A → Queue A) (t : Inner A W) → flag (set_queue f t) ≡ flag t)
      → offset_of s.queue.head.index < 62
      → ((s.queue.memory s.queue.head.block).slots (offset_of s.queue.head.index)).state
        ≡ written_tag (lap_of s.queue.head.index)
      → ((s.queue.memory s.queue.head.block).slots (offset_of s.queue.head.index)).value ≡ some x
      → (let t = took_value s s.queue.head.block (offset_of s.queue.head.index) in
          pop_single flag (quiet s)
          ≡ done
              (some (x, not (wake_count t flag == 0)))
              (quiet (set_head_index (add_usize s.queue.head.index 1) t)))
  unfolding pop_single load_state take_value step_block empty_slot
  pop_single-plain flag s x blind low state value = ground (
    arith,
    release_slots_lem flag 1 (took_value s s.queue.head.block (offset_of s.queue.head.index)) blind,
  )

  pub step_block_lem :
      (b n : ℕ) (s : Inner A W)
      → (s.queue.memory b).next ≡ some n
      → step_block true b (quiet s) ≡ done tt (quiet (moved s s.queue.head.index n))
  unfolding step_block
  step_block_lem b n s e = ground arith

  -- What follows when the last value of a block has been moved out.
  abbrev finish_single : (Inner A W → ℕ) → ℕ → ℕ → A → Act A W (Option (A × Bool))
  finish_single wake_flag head block value = do
    step_block true block
    flag ← release_slots wake_flag head 2
    recycle_single block
    return (some (value, not (flag == 0)))

  after_last :
      (flag : Inner A W → ℕ) (s : Inner A W) (x : A) (b n : ℕ)
      → ((f : Queue A → Queue A) (t : Inner A W) → flag (set_queue f t) ≡ flag t)
      → (s.queue.memory b).next ≡ some n
      → finish_single flag s.queue.head.index b x (quiet s)
        ≡ done (some (x, not (wake_count s flag == 0))) (
            quiet (
              set_queue
                (λ q. record q { memory = park q.memory b })
                (returned (moved s (add_usize s.queue.head.index 2) n) b)))
  after_last flag s x b n blind e =
      bind-done (step_block true b) _ (step_block_lem b n s e)
      ∙ bind-done (release_slots flag s.queue.head.index 2) _
          (release_slots_lem flag 2 (moved s s.queue.head.index n) blind)
      ∙ bind-done (recycle_single b) _
          (recycle_single_lem b (moved s (add_usize s.queue.head.index 2) n))
      ∙ ap
          (λ k. done (some (x, not (k == 0))) (
            quiet (
              set_queue (λ q. record q { memory = park q.memory b })
                (returned (moved s (add_usize s.queue.head.index 2) n) b))))
          (wake_count-took flag s
            (λ q. record q { head = record q.head { index = s.queue.head.index; block = n } }) blind
            refl)

  pub pop_single-last :
      (flag : Inner A W → ℕ) (s : Inner A W) (x : A) (n : ℕ)
      → ((f : Queue A → Queue A) (t : Inner A W) → flag (set_queue f t) ≡ flag t)
      → offset_of s.queue.head.index ≡ 62
      → ((s.queue.memory s.queue.head.block).slots (offset_of s.queue.head.index)).state
        ≡ written_tag (lap_of s.queue.head.index)
      → ((s.queue.memory s.queue.head.block).slots (offset_of s.queue.head.index)).value ≡ some x
      → (s.queue.memory s.queue.head.block).next ≡ some n
      → (let t = took_value s s.queue.head.block (offset_of s.queue.head.index) in
          pop_single flag (quiet s)
          ≡ done (some (x, not (wake_count t flag == 0))) (
              quiet (
                set_queue
                  (λ q. record q { memory = park q.memory s.queue.head.block })
                  (returned (moved t (add_usize s.queue.head.index 2) n) s.queue.head.block))))
  unfolding pop_single load_state take_value step_block empty_slot
  pop_single-last flag s x n blind low state value next = ground (
    arith,
    after_last flag took_it x s.queue.head.block n blind (
        (emptied s.queue.memory s.queue.head.block (offset_of s.queue.head.index) s.queue.head.block
          0).1
        ∙ next),
  )
    where
      took_it : Inner A W
      took_it = took_value s s.queue.head.block (offset_of s.queue.head.index)
