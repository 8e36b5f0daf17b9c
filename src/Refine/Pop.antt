-- ===== src/Refine/Pop.antt =====
-- `pop` of src/queue.rs, for a thread that is alone, is the pop of the FIFO.
use rapidfire.Prelude.{
  ℕ, suc, ◌<◌, ◌≡◌, ◌≢◌, ◌⊎◌, inl, inr, none, some, Bool, false, not, ◌==◌, if◌then◌else◌, arith,
  Bool-cases, update,
}
use rapidfire.Layout.{unbounded, written_tag, offset_of, lap_of, add_usize}
use rapidfire.Sync.{done}
use rapidfire.Shared.{Block, Inner, set_queue}
use rapidfire.Queue.Memory.{load_state, take_value, mark_read}
use rapidfire.Queue.Pop.{pop, sample, drain_slot}
use rapidfire.Refine.Claim.{quiet}

module _ {A : Type 0} where
  -- Memory after the value of a slot was moved out.
  unfoldable pub empty_slot : (ℕ → Block A) → ℕ → ℕ → ℕ → Block A
  empty_slot m b o =
      update m b
        (record (m b) { slots = update (m b).slots o (record ((m b).slots o) { value = none }) })

  -- Memory after a slot was marked read.
  unfoldable pub mark : (ℕ → Block A) → ℕ → ℕ → ℕ → Block A
  mark m b o = update m b (record (m b) { read_marks = update (m b).read_marks o 1 })

  pub emptied :
      (m : ℕ → Block A) (b o x p : ℕ)
      → ((empty_slot m b o x).start ≡ (m x).start)
        × ((empty_slot m b o x).next ≡ (m x).next)
        × ((empty_slot m b o x).read_marks ≡ (m x).read_marks)
        × (((empty_slot m b o x).slots p).state ≡ ((m x).slots p).state)
        × ((x ≢ b) ⊎ (p ≢ o) → (empty_slot m b o x).slots p ≡ (m x).slots p)
  unfolding empty_slot update
  emptied m b o x p = ground arith

  pub mark_lem :
      (m : ℕ → Block A) (b o x p : ℕ)
      → ((mark m b o x).start ≡ (m x).start)
        × ((mark m b o x).next ≡ (m x).next)
        × ((mark m b o x).slots ≡ (m x).slots)
        × ((mark m b o b).read_marks o ≡ 1)
        × (p ≢ o → (mark m b o x).read_marks p ≡ (m x).read_marks p)
  unfolding mark update
  mark_lem m b o x p = ground arith

module _ {A W : Type 0} where
  unfoldable pub sampled : Inner A W → (Inner A W → ℕ) → Bool
  sampled s flag = if s.queue.capacity == unbounded then false else not (flag s == 0)

  pub sample_lem :
      (flag : Inner A W → ℕ) (s : Inner A W)
      → sample flag (quiet s) ≡ done (sampled s flag) (quiet s)
  unfolding sample sampled
  sample_lem flag s = elim (Bool-cases (s.queue.capacity == unbounded)) [
    | inl e ↦ rw (e, sample, sampled)
    | inr e ↦ rw (e, sample, sampled)
  ]

  pub drain-plain :
      (flag : Inner A W → ℕ) (s : Inner A W) (head b : ℕ) (x : A)
      → offset_of head < 62
      → ((s.queue.memory b).slots (offset_of head)).value ≡ some x
      → drain_slot flag head b (quiet s)
        ≡ done (some (x, sampled s flag)) (
            quiet (
              set_queue
                (λ q. record q {
                  memory = mark (empty_slot q.memory b (offset_of head)) b (offset_of head);
                })
                s))
  unfolding drain_slot take_value mark_read empty_slot mark
  drain-plain flag s head b x low here = ground (arith, sample_lem flag s)

  -- The state once the head is claimed.
  abbrev pub popping : Inner A W → Inner A W
  popping s =
      set_queue (λ q. record q { head = record q.head { index = add_usize q.head.index 1 } }) s

  pub pop-drains :
      (fuel : ℕ) (flag : Inner A W → ℕ) (s : Inner A W)
      → offset_of s.queue.head.index < 63
      → ((s.queue.memory s.queue.head.block).slots (offset_of s.queue.head.index)).state
        ≡ written_tag (lap_of s.queue.head.index)
      → pop (suc fuel) flag (quiet s)
        ≡ drain_slot flag s.queue.head.index s.queue.head.block (quiet (popping s))
  unfolding pop load_state
  pop-drains fuel flag s low written = ground arith

  pub pop-empty :
      (fuel : ℕ) (flag : Inner A W → ℕ) (s : Inner A W)
      → offset_of s.queue.head.index < 63
      → ((s.queue.memory s.queue.head.block).slots (offset_of s.queue.head.index)).state
        ≢ written_tag (lap_of s.queue.head.index)
      → pop (suc fuel) flag (quiet s) ≡ done none (quiet s)
  unfolding pop load_state
  pop-empty fuel flag s low other = ground arith
