-- ===== src/Refine/Install.antt =====
-- What `push` does to memory, for a thread that is alone, when it takes the last slot of a block.
use rapidfire.Prelude.{ℕ, ◌≡◌, ◌≢◌, none, some, not, ◌==◌, update, arith}
use rapidfire.Layout.{lap, lap_of, offset_of, start_of, add_usize, written_tag}
use rapidfire.Sync.{done}
use rapidfire.Shared.{Block, Inner, set_queue}
use rapidfire.Queue.Memory.{write_value, publish}
use rapidfire.Queue.Pool.{take_block}
use rapidfire.Queue.Push.{find_block, install_next, fill}
use rapidfire.Refine.Claim.{quiet}
use rapidfire.Refine.Fill.{put_slot}

module _ {A : Type 0} where
  -- Memory after block `a` was linked behind block `b`.
  pub link : (ℕ → Block A) → ℕ → ℕ → ℕ → ℕ → Block A
  link m b a start =
      let m1 = update m a (record (m a) { prev = some b }) in
      let m2 = update m1 a (record (m1 a) { next = none }) in
      let m3 = update m2 a (record (m2 a) { start = start }) in
      update m3 b (record (m3 b) { next = some a })

  pub link-start :
      (m : ℕ → Block A) (b a start x : ℕ)
      → a ≢ b
      → ((link m b a start a).start ≡ start) × (x ≢ a → (link m b a start x).start ≡ (m x).start)
  unfolding link update
  link-start m b a start x h = ground arith

  pub link-next :
      (m : ℕ → Block A) (b a start x : ℕ)
      → ((link m b a start b).next ≡ some a)
        × (x ≢ a → x ≢ b → (link m b a start x).next ≡ (m x).next)
        × (a ≢ b → (link m b a start a).next ≡ none)
  unfolding link update
  link-next m b a start x = ground arith

  pub link-rest :
      (m : ℕ → Block A) (b a start x : ℕ)
      → ((link m b a start x).slots ≡ (m x).slots)
        × ((link m b a start x).read_marks ≡ (m x).read_marks)
  unfolding link update
  link-rest m b a start x = ground arith

module _ {A W : Type 0} where
  abbrev pub installed : Inner A W → ℕ → (ℕ → Block A) → Inner A W
  installed s a m = set_queue (λ q. record q { memory = m; tail = record q.tail { block = a } }) s

  pub install_next_lem :
      (tail b a : ℕ) (s s' : Inner A W)
      → take_block (quiet s) ≡ done a (quiet s')
      → install_next b tail (quiet s)
        ≡ done tt
            (quiet (installed s' a (link s'.queue.memory b a (add_usize (start_of tail) lap))))
  unfolding install_next link
  install_next_lem tail b a s s' took = ground (arith, took)

  pub fill-last :
      (fuel : ℕ) (flag : Inner A W → ℕ) (v : A) (tail a : ℕ) (s s' : Inner A W)
      → offset_of tail ≡ 62
      → (s.queue.memory s.queue.tail.block).start ≡ start_of tail
      → take_block (quiet s) ≡ done a (quiet s')
      → fill fuel flag v tail (quiet s) ≡ (
          let b = s.queue.tail.block in
          done (not (flag s == 0)) (
            quiet (
              installed s' a (
                put_slot
                  (link s'.queue.memory b a (add_usize (start_of tail) lap))
                  b
                  (offset_of tail)
                  v
                  (written_tag (lap_of tail))))))
  unfolding fill find_block write_value publish put_slot
  fill-last fuel flag v tail a s s' last here took =
      ground (arith, install_next_lem tail s.queue.tail.block a s s' took)
