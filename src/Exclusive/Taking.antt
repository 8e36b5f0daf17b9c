-- ===== src/Exclusive/Taking.antt =====
-- The branches of `pop_single_batch` in src/queue.rs, for a thread that is alone.
use rapidfire.Prelude.{
  ℕ, ◌+◌, ◌-◌, ◌<◌, ◌≡◌, ◌≢◌, refl, some, Bool, true, false, ◌==◌, if◌then◌else◌, List, ◌++◌,
  length, min, arith, ap, ◌∙◌,
}
use rapidfire.Layout.{written_tag, add_usize, offset_of, lap_of, block_cap}
use rapidfire.Sync.{done, bind-done, return, ◌>>=◌, ◌>>◌}
use rapidfire.Shared.{Queue, Inner, set_queue, set_head_index}
use rapidfire.Queue.Memory.{Act, load_state}
use rapidfire.Queue.Single.{pop_single_batch, step_block, release_slots, recycle_single}
use rapidfire.Refine.Claim.{quiet}
use rapidfire.Refine.Finish.{returned, moved}
use rapidfire.Exclusive.Single.{
  park, wake_count, wake_count-took, release_slots_lem, recycle_single_lem, step_block_lem,
}
use rapidfire.Exclusive.Ready.{IsReady, with_slots, take_ready_lem, empty_slots, next-empty_slots}

module _ {A W : Type 0} (flag : Inner A W → ℕ) (s : Inner A W) (buffer : List A) (limit : ℕ)
    (blind : (f : Queue A → Queue A) (t : Inner A W) → flag (set_queue f t) ≡ flag t) where
  pub pop_single_batch-zero :
      limit ≡ 0 → pop_single_batch buffer limit flag (quiet s) ≡ done (buffer, 0, 0) (quiet s)
  unfolding pop_single_batch
  pop_single_batch-zero e = ground arith

  pub pop_single_batch-empty :
      ((s.queue.memory s.queue.head.block).slots (offset_of s.queue.head.index)).state
        ≢ written_tag (lap_of s.queue.head.index)
      → offset_of s.queue.head.index < 63
      → pop_single_batch buffer limit flag (quiet s) ≡ done (buffer, 0, 0) (quiet s)
  unfolding pop_single_batch load_state
  pop_single_batch-empty other low = ground arith

  module _ (ys : List A) (some_room : limit ≢ 0) (low : offset_of s.queue.head.index < 63)
      (state : ((s.queue.memory s.queue.head.block).slots (offset_of s.queue.head.index)).state
        ≡ written_tag (lap_of s.queue.head.index))
      (ready : IsReady s.queue.memory s.queue.head.block
        (offset_of s.queue.head.index)
        (min limit (63 - offset_of s.queue.head.index))
        (written_tag (lap_of s.queue.head.index))
        ys) where
    abbrev pub batch_taken : Inner A W
    batch_taken = with_slots s s.queue.head.block (offset_of s.queue.head.index) (length ys)

    -- What follows when the values of the batch have been moved out.
    abbrev finish_batch : List A → Bool → Act A W (List A × ℕ × ℕ)
    finish_batch values last = do
      step_block last s.queue.head.block
      n ← release_slots flag s.queue.head.index (if last then length values + 1 else length values)
      if last then recycle_single s.queue.head.block else return tt
      return (buffer ++ values, length values, min n (length values))

    batch_start :
        pop_single_batch buffer limit flag (quiet s)
        ≡ finish_batch ys
            (offset_of s.queue.head.index + length ys == block_cap)
            (quiet batch_taken)
    unfolding pop_single_batch load_state
    batch_start = ground (arith, take_ready_lem _ _ _ _ ys s ready)

    wake_same : wake_count batch_taken flag ≡ wake_count s flag
    wake_same =
        wake_count-took flag s
          (λ q. record q {
            memory =
                empty_slots q.memory s.queue.head.block (offset_of s.queue.head.index) (length ys);
          })
          blind refl

    pub pop_single_batch-plain :
        offset_of s.queue.head.index + length ys < 63
        → pop_single_batch buffer limit flag (quiet s)
          ≡ done
              (buffer ++ ys, length ys, min (wake_count s flag) (length ys))
              (quiet (set_head_index (add_usize s.queue.head.index (length ys)) batch_taken))
    unfolding step_block
    pop_single_batch-plain short =
        let e : (offset_of s.queue.head.index + length ys == block_cap) ≡ false = ground arith in
        batch_start
        ∙ ap (λ last. finish_batch ys last (quiet batch_taken)) e
        ∙ bind-done (release_slots flag s.queue.head.index (length ys)) _
            (release_slots_lem flag (length ys) batch_taken blind)
        ∙ ap
            (λ n.
              done (buffer ++ ys, length ys, min n (length ys))
                (quiet (set_head_index (add_usize s.queue.head.index (length ys)) batch_taken)))
            wake_same

    pub pop_single_batch-block :
        (n : ℕ)
        → offset_of s.queue.head.index + length ys ≡ 63
        → (s.queue.memory s.queue.head.block).next ≡ some n
        → pop_single_batch buffer limit flag (quiet s)
          ≡ done
              (buffer ++ ys, length ys, min (wake_count s flag) (length ys))
              (quiet (
                set_queue
                  (λ q. record q { memory = park q.memory s.queue.head.block })
                  (returned
                    (moved batch_taken (add_usize s.queue.head.index (length ys + 1)) n)
                    s.queue.head.block)))
    pop_single_batch-block n full next =
        let b = s.queue.head.block in
        let e : (offset_of s.queue.head.index + length ys == block_cap) ≡ true = ground arith in
        batch_start
        ∙ ap (λ last. finish_batch ys last (quiet batch_taken)) e
        ∙ bind-done (step_block true b) _ (
            step_block_lem b n batch_taken (
              next-empty_slots s.queue.memory b (offset_of s.queue.head.index) (length ys) b
              ∙ next))
        ∙ bind-done (release_slots flag s.queue.head.index (length ys + 1)) _
            (release_slots_lem flag (length ys + 1) (moved batch_taken s.queue.head.index n) blind)
        ∙ bind-done (recycle_single b) _ (
            recycle_single_lem b
              (moved batch_taken (add_usize s.queue.head.index (length ys + 1)) n))
        ∙ ap
            (λ k.
              done (buffer ++ ys, length ys, min k (length ys))
                (quiet (
                  set_queue (λ q. record q { memory = park q.memory b })
                    (returned (moved batch_taken (add_usize s.queue.head.index (length ys + 1)) n)
                      b))))
            (wake_count-took flag batch_taken
                (λ q. record q { head = record q.head { index = s.queue.head.index; block = n } })
                blind refl
              ∙ wake_same)
