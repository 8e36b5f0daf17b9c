-- ===== src/Refine/Finish.antt =====
-- `finish_block` of src/queue.rs for a thread that is alone: the block of the last slot goes back to
-- the pool.
use rapidfire.Prelude.{
  ℕ, zero, suc, ◌<◌, ◌≡◌, ◌≢◌, refl, Option, none, some, true, false, ◌==◌, ◌+◌, List, ◌∷◌, arith,
  ◌∙◌, update,
}
use rapidfire.Layout.{pooled, block_cap, offset_of, add_usize}
use rapidfire.Sync.{done, bind-done, store}
use rapidfire.Shared.{Block, Inner, set_queue, set_block}
use rapidfire.Queue.Memory.{load_marks, clear_marks, reset, take_value}
use rapidfire.Queue.Pool.{recycle}
use rapidfire.Queue.Pop.{drain_slot, finish_block}
use rapidfire.Refine.Claim.{quiet}
use rapidfire.Refine.Pop.{empty_slot, emptied, sampled, sample_lem}

-- The spare block and the ready blocks after a block came back.
abbrev pub put_back : Option ℕ → List ℕ → ℕ → Option ℕ × List ℕ
put_back none ready b = (some b, ready)
put_back (some a) ready b = (some a, b ∷ ready)

module _ {A : Type 0} where
  -- Memory after the first marks of a block were cleared.
  unfoldable pub cleared : ℕ → (ℕ → Block A) → ℕ → ℕ → Block A
  cleared zero m b = m
  cleared (suc n) m b =
      let m' = cleared n m b in
      update m' b (record (m' b) { read_marks = update (m' b).read_marks n 0 })

  cleared_lem :
      (n : ℕ) (m : ℕ → Block A) (b x : ℕ)
      → ((cleared n m b x).next ≡ (m x).next)
        × ((cleared n m b x).slots ≡ (m x).slots)
        × (x ≢ b → cleared n m b x ≡ m x)
  unfolding cleared update
  cleared_lem zero m b x = (refl, refl, λ _. refl)
  cleared_lem (suc n) m b x = let k = cleared_lem n m b x in ground (arith, k)

  -- Memory after a block was reset.
  unfoldable pub wipe : (ℕ → Block A) → ℕ → ℕ → Block A
  wipe m b = let m1 = cleared block_cap m b in update m1 b (record (m1 b) { start = pooled })

  pub wipe_lem :
      (m : ℕ → Block A) (b x : ℕ)
      → ((wipe m b x).next ≡ (m x).next)
        × ((wipe m b x).slots ≡ (m x).slots)
        × (x ≢ b → wipe m b x ≡ m x)
  unfolding wipe update
  wipe_lem m b x = let k = cleared_lem block_cap m b x in ground (arith, k)

module _ {A W : Type 0} where
  load_marks_lem :
      (n o a : ℕ) (s : Inner A W)
      → ((i : ℕ) → i < o + n → (s.queue.memory a).read_marks i ≢ 0)
      → load_marks n o a (quiet s) ≡ done true (quiet s)
  unfolding load_marks
  load_marks_lem zero o a s h = refl
  load_marks_lem (suc n) o a s h =
      let e : ((s.queue.memory a).read_marks o == 0) ≡ false =
        let ne = h o (omega arith) in ground arith in
      rw e (load_marks_lem n (o + 1) a s (λ i p. h i (omega arith)))

  clear_marks_lem :
      (n a : ℕ) (s : Inner A W)
      → clear_marks n a (quiet s)
        ≡ done tt (quiet (set_queue (λ q. record q { memory = cleared n q.memory a }) s))
  unfolding clear_marks cleared
  clear_marks_lem zero a s = refl
  clear_marks_lem (suc n) a s = bind-done (clear_marks n a) _ (clear_marks_lem n a s)

  reset_lem :
      (a : ℕ) (s : Inner A W)
      → reset a (quiet s)
        ≡ done tt (quiet (set_queue (λ q. record q { memory = wipe q.memory a }) s))
  unfolding reset wipe
  reset_lem a s =
      bind-done (clear_marks block_cap a)
        (λ _. store (set_block a λ b. record b { start = pooled })) (clear_marks_lem block_cap a s)

  abbrev pub returned : Inner A W → ℕ → Inner A W
  returned s b =
      set_queue
        (λ q. record q {
          spare = (put_back q.spare q.pool.ready b).0;
          pool = record { ready = (put_back q.spare q.pool.ready b).1; retired = q.pool.retired };
        })
        s

  pub recycle_lem : (b : ℕ) (s : Inner A W) → recycle b (quiet s) ≡ done tt (quiet (returned s b))
  unfolding recycle
  recycle_lem b s = ground arith

  abbrev pub moved : Inner A W → ℕ → ℕ → Inner A W
  moved s index block =
      set_queue (λ q. record q { head = record q.head { index = index; block = block } }) s

  pub finish_block_lem :
      (b head n : ℕ) (s : Inner A W)
      → (s.queue.memory b).next ≡ some n
      → ((o : ℕ) → o < 62 → (s.queue.memory b).read_marks o ≢ 0)
      → finish_block b head (quiet s)
        ≡ done tt (
            quiet (
              set_queue
                (λ q. record q { memory = wipe q.memory b })
                (returned (moved s (add_usize head 2) n) b)))
  unfolding finish_block
  finish_block_lem b head n s e marks = ground (
    arith,
    load_marks_lem 62 0 b (moved s (add_usize head 2) n) marks,
    reset_lem b (moved s (add_usize head 2) n),
    recycle_lem b
        (set_queue (λ q. record q { memory = wipe q.memory b }) (moved s (add_usize head 2) n)),
  )

  pub drain-last :
      (flag : Inner A W → ℕ) (s : Inner A W) (head b n : ℕ) (x : A)
      → offset_of head ≡ 62
      → ((s.queue.memory b).slots (offset_of head)).value ≡ some x
      → (s.queue.memory b).next ≡ some n
      → ((o : ℕ) → o < 62 → (s.queue.memory b).read_marks o ≢ 0)
      → drain_slot flag head b (quiet s)
        ≡ done (some (x, sampled s flag)) (
            quiet (
              set_queue
                (λ q. record q { memory = wipe (empty_slot q.memory b (offset_of head)) b })
                (returned (moved s (add_usize head 2) n) b)))
  unfolding drain_slot take_value empty_slot
  drain-last flag s head b n x last here e marks = ground (
    arith,
    sample_lem flag s,
    finish_block_lem b head n
        (set_queue (λ q. record q { memory = empty_slot q.memory b (offset_of head) }) s)
        ((emptied s.queue.memory b (offset_of head) b 0).1 ∙ e)
        (λ o p. rw (emptied s.queue.memory b (offset_of head) b 0).2 (marks o p)),
  )
