-- ===== src/Threads/PushRuns.antt =====
-- The program of a push is the `push` of src/queue.rs.
use rapidfire.Prelude.{
  ℕ, zero, suc, ◌+◌, ◌≡◌, refl, Option, none, some, Bool, false, not, ◌&&◌, ltb, ◌==◌,
  if◌then◌else◌, Result, ok, err, ap, ◌∙◌,
}
use rapidfire.Layout.{offset_of, lap_of, start_of, written_tag, block_cap, pooled}
use rapidfire.Sync
use rapidfire.Sync.{World, M, disturb}
use rapidfire.Shared.{Inner, set_block}
use rapidfire.Queue.Memory
use rapidfire.Queue.Pool
use rapidfire.Queue.Pool.{Picked, ready_block, retired_block, nothing}
use rapidfire.Queue.Push
use rapidfire.Threads.Program
use rapidfire.Threads.Program.{Program, run}
use rapidfire.Threads.Runs.{Runs, Runs-bind, Runs-if, Runs-return, run-bind, bind_outcome}
use rapidfire.Threads.Claim
use rapidfire.Threads.ClaimRuns.{claim-Runs}
use rapidfire.Threads.Pop
use rapidfire.Threads.Push as Threaded

module _ {A W : Type 0} where
  run_store : (f : Inner A W → Inner A W) → Runs (Program.store f) (Sync.store f)
  unfolding run
  run_store f w = refl

  clear_marks-Runs : (n a : ℕ) → Runs (Pop.clear_marks {A = A} {W = W} n a) (Memory.clear_marks n a)
  unfolding Pop.clear_marks Memory.clear_marks run
  clear_marks-Runs zero a w = refl
  clear_marks-Runs (suc n) a w =
      Runs-bind (Pop.clear_marks n a) (Memory.clear_marks n a) _ _ (clear_marks-Runs n a)
        (λ _ w. refl) w

  pub load_marks-Runs :
      (left o a : ℕ) → Runs (Pop.load_marks {A = A} {W = W} left o a) (Memory.load_marks left o a)
  unfolding Pop.load_marks Memory.load_marks run
  load_marks-Runs zero o a w = refl
  load_marks-Runs (suc left) o a w =
      Runs-if (((disturb w).shared.queue.memory a).read_marks o == 0) _ _ _ _ (Runs-return false)
        (load_marks-Runs left (o + 1) a) (disturb w)

  pub reset-Runs : (a : ℕ) → Runs (Pop.reset {A = A} {W = W} a) (Memory.reset a)
  unfolding Pop.reset Memory.reset
  reset-Runs a =
      Runs-bind (Pop.clear_marks block_cap a) (Memory.clear_marks block_cap a)
        (λ _. Program.store (set_block a λ b. record b { start = pooled }))
        (λ _. Sync.store (set_block a λ b. record b { start = pooled }))
        (clear_marks-Runs block_cap a) (λ _ w. run_store _ w)

  pub deref-Runs : (a : Option ℕ) → Runs (Pop.deref {A = A} {W = W} a) (Memory.deref a)
  unfolding run
  deref-Runs none w = refl
  deref-Runs (some a) w = refl

  finish_pick-Runs :
      (p : Picked) → Runs (Threaded.finish_pick {A = A} {W = W} p) (Pool.finish_pick p)
  unfolding Threaded.allocate Memory.allocate Pool.finish_pick run
  finish_pick-Runs (ready_block a) w = refl
  finish_pick-Runs (retired_block a) w =
      Runs-bind (Pop.reset a) (Memory.reset a) _ _ (reset-Runs a) (λ _. Runs-return a) w
  finish_pick-Runs nothing w = refl

  or_pool-Runs : (a : Option ℕ) → Runs (Threaded.or_pool {A = A} {W = W} a) (Pool.or_pool a)
  unfolding Threaded.take_block_slow Pool.take_block_slow Pool.or_pool run
  or_pool-Runs (some a) w = refl
  or_pool-Runs none w = finish_pick-Runs _ _

  take_block-Runs : Runs (Threaded.take_block {A = A} {W = W}) Pool.take_block
  unfolding Threaded.take_block Pool.take_block run
  take_block-Runs w = or_pool-Runs _ _

  find_block_walk-Runs :
      (fuel start block : ℕ)
      → Runs
          (Threaded.find_block_walk {A = A} {W = W} fuel start block)
          (Push.find_block_walk fuel start block)
  unfolding Threaded.find_block_walk Push.find_block_walk run
  find_block_walk-Runs zero start block w = refl
  find_block_walk-Runs (suc fuel) start block w =
      let found = ((disturb w).shared.queue.memory block).start in
      Runs-if (found == start) _ _ _ _ (Runs-return block)
        (Runs-if (ltb start found && not (found == pooled)) _ _ _ _
          (λ w'.
            Runs-bind (Pop.deref (((disturb w').shared.queue.memory block).prev))
              (Memory.deref (((disturb w').shared.queue.memory block).prev))
              (Threaded.find_block_walk fuel start) (Push.find_block_walk fuel start) (deref-Runs _)
              (find_block_walk-Runs fuel start) (disturb w'))
          (λ w'. find_block_walk-Runs fuel start _ _))
        (disturb w)

  find_block-Runs :
      (fuel pos : ℕ)
      → Runs (Threaded.find_block {A = A} {W = W} fuel pos) (Push.find_block fuel pos)
  unfolding Threaded.find_block Push.find_block Threaded.find_block_slow Push.find_block_slow run
  find_block-Runs fuel pos w =
      let w1 = disturb w in
      let w2 = disturb w1 in
      Runs-if ((w2.shared.queue.memory w1.shared.queue.tail.block).start == start_of pos) _ _ _ _
        (Runs-return w1.shared.queue.tail.block)
        (λ w'. find_block_walk-Runs fuel (start_of pos) _ _) w2

  write_value-Runs :
      (a o : ℕ) (v : A)
      → Runs (Threaded.write_value {A = A} {W = W} a o v) (Memory.write_value a o v)
  unfolding Threaded.write_value Memory.write_value run
  write_value-Runs a o v = Runs-if (ltb o block_cap) _ _ _ _ (λ w. refl) (λ w. refl)

  install_next-Runs :
      (block tail : ℕ)
      → Runs (Threaded.install_next {A = A} {W = W} block tail) (Push.install_next block tail)
  unfolding Threaded.install_next Push.install_next run
  install_next-Runs block tail =
      Runs-bind Threaded.take_block Pool.take_block _ _ take_block-Runs (λ next w. refl)

  publish-Runs :
      (a o tag : ℕ) → Runs (Threaded.publish {A = A} {W = W} a o tag) (Memory.publish a o tag)
  unfolding Threaded.publish Memory.publish run
  publish-Runs a o tag w = refl

  fill-Runs :
      (fuel : ℕ) (flag : Inner A W → ℕ) (value : A) (tail : ℕ)
      → Runs (Threaded.fill fuel flag value tail) (Push.fill fuel flag value tail)
  unfolding Threaded.fill Push.fill run
  fill-Runs fuel flag value tail w =
      Runs-bind (Threaded.find_block fuel tail) (Push.find_block fuel tail) _ _
        (find_block-Runs fuel tail)
        (λ block.
          Runs-bind
            (if offset_of tail + 1 == block_cap
              then Threaded.install_next block tail
              else Program.return tt)
            (if offset_of tail + 1 == block_cap
              then Push.install_next block tail
              else Sync.return tt)
            _ _
            (Runs-if (offset_of tail + 1 == block_cap) _ _ _ _ (install_next-Runs block tail)
              (Runs-return tt))
            λ _.
              Runs-bind (Threaded.write_value block (offset_of tail) value)
                (Memory.write_value block (offset_of tail) value) _ _
                (write_value-Runs block (offset_of tail) value)
                λ _.
                  Runs-bind (Threaded.publish block (offset_of tail) (written_tag (lap_of tail)))
                    (Memory.publish block (offset_of tail) (written_tag (lap_of tail))) _ _
                    (publish-Runs block (offset_of tail) (written_tag (lap_of tail)))
                    λ _. Runs-return (not (flag (disturb w).shared == 0)))
        (disturb w)

  abbrev after_claim : ℕ → (Inner A W → ℕ) → A → Option ℕ → M (Inner A W) (Result Bool A)
  after_claim fuel flag value none = Sync.return (err value)
  after_claim fuel flag value (some tail) =
      Sync.◌>>=◌ (Push.fill fuel flag value tail) λ wake. Sync.return (ok wake)

  complete-Runs :
      (fuel : ℕ) (flag : Inner A W → ℕ) (value : A) (claimed : Option ℕ)
      → Runs (Threaded.complete fuel flag value claimed) (after_claim fuel flag value claimed)
  unfolding Threaded.complete
  complete-Runs fuel flag value none = Runs-return (err value)
  complete-Runs fuel flag value (some tail) =
      Runs-bind (Threaded.fill fuel flag value tail) (Push.fill fuel flag value tail) _ _
        (fill-Runs fuel flag value tail) (λ wake. Runs-return (ok wake))

  -- The program of a push, given the capacity of the queue, does under every schedule what `push`
  -- does, its faults and the end of its fuel included.
  pub push-Runs :
      (fuel : ℕ) (flag : Inner A W → ℕ) (value : A) (w : World (Inner A W))
      → run (Threaded.push fuel w.shared.queue.capacity flag value) w ≡ Push.push fuel flag value w
  unfolding Threaded.push Push.push
  push-Runs fuel flag value w =
      run-bind (Claim.claim fuel w.shared.queue.capacity) (Threaded.complete fuel flag value) w
      ∙ ap (λ o. Sync.◌>>=◌ (λ _. o) (λ r. run (Threaded.complete fuel flag value r)) w)
          (claim-Runs fuel w)
      ∙ bind_outcome (Push.claim fuel w) (λ r. run (Threaded.complete fuel flag value r))
          (after_claim fuel flag value) (complete-Runs fuel flag value) w
