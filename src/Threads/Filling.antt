-- ===== src/Threads/Filling.antt =====
-- After its claim a push of src/queue.rs moves neither the head nor the tail.
use rapidfire.Prelude.{
  ℕ, zero, suc, ◌+◌, ◌≢◌, refl, Option, none, some, not, ◌&&◌, ◌==◌, ltb, if◌then◌else◌,
}
use rapidfire.Layout.{pooled, unbounded, block_cap, offset_of, start_of}
use rapidfire.Shared.{Inner}
use rapidfire.Queue.Pool.{Picked, ready_block, retired_block, nothing}
use rapidfire.Threads.Program.{return}
use rapidfire.Threads.Pop.{deref}
use rapidfire.Threads.Push.{
  allocate, write_value, publish, finish_pick, take_block_slow, or_pool, take_block,
  find_block_walk, find_block_slow, find_block, install_next, fill, complete, push,
}
use rapidfire.Threads.Phases.{Settled}
use rapidfire.Threads.Roles.{Idle, Idle-bind, Idle-if}
use rapidfire.Threads.Claim.{claim}
use rapidfire.Threads.Admitting.{Admits, Anything, Admits-bind, Admits-Idle, claim-Admits}
use rapidfire.Threads.Still.{deref-Idle, reset-Idle}

module _ (A W : Type 0) where
  finish_pick-Idle : (p : Picked) → Idle (finish_pick {A = A} {W = W} p)
  unfolding Settled allocate
  finish_pick-Idle (ready_block a) = tt
  finish_pick-Idle (retired_block a) = Idle-bind _ _ (reset-Idle A W a) (λ _. tt)
  finish_pick-Idle nothing = λ b s. (refl, tt)

  or_pool-Idle : (a : Option ℕ) → Idle (or_pool {A = A} {W = W} a)
  unfolding Settled take_block_slow
  or_pool-Idle (some a) = tt
  or_pool-Idle none = λ b s. (refl, finish_pick-Idle _)

  take_block-Idle : Idle (take_block {A = A} {W = W})
  unfolding Settled take_block
  take_block-Idle = λ b s. (refl, or_pool-Idle _)

  find_block_walk-Idle :
      (fuel start block : ℕ) → Idle (find_block_walk {A = A} {W = W} fuel start block)
  unfolding Settled find_block_walk
  find_block_walk-Idle zero start block = tt
  find_block_walk-Idle (suc fuel) start block = λ b s.
      let found = (s.queue.memory block).start in
      (
        refl,
        Idle-if (found == start) _ _ tt (
            Idle-if (ltb start found && not (found == pooled)) _ _
              (λ b s. (
                refl,
                Idle-bind (deref (s.queue.memory block).prev) _ (deref-Idle A W _)
                    (find_block_walk-Idle fuel start),
              ))
              (λ b s. (refl, find_block_walk-Idle fuel start _))),
      )

  find_block-Idle : (fuel pos : ℕ) → Idle (find_block {A = A} {W = W} fuel pos)
  unfolding Settled find_block find_block_slow
  find_block-Idle fuel pos = λ b s. (
    refl,
    λ b' s'. (
      refl,
      Idle-if ((s'.queue.memory s.queue.tail.block).start == start_of pos) _ _ tt
          (λ b s. (refl, find_block_walk-Idle fuel (start_of pos) _)),
    ),
  )

  install_next-Idle : (block tail : ℕ) → Idle (install_next {A = A} {W = W} block tail)
  unfolding Settled install_next
  install_next-Idle block tail =
      Idle-bind take_block _ take_block-Idle
        λ next b s. (refl, λ b s. (refl, λ b s. (refl, λ b s. (refl, λ b s. (refl, tt)))))

  write_value-Idle : (a o : ℕ) (v : A) → Idle (write_value {A = A} {W = W} a o v)
  unfolding Settled write_value
  write_value-Idle a o v = Idle-if (ltb o block_cap) _ _ (λ b s. (refl, tt)) tt

  fill-Idle :
      (fuel : ℕ) (flag : Inner A W → ℕ) (value : A) (tail : ℕ) → Idle (fill fuel flag value tail)
  unfolding Settled fill publish
  fill-Idle fuel flag value tail = λ b s. (
    refl,
    Idle-bind (find_block fuel tail) _ (find_block-Idle fuel tail) λ block.
        Idle-bind (if offset_of tail + 1 == block_cap then install_next block tail else return tt) _
          (Idle-if (offset_of tail + 1 == block_cap) _ _ (install_next-Idle block tail) tt)
          λ _.
            Idle-bind (write_value block (offset_of tail) value) _
              (write_value-Idle block (offset_of tail) value) λ _ b s. (refl, tt),
  )

  complete-Idle :
      (fuel : ℕ) (flag : Inner A W → ℕ) (value : A) (claimed : Option ℕ)
      → Idle (complete fuel flag value claimed)
  unfolding Settled complete
  complete-Idle fuel flag value none = tt
  complete-Idle fuel flag value (some tail) =
      Idle-bind (fill fuel flag value tail) _ (fill-Idle fuel flag value tail) (λ _. tt)

  -- A push on a bounded queue moves the tail only where it has seen room.
  pub push-Admits :
      (fuel limit lo : ℕ) (flag : Inner A W → ℕ) (value : A)
      → limit ≢ unbounded
      → Admits limit Anything lo (push fuel limit flag value)
  unfolding push
  push-Admits fuel limit lo flag value l =
      Admits-bind limit Anything Anything lo (claim fuel limit) (complete fuel flag value)
        (claim-Admits A W fuel limit lo l)
        λ lo' r _.
          Admits-Idle limit lo' (complete fuel flag value r) (complete-Idle fuel flag value r)
