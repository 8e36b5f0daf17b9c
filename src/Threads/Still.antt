-- ===== src/Threads/Still.antt =====
-- The parts of a pop of src/queue.rs that move neither the head nor the tail.
use rapidfire.Prelude.{
  ℕ, zero, suc, ◌+◌, ◌≡◌, refl, Option, none, some, Bool, true, false, ltb, ◌==◌, if◌then◌else◌,
}
use rapidfire.Layout.{pooled, block_cap, unbounded}
use rapidfire.Shared.{Inner, set_block, set_spare}
use rapidfire.Queue.Pool.{is_null}
use rapidfire.Threads.Pop.{
  clear_marks, load_marks, reset, deref, load_state, emptied, value_or_fault, take_value, mark_read,
  recycle_slow, recycle, retire, sample,
}
use rapidfire.Threads.Program.{store}
use rapidfire.Threads.Roles.{indices, Idle, Idle-if, Idle-bind}
use rapidfire.Threads.Phases.{Settled}

module _ (A W : Type 0) where
  pub deref-Idle : (a : Option ℕ) → Idle (deref {A = A} {W = W} a)
  unfolding Settled
  deref-Idle none = tt
  deref-Idle (some a) = tt

  pub value-Idle : (v : Option A) → Idle (value_or_fault {A = A} {W = W} v)
  unfolding Settled
  value-Idle none = tt
  value-Idle (some v) = tt

  pub load_state-Idle : (a o : ℕ) → Idle (load_state {A = A} {W = W} a o)
  unfolding load_state Settled
  load_state-Idle a o = Idle-if (ltb o block_cap) _ _ (λ b s. (refl, tt)) tt

  emptied-indices : (a o : ℕ) (v : Option A) (s : Inner A W) → indices (emptied a o v s) ≡ indices s
  emptied-indices a o none s = refl
  emptied-indices a o (some v) s = refl

  pub take_value-Idle : (a o : ℕ) → Idle (take_value {A = A} {W = W} a o)
  unfolding take_value Settled
  take_value-Idle a o = λ b s. (emptied-indices a o _ s, value-Idle _)

  clear_marks-Idle : (n a : ℕ) → Idle (clear_marks {A = A} {W = W} n a)
  unfolding clear_marks Settled
  clear_marks-Idle zero a = tt
  clear_marks-Idle (suc n) a =
      Idle-bind (clear_marks n a) _ (clear_marks-Idle n a) (λ _. λ b s. (refl, tt))

  pub load_marks-Idle : (left o a : ℕ) → Idle (load_marks {A = A} {W = W} left o a)
  unfolding load_marks Settled
  load_marks-Idle zero o a = tt
  load_marks-Idle (suc left) o a = λ b s.
      (refl, Idle-if ((s.queue.memory a).read_marks o == 0) _ _ tt (load_marks-Idle left (o + 1) a))

  pub reset-Idle : (a : ℕ) → Idle (reset {A = A} {W = W} a)
  unfolding reset Settled
  reset-Idle a =
      Idle-bind (clear_marks block_cap a)
        (λ _. store (set_block a λ b. record b { start = pooled })) (clear_marks-Idle block_cap a)
        (λ _. λ b s. (refl, tt))

  spare-indices :
      (c : Bool) (f : Inner A W → Inner A W) (s : Inner A W)
      → indices (f s) ≡ indices s
      → indices (if c then f s else s) ≡ indices s
  spare-indices true f s e = e
  spare-indices false f s e = refl

  pub recycle-Idle : (a : ℕ) → Idle (recycle {A = A} {W = W} a)
  unfolding recycle recycle_slow Settled
  recycle-Idle a = λ b s. (
    spare-indices (is_null s.queue.spare) (set_spare (some a)) s refl,
    Idle-if (is_null s.queue.spare) _ _ tt (λ b s. (refl, tt)),
  )

  pub retire-Idle : (a : ℕ) → Idle (retire {A = A} {W = W} a)
  unfolding retire Settled
  retire-Idle a = λ b s. (refl, tt)

  pub mark_read-Idle : (a o : ℕ) → Idle (mark_read {A = A} {W = W} a o)
  unfolding mark_read Settled
  mark_read-Idle a o = λ b s. (refl, tt)

  pub sample-Idle : (limit : ℕ) (flag : Inner A W → ℕ) → Idle (sample limit flag)
  unfolding sample Settled
  sample-Idle limit flag = Idle-if (limit == unbounded) _ _ tt (λ b s. (refl, tt))
