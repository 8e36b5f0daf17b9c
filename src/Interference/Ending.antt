-- ===== src/Interference/Ending.antt =====
-- Calls that end whatever other threads do: the rules that follow the shape of the code, and what a
-- `pop` of src/queue.rs does with a slot that it has claimed.
use rapidfire.Prelude.{
  ℕ, zero, suc, ◌+◌, ◌≡◌, ◌⊎◌, refl, Option, none, some, List, Bool, true, false, ◌==◌,
  if◌then◌else◌, inl, inr,
}
use rapidfire.Layout.{pooled, offset_of, block_cap, unbounded}
use rapidfire.Sync.{
  World, Outcome, done, starved, fault, panicked, M, Event, disturb, won, lost, return, crash, load,
  store, ◌>>=◌, ◌>>◌,
}
use rapidfire.Shared.{Inner, set_block, set_slot}
use rapidfire.Queue.Memory.{clear_marks, load_marks, reset, deref, take_value, mark_read}
use rapidfire.Queue.Pool.{is_null, recycle, recycle_slow, retire}
use rapidfire.Queue.Pop.{finish_block, sample, drain_slot}

-- A call ends: it returns, or the memory that it finds makes it fault.
abbrev pub Ends : {S R : Type 0} → Outcome S R → Type 0
Ends starved = ⊥
Ends (done r w) = Unit
Ends fault = Unit
Ends panicked = Unit

module _ {S : Type 0} where
  pub Ends-bind :
      {R P : Type 0} (m : M S R) (f : R → M S P) (w : World S)
      → Ends (m w)
      → ((r : R) (w' : World S) → Ends (f r w'))
      → Ends ((m >>= f) w)
  Ends-bind {R} {P} m f w h k = go (m w) h
    where
      go : (o : Outcome S R) → Ends o → Ends (((λ _. o) >>= f) w)
      go (done r w') h = k r w'
      go starved h = h
      go fault h = tt
      go panicked h = tt

  pub Ends-if :
      {R : Type 0} (c : Bool) (m n : M S R) (w : World S)
      → (c ≡ true → Ends (m w))
      → (c ≡ false → Ends (n w))
      → Ends ((if c then m else n) w)
  Ends-if true m n w a b = a refl
  Ends-if false m n w a b = b refl

  pub Ends-load-if :
      {R P : Type 0} (c : Bool) (f : S → R) (h : R → M S P) (w : World S)
      → ((r : R) → Ends (h r (disturb w)))
      → Ends (((if c then load f else crash) >>= h) w)
  Ends-load-if true f h w e = e (f (disturb w).shared)
  Ends-load-if false f h w e = tt

  pub Ends-exchange :
      {R : Type 0} (weak hit : Bool) (now : ℕ) (s s' : S) (es : List (Event S)) (m : M S R)
      (n : ℕ → M S R) (w : World S)
      → Ends (m (record { shared = s'; schedule = es }))
      → ((weak ≡ true) ⊎ (hit ≡ false) → Ends (n now (record { shared = s; schedule = es })))
      → Ends (
          ((λ _.
                if weak
                then done (lost now) (record { shared = s; schedule = es })
                else if hit
                then done won (record { shared = s'; schedule = es })
                else done (lost now) (record { shared = s; schedule = es }))
              >>= λ r. elim r as (λ _. M S R) [ won ↦ m | lost actual ↦ n actual ])
            w)
  Ends-exchange true hit now s s' es m n w a b = b (inl refl)
  Ends-exchange false true now s s' es m n w a b = a
  Ends-exchange false false now s s' es m n w a b = b (inr refl)

module _ {A W : Type 0} where
  deref-Ends : (a : Option ℕ) (w : World (Inner A W)) → Ends (deref a w)
  deref-Ends none w = tt
  deref-Ends (some a) w = tt

  pub take_value-Ends : (a o : ℕ) (w : World (Inner A W)) → Ends (take_value a o w)
  unfolding take_value
  take_value-Ends a o w = go (((disturb w).shared.queue.memory a).slots o).value
    where
      go :
          (v : Option A)
          → Ends (elim v as (λ _. Outcome (Inner A W) A) [
            | none ↦ fault
            | some x ↦ done x (record (disturb w) {
              shared = set_slot a o (λ c. record c { value = none }) (disturb w).shared;
            })
          ])
      go none = tt
      go (some v) = tt

  pub recycle-Ends : (a : ℕ) (w : World (Inner A W)) → Ends (recycle a w)
  unfolding recycle recycle_slow
  recycle-Ends a w = Ends-if (is_null (disturb w).shared.queue.spare) _ _ _ (λ _. tt) (λ _. tt)

  clear_marks-Ends : (n a : ℕ) (w : World (Inner A W)) → Ends (clear_marks n a w)
  unfolding clear_marks
  clear_marks-Ends zero a w = tt
  clear_marks-Ends (suc n) a w =
      Ends-bind (clear_marks n a) _ w (clear_marks-Ends n a w) (λ _ _. tt)

  reset-Ends : (a : ℕ) (w : World (Inner A W)) → Ends (reset a w)
  unfolding reset
  reset-Ends a w =
      Ends-bind (clear_marks block_cap a)
        (λ _. store (set_block a λ b. record b { start = pooled })) w
        (clear_marks-Ends block_cap a w) (λ _ _. tt)

  load_marks-Ends : (left o a : ℕ) (w : World (Inner A W)) → Ends (load_marks left o a w)
  unfolding load_marks
  load_marks-Ends zero o a w = tt
  load_marks-Ends (suc left) o a w =
      Ends-if (((disturb w).shared.queue.memory a).read_marks o == 0) _ _ (disturb w) (λ _. tt)
        (λ _. load_marks-Ends left (o + 1) a (disturb w))

  release-Ends :
      (all_read : Bool) (block : ℕ) (w : World (Inner A W))
      → Ends ((if all_read then (reset block >> recycle block) else retire block) w)
  unfolding retire
  release-Ends all_read block w =
      Ends-if all_read _ _ w
        (λ _.
          Ends-bind (reset block) (λ _. recycle block) w (reset-Ends block w)
            (λ _ w'. recycle-Ends block w'))
        (λ _. tt)

  finish_block-Ends : (block head : ℕ) (w : World (Inner A W)) → Ends (finish_block block head w)
  unfolding finish_block
  finish_block-Ends block head w =
      let next = ((disturb w).shared.queue.memory block).next in
      Ends-bind (deref next) _ (disturb w) (deref-Ends next (disturb w)) λ n w'.
        Ends-bind (load_marks 62 0 block) _ _ (load_marks-Ends 62 0 block _)
          λ all_read w''. release-Ends all_read block w''

  sample-Ends : (flag : Inner A W → ℕ) (w : World (Inner A W)) → Ends (sample flag w)
  unfolding sample
  sample-Ends flag w = Ends-if (w.shared.queue.capacity == unbounded) _ _ w (λ _. tt) (λ _. tt)

  pub drain_slot-Ends :
      (flag : Inner A W → ℕ) (head block : ℕ) (w : World (Inner A W))
      → Ends (drain_slot flag head block w)
  unfolding drain_slot mark_read
  drain_slot-Ends flag head block w = Ends-bind (sample flag) _ w (sample-Ends flag w) λ wake w1.
      Ends-bind (take_value block (offset_of head)) _ w1 (take_value-Ends block (offset_of head) w1)
        λ value w2.
          Ends-bind
            (if offset_of head + 1 == block_cap
              then finish_block block head
              else mark_read block (offset_of head))
            (λ _. return (some (value, wake))) w2
            (Ends-if (offset_of head + 1 == block_cap) _ _ w2 (λ _. finish_block-Ends block head w2)
              (λ _. tt))
            (λ _ _. tt)
