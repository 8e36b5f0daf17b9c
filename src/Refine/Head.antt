-- ===== src/Refine/Head.antt =====
-- The slot at the head of a queue that holds a list: that of the oldest value, or not written.
use rapidfire.Prelude.{
  ℕ, ◌+◌, ◌/◌, ◌%◌, ◌<◌, ◌≡◌, ◌≢◌, refl, some, List, [], ◌∷◌, arith, sym, ap, ◌∙◌,
}
use rapidfire.Layout.{written_tag, offset_of, lap_of}
use rapidfire.Shared.{Queue}
use rapidfire.Refine.Index.{offset_of-pos, lap_of-pos}
use rapidfire.Refine.Holds.{Holds}

module _ {A : Type 0} {q : Queue A} {first : ℕ} {at : ℕ → ℕ} {xs : List A}
    (held : Holds q first at xs) where
  pub head-offset : offset_of q.head.index ≡ first % 63
  head-offset = ap offset_of held.head_index ∙ offset_of-pos first

  pub head-lap : lap_of q.head.index ≡ first / 63
  head-lap = ap lap_of held.head_index ∙ lap_of-pos first

  pub head-slot :
      (q.memory q.head.block).slots (offset_of q.head.index)
      ≡ (q.memory (at (first / 63))).slots (first % 63)
  head-slot i = (q.memory (held.head_block i)).slots (head-offset i)

  pub head-low : offset_of q.head.index < 63
  head-low = omega (arith, head-offset)

pub head_unwritten :
    {A : Type 0} {q : Queue A} {first : ℕ} {at : ℕ → ℕ}
    → Holds q first at []
    → ((q.memory q.head.block).slots (offset_of q.head.index)).state
      ≢ written_tag (lap_of q.head.index)
head_unwritten {q} {first} {at} held e = absurd (
    omega (
      arith,
      held.tags (at (first / 63)) (first % 63) (first / 63)
          (held.alive (first / 63) (omega arith) (omega arith)) (omega arith)
          (omega (arith, held.in_range))
          (ap (λ c. c.state) (sym (head-slot held)) ∙ e ∙ ap written_tag (head-lap held)),
    ))

module _ {A : Type 0} {q : Queue A} {first : ℕ} {at : ℕ → ℕ} {x : A} {xs : List A}
    (held : Holds q first at (x ∷ xs)) where
  oldest :
      (((q.memory (at (first / 63))).slots (first % 63)).value ≡ some x)
      × (((q.memory (at (first / 63))).slots (first % 63)).state ≡ written_tag (first / 63))
  oldest = let z : first + 0 ≡ first = omega arith in rw z at (held.values 0 x refl)

  pub head-value : ((q.memory q.head.block).slots (offset_of q.head.index)).value ≡ some x
  head-value = ap (λ c. c.value) (head-slot held) ∙ oldest.0

  pub head-state :
      ((q.memory q.head.block).slots (offset_of q.head.index)).state
      ≡ written_tag (lap_of q.head.index)
  head-state = ap (λ c. c.state) (head-slot held) ∙ oldest.1 ∙ ap written_tag (sym (head-lap held))
