-- ===== src/Release/Values.antt =====
-- The drop of the queue in src/queue.rs drops the values that the queue holds.
use rapidfire.Prelude.{
  ℕ, suc, ◌+◌, ◌-◌, ◌/◌, ◌%◌, ◌≤◌, ◌<◌, ◌≡◌, refl, Option, some, List, [], ◌∷◌, length, get_elem?,
  arith, dec_lt, sym, ap, ◌∙◌,
}
use rapidfire.Layout.{offset_of, lap_of, written_tag}
use rapidfire.Shared.{Queue}
use rapidfire.Queue.Teardown.{prepend, drop_values}
use rapidfire.Refine.Index.{pos, offset_of-pos, lap_of-pos}
use rapidfire.Refine.Holds.{Holds}

module _ {A : Type 0} (q : Queue A) where
  -- A step over a written slot.
  drop-written :
      (left head b : ℕ) (x : A)
      → offset_of head < 63
      → ((q.memory b).slots (offset_of head)).value ≡ some x
      → ((q.memory b).slots (offset_of head)).state ≡ written_tag (lap_of head)
      → drop_values q (suc left) head (some b)
        ≡ prepend (some x) (drop_values q left (head + 1) (some b))
  unfolding drop_values
  drop-written left head b x low value state = ground arith

  -- A step over a sentinel.
  drop-sentinel :
      (left head b : ℕ)
      → offset_of head ≡ 63
      → drop_values q (suc left) head (some b) ≡ drop_values q left (head + 1) (q.memory b).next
  unfolding drop_values
  drop-sentinel left head b high = ground arith

  drop-nothing : (head : ℕ) (b : Option ℕ) → drop_values q 0 head b ≡ some []
  unfolding drop_values
  drop-nothing head b = refl

module _ {A : Type 0} (q : Queue A) (first : ℕ) (at : ℕ → ℕ) (xs : List A)
    (held : Holds q first at xs) where
  -- The walk from the value of number `k` on, when the rest of the list is `ys`.
  Walks : ℕ → List A → Type 0
  Walks k ys = drop_values q (q.tail.index - pos k) (pos k) (some (at (k / 63))) ≡ some ys

  walk-next :
      (k : ℕ) (y : A) (ys : List A)
      → first ≤ k
      → k + suc (length ys) ≡ first + length xs
      → ((q.memory (at (k / 63))).slots (k % 63)).value ≡ some y
      → ((q.memory (at (k / 63))).slots (k % 63)).state ≡ written_tag (k / 63)
      → Walks (k + 1) ys
      → Walks k (y ∷ ys)
  unfolding Walks
  walk-next k y ys from end value state rest = elim (dec_lt (k % 63) 62) [
    | yes low ↦
        let p : pos k + 1 ≡ pos (k + 1) = omega arith in
        let l : k / 63 ≡ (k + 1) / 63 = omega arith in
        written
        ∙ ap (prepend (some y))
            ((λ i. drop_values q (q.tail.index - p i) (p i) (some (at (l i)))) ∙ rest)
    | no high ↦ written ∙ ap (prepend (some y)) (crossed (omega arith) ∙ rest)
  ]
    where
      left : ℕ
      left = q.tail.index - (pos k + 1)

      written :
          drop_values q (q.tail.index - pos k) (pos k) (some (at (k / 63)))
          ≡ prepend (some y) (drop_values q left (pos k + 1) (some (at (k / 63))))
      written =
          ap (λ n. drop_values q n (pos k) (some (at (k / 63)))) (ground (arith, held.tail_index))
          ∙ drop-written q left (pos k) (at (k / 63)) y (omega (arith, offset_of-pos k))
              (ap (λ o. ((q.memory (at (k / 63))).slots o).value) (offset_of-pos k) ∙ value)
              (ap (λ o. ((q.memory (at (k / 63))).slots o).state) (offset_of-pos k)
                ∙ state
                ∙ ap written_tag (sym (lap_of-pos k)))

      -- From the sentinel into the next block, or the end of the walk.
      crossed :
          k % 63 ≡ 62
          → drop_values q left (pos k + 1) (some (at (k / 63)))
            ≡ drop_values q (q.tail.index - pos (k + 1)) (pos (k + 1)) (some (at ((k + 1) / 63)))
      crossed last = elim (dec_lt (pos k + 1) q.tail.index) [
        | yes more ↦
            let l : suc (k / 63) ≡ (k + 1) / 63 = omega arith in
            let p : pos k + 1 + 1 ≡ pos (k + 1) = omega arith in
            ap (λ n. drop_values q n (pos k + 1) (some (at (k / 63)))) (omega arith)
            ∙ drop-sentinel q (q.tail.index - pos (k + 1)) (pos k + 1) (at (k / 63)) (omega arith)
            ∙ ap (drop_values q (q.tail.index - pos (k + 1)) (pos k + 1 + 1))
                (held.links (k / 63) (omega arith) (omega arith))
            ∙ λ i. drop_values q (q.tail.index - pos (k + 1)) (p i) (some (at (l i)))
        | no end ↦
            ap (λ n. drop_values q n (pos k + 1) (some (at (k / 63)))) (omega arith)
            ∙ drop-nothing q (pos k + 1) (some (at (k / 63)))
            ∙ sym (drop-nothing q (pos (k + 1)) (some (at ((k + 1) / 63))))
            ∙ ap (λ n. drop_values q n (pos (k + 1)) (some (at ((k + 1) / 63)))) (omega arith)
      ]

  walk :
      (k : ℕ) (ys : List A)
      → first ≤ k
      → k + length ys ≡ first + length xs
      → ((i : ℕ) (x : A)
          → get_elem? ys i ≡ some x
          → (((q.memory (at ((k + i) / 63))).slots ((k + i) % 63)).value ≡ some x)
            × (((q.memory (at ((k + i) / 63))).slots ((k + i) % 63)).state
                ≡ written_tag ((k + i) / 63)))
      → Walks k ys
  unfolding Walks
  walk k [] from end each =
      ap (λ n. drop_values q n (pos k) (some (at (k / 63)))) (ground (arith, held.tail_index))
      ∙ drop-nothing q (pos k) (some (at (k / 63)))
  walk k (y ∷ ys) from end each =
      let z : k + 0 ≡ k = omega arith in
      let here = rw z at (each 0 y refl) in
      walk-next k y ys from end here.0 here.1 (
        walk (k + 1) ys (omega arith) (omega arith) (λ i x e.
          let shift : k + suc i ≡ k + 1 + i = omega arith in rw shift at (each (suc i) x e)))

  -- The drop drops the values of the list in order.
  pub drop_values-Holds :
      drop_values q (q.tail.index - q.head.index) q.head.index (some q.head.block) ≡ some xs
  unfolding Walks
  drop_values-Holds =
      (λ i.
        drop_values q (q.tail.index - held.head_index i) (held.head_index i)
          (some (held.head_block i)))
      ∙ walk first xs (omega arith) refl held.values
