-- ===== src/Queue/Teardown.antt =====
-- `Drop` of `Queue` in src/queue.rs. The thread has exclusive access, so this is a function of the
-- queue. A result of `none` is undefined behaviour, or a loop that does not end.
use rapidfire.Prelude.{
  ℕ, zero, suc, ◌+◌, ◌-◌, Option, none, some, ◌==◌, if◌then◌else◌, List, [], ◌∷◌, ◌++◌,
}
use rapidfire.Layout.{block_cap, offset_of, lap_of, written_tag}
use rapidfire.Shared.{Queue}

-- A value in front of the others that are dropped.
abbrev pub prepend : {B : Type 0} → Option B → Option (List B) → Option (List B)
prepend none rest = none
prepend (some v) none = none
prepend (some v) (some vs) = some (v ∷ vs)

abbrev pub backwards : List ℕ → List ℕ
backwards [] = []
backwards (b ∷ l) = backwards l ++ b ∷ []

abbrev pub spare_block : Option ℕ → List ℕ
spare_block none = []
spare_block (some b) = b ∷ []

module _ {A : Type 0} where
  -- The values that are dropped, in order; the number of positions up to the tail decreases. A slot
  -- that says that it is written and has no value is undefined behaviour.
  unfoldable pub drop_values : Queue A → ℕ → ℕ → Option ℕ → Option (List A)
  drop_values q zero head block = some []
  drop_values q (suc left) head none = some []
  drop_values q (suc left) head (some b) =
      let slot = (q.memory b).slots (offset_of head) in
      let at_end = offset_of head == block_cap in
      let rest = drop_values q left (head + 1) (if at_end then (q.memory b).next else some b) in
      if at_end
      then rest
      else if slot.state == written_tag (lap_of head)
      then prepend slot.value rest
      else rest

  -- The blocks of a chain, in the order of their release. A chain has at most as many blocks as have
  -- been allocated.
  unfoldable pub free_chain : Queue A → ℕ → Option ℕ → Option (List ℕ)
  free_chain q fuel none = some []
  free_chain q zero (some b) = none
  free_chain q (suc fuel) (some b) = prepend (some b) (free_chain q fuel (q.memory b).next)

  -- The values dropped and the blocks released: the chain from the head on, the spare one, the pool.
  unfoldable pub drop_queue : Queue A → Option (List A × List ℕ)
  drop_queue q =
      elim (drop_values q (q.tail.index - q.head.index) q.head.index (some q.head.block)) [
        | none ↦ none
        | some values ↦ elim (free_chain q q.allocated (some q.head.block)) [
          | none ↦ none
          | some chain ↦
              some
                (values, chain ++ (spare_block q.spare ++ backwards q.pool.ready) ++ q.pool.retired)
        ]
      ]
