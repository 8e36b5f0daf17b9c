-- ===== src/Release/Blocks.antt =====
-- The drop of the queue in src/queue.rs releases every block once.
use rapidfire.Prelude.{
  ℕ, zero, suc, ◌+◌, ◌-◌, ◌/◌, ◌≤◌, ◌<◌, ◌≡◌, ◌≢◌, refl, Option, none, some, List, [], ◌∷◌, ◌++◌,
  length, length-append, append_assoc, All, All-map, Distinct, ◌==◌, if◌then◌else◌, arith, sym, ap,
  ◌∙◌,
}
use rapidfire.Layout.{offset_of, block_cap}
use rapidfire.Shared.{Queue}
use rapidfire.Queue.Teardown.{drop_queue, drop_values, free_chain, spare_block, backwards}
use rapidfire.Refine.Holds.{Holds, Contains, free_blocks, free_list}
use rapidfire.Release.Values.{drop_values-Holds}

All-append : (P : ℕ → Type 0) (xs ys : List ℕ) → All P xs → All P ys → All P (xs ++ ys)
All-append P [] ys h k = k
All-append P (x ∷ xs) ys h k = (h.0, All-append P xs ys h.1 k)

All-backwards : (P : ℕ → Type 0) (xs : List ℕ) → All P xs → All P (backwards xs)
All-backwards P [] h = tt
All-backwards P (x ∷ xs) h = All-append P (backwards xs) (x ∷ []) (All-backwards P xs h.1) (h.0, tt)

Distinct-append :
    (xs ys : List ℕ)
    → Distinct xs
    → Distinct ys
    → All (λ x. All (λ y. x ≢ y) ys) xs
    → Distinct (xs ++ ys)
Distinct-append [] ys h k d = k
Distinct-append (x ∷ xs) ys h k d = (All-append _ xs ys h.0 d.0, Distinct-append xs ys h.1 k d.1)

Distinct-backwards : (xs : List ℕ) → Distinct xs → Distinct (backwards xs)
Distinct-backwards [] h = tt
Distinct-backwards (x ∷ xs) h =
    Distinct-append (backwards xs) (x ∷ []) (Distinct-backwards xs h.1) (tt, tt)
      (All-map (λ y ne. ((λ e. ne (sym e)), tt)) (backwards xs) (All-backwards _ xs h.0))

length-backwards : (xs : List ℕ) → length (backwards xs) ≡ length xs
length-backwards [] = refl
length-backwards (x ∷ xs) =
    omega (arith, length-backwards xs, length-append (backwards xs) (x ∷ []))

All-split : (P : ℕ → Type 0) (xs ys : List ℕ) → All P (xs ++ ys) → All P xs × All P ys
All-split P [] ys h = (tt, h)
All-split P (x ∷ xs) ys h = let (a, b) = All-split P xs ys h.1 in ((h.0, a), b)

Distinct-split :
    (xs ys : List ℕ)
    → Distinct (xs ++ ys)
    → Distinct xs × Distinct ys × All (λ x. All (λ y. x ≢ y) ys) xs
Distinct-split [] ys h = (tt, h, tt)
Distinct-split (x ∷ xs) ys h =
    let (a, b, c) = Distinct-split xs ys h.1 in
    let (d, e) = All-split (λ y. x ≢ y) xs ys h.0 in ((d, a), b, (e, c))

-- The blocks outside the chain, in the order of their release: the spare one, the ready ones, and the
-- retired ones.
abbrev pooled_blocks : Option ℕ → List ℕ → List ℕ → List ℕ
pooled_blocks spare ready retired = (spare_block spare ++ backwards ready) ++ retired

All-pool :
    (P : ℕ → Type 0) (ready retired : List ℕ)
    → All P (ready ++ retired)
    → All P (backwards ready ++ retired)
All-pool P ready retired h =
    let (a, b) = All-split P ready retired h in
    All-append P (backwards ready) retired (All-backwards P ready a) b

Distinct-pool :
    (ready retired : List ℕ) → Distinct (ready ++ retired) → Distinct (backwards ready ++ retired)
Distinct-pool ready retired h =
    let (a, b, c) = Distinct-split ready retired h in
    Distinct-append (backwards ready) retired (Distinct-backwards ready a) b
      (All-backwards _ ready c)

length-pool :
    (ready retired : List ℕ) → length (backwards ready ++ retired) ≡ length (ready ++ retired)
length-pool ready retired = omega (
  arith,
  length-backwards ready,
  length-append (backwards ready) retired,
  length-append ready retired,
)

All-pooled :
    (P : ℕ → Type 0) (spare : Option ℕ) (ready retired : List ℕ)
    → All P (free_blocks spare (ready ++ retired))
    → All P (pooled_blocks spare ready retired)
All-pooled P none ready retired h = All-pool P ready retired h
All-pooled P (some s) ready retired h = (h.0, All-pool P ready retired h.1)

Distinct-pooled :
    (spare : Option ℕ) (ready retired : List ℕ)
    → Distinct (free_blocks spare (ready ++ retired))
    → Distinct (pooled_blocks spare ready retired)
Distinct-pooled none ready retired h = Distinct-pool ready retired h
Distinct-pooled (some s) ready retired h =
    (All-pool _ ready retired h.0, Distinct-pool ready retired h.1)

length-pooled :
    (spare : Option ℕ) (ready retired : List ℕ)
    → length (pooled_blocks spare ready retired) ≡ length (free_blocks spare (ready ++ retired))
length-pooled none ready retired = length-pool ready retired
length-pooled (some s) ready retired = ap suc (length-pool ready retired)

-- The blocks of some laps, from one on.
chain : (ℕ → ℕ) → ℕ → ℕ → List ℕ
chain at l zero = []
chain at l (suc n) = at l ∷ chain at (suc l) n

All-chain :
    (P : ℕ → Type 0) (at : ℕ → ℕ) (l n : ℕ)
    → ((k : ℕ) → l ≤ k → k < l + n → P (at k))
    → All P (chain at l n)
unfolding chain
All-chain P at l zero h = tt
All-chain P at l (suc n) h = (
  h l (omega arith) (omega arith),
  All-chain P at (suc l) n (λ k p r. h k (omega arith) (omega arith)),
)

Distinct-chain :
    (at : ℕ → ℕ) (l n : ℕ)
    → ((j k : ℕ) → l ≤ j → j < k → k < l + n → at j ≢ at k)
    → Distinct (chain at l n)
unfolding chain
Distinct-chain at l zero h = tt
Distinct-chain at l (suc n) h = (
  All-chain _ at (suc l) n (λ k p r. h l k (omega arith) p (omega arith)),
  Distinct-chain at (suc l) n (λ j k p r t. h j k (omega arith) r (omega arith)),
)

length-chain : (at : ℕ → ℕ) (l n : ℕ) → length (chain at l n) ≡ n
unfolding chain
length-chain at l zero = refl
length-chain at l (suc n) = ap suc (length-chain at (suc l) n)

-- The queue as it is once the readers of its retired blocks are done: these blocks are then as good
-- as the ready ones.
abbrev pub settled : {A : Type 0} → Queue A → Queue A
settled q = record q { pool = record { ready = q.pool.ready ++ q.pool.retired; retired = [] } }

-- The walk over the values does not look at the pool.
drop_values-settled :
    {A : Type 0} (q : Queue A) (left head : ℕ) (b : Option ℕ)
    → drop_values q left head b ≡ drop_values (settled q) left head b
unfolding drop_values
drop_values-settled q zero head b = refl
drop_values-settled q (suc left) head none = refl
drop_values-settled q (suc left) head (some b) =
    rw
      (drop_values-settled q left (head + 1)
        (if offset_of head == block_cap then (q.memory b).next else some b))
      refl

module _ {A : Type 0} (q : Queue A) (first : ℕ) (at : ℕ → ℕ) (xs : List A)
    (held : Holds (settled q) first at xs) where
  abbrev tail_lap : ℕ
  tail_lap = (first + length xs) / 63

  free_chain-Holds :
      (n l fuel : ℕ)
      → first / 63 ≤ l
      → l + n ≡ tail_lap
      → n < fuel
      → free_chain q fuel (some (at l)) ≡ some (chain at l (suc n))
  unfolding free_chain chain
  free_chain-Holds n l zero from end enough = absurd (omega arith)
  free_chain-Holds zero l (suc fuel) from end enough =
      let e : l ≡ tail_lap = omega arith in rw (ap (λ k. (q.memory (at k)).next) e ∙ held.ends) refl
  free_chain-Holds (suc n) l (suc fuel) from end enough =
      rw
        (
          held.links l from (omega arith),
          free_chain-Holds n (suc l) fuel (omega arith) (omega arith) (omega arith),
        )
        refl

  blocks : List ℕ
  blocks =
      chain at (first / 63) (suc (tail_lap - first / 63))
      ++ pooled_blocks q.spare q.pool.ready q.pool.retired

  drop_queue-Holds : drop_queue q ≡ some (xs, blocks)
  unfolding drop_queue blocks
  drop_queue-Holds =
      let chained =
        ap (λ b. free_chain q q.allocated (some b)) held.head_block
        ∙ free_chain-Holds (tail_lap - first / 63) (first / 63) q.allocated (omega arith)
            (omega arith) (omega (arith, held.counted)) in
      rw
        (
          drop_values-settled q (q.tail.index - q.head.index) q.head.index (some q.head.block)
              ∙ drop_values-Holds (settled q) first at xs held,
          chained,
          drop_queue,
        )
        (ap (λ (l : List ℕ). some (xs, l))
          (append_assoc (chain at (first / 63) (suc (tail_lap - first / 63)))
            (spare_block q.spare ++ backwards q.pool.ready) q.pool.retired))

  blocks-Distinct : Distinct blocks
  unfolding blocks
  blocks-Distinct =
      Distinct-append (chain at (first / 63) (suc (tail_lap - first / 63)))
        (pooled_blocks q.spare q.pool.ready q.pool.retired)
        (Distinct-chain at (first / 63) (suc (tail_lap - first / 63))
          (λ j k p r t. held.apart j k p r (omega arith)))
        (Distinct-pooled q.spare q.pool.ready q.pool.retired held.distinct)
        (All-chain _ at (first / 63) (suc (tail_lap - first / 63)) (λ k p r.
          All-pooled _ q.spare q.pool.ready q.pool.retired
            (All-map (λ b f. f.1 k p (omega arith)) (free_list (settled q)) held.free)))

  blocks-allocated : All (λ b. b < q.allocated) blocks
  unfolding blocks
  blocks-allocated =
      All-append _ (chain at (first / 63) (suc (tail_lap - first / 63)))
        (pooled_blocks q.spare q.pool.ready q.pool.retired)
        (All-chain _ at (first / 63) (suc (tail_lap - first / 63))
          (λ k p r. held.alive k p (omega arith)))
        (All-pooled _ q.spare q.pool.ready q.pool.retired
          (All-map (λ b f. f.0) (free_list (settled q)) held.free))

  length-blocks : length blocks ≡ q.allocated
  unfolding blocks
  length-blocks = omega (
    arith,
    length-append (chain at (first / 63) (suc (tail_lap - first / 63)))
        (pooled_blocks q.spare q.pool.ready q.pool.retired),
    length-chain at (first / 63) (suc (tail_lap - first / 63)),
    length-pooled q.spare q.pool.ready q.pool.retired,
    held.counted,
  )

-- Let a queue hold a list once the readers of its retired blocks are done; it may have any number of
-- such blocks. Then its drop returns; it drops the values of the list, in order, and releases as many
-- blocks as have been allocated, all of them allocated and no two the same: no block leaks, the
-- retired ones included, and none is freed twice.
pub drop_queue_frees :
    {A : Type 0} (q : Queue A) {xs : List A}
    → Contains (settled q) xs
    → (blocks : List ℕ) × (drop_queue q ≡ some (xs, blocks))
      × Distinct blocks
      × All (λ b. b < q.allocated) blocks
      × (length blocks ≡ q.allocated)
drop_queue_frees q {xs} (first, at, held) = (
  blocks q first at xs held,
  drop_queue-Holds q first at xs held,
  blocks-Distinct q first at xs held,
  blocks-allocated q first at xs held,
  length-blocks q first at xs held,
)
