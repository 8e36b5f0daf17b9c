-- ===== src/Exclusive/Batches.antt =====
-- `pop_single_batch` of src/queue.rs, for a thread that is alone, takes a prefix of what the queue
-- contains.
use rapidfire.Prelude.{
  ℕ, zero, suc, ◌+◌, ◌-◌, ◌/◌, ◌%◌, ◌≤◌, ◌<◌, ◌≡◌, ◌≢◌, refl, List, [], ◌∷◌, ◌++◌, length, take,
  drop, min, length-take, take-append-drop, arith, ap, ◌∙◌, dec_lt, ℕ_discrete, append-nil,
}
use rapidfire.Layout.{written_tag, add_usize, offset_of, lap_of}
use rapidfire.Sync.{done}
use rapidfire.Shared.{Queue, Inner, set_queue, set_head_index}
use rapidfire.Queue.Single.{pop_single_batch}
use rapidfire.Refine.Holds.{Holds, Contains}
use rapidfire.Refine.Head.{head-offset, head-lap, head-low, head-state, head_unwritten}
use rapidfire.Refine.Claim.{quiet}
use rapidfire.Refine.Finish.{returned, moved}
use rapidfire.Exclusive.Single.{park, wake_count}
use rapidfire.Exclusive.Ready.{IsReady, with_slots, after_batch, batch-Holds}
use rapidfire.Exclusive.Batch.{Holds-IsReady, after_block, block-Holds}
use rapidfire.Exclusive.Taking.{
  pop_single_batch-zero, pop_single_batch-empty, pop_single_batch-plain, pop_single_batch-block,
}

length-prefix : {A : Type 0} (k : ℕ) (xs : List A) → k ≤ length xs → length (take k xs) ≡ k
length-prefix k xs le = omega (arith, length-take k xs)

drop_all : {A : Type 0} (k : ℕ) (xs : List A) → length xs ≤ k → drop k xs ≡ []
drop_all zero [] le = refl
drop_all zero (x ∷ xs) le = absurd (omega (arith, le))
drop_all (suc k) [] le = refl
drop_all (suc k) (x ∷ xs) le = drop_all k xs (omega (arith, le))

next-drop :
    {A : Type 0} (j : ℕ) (xs : List A) → j < length xs → (y : A) × (drop j xs ≡ y ∷ drop (suc j) xs)
next-drop zero [] lt = absurd (omega (arith, lt))
next-drop zero (x ∷ xs) lt = (x, refl)
next-drop (suc j) [] lt = absurd (omega (arith, lt))
next-drop (suc j) (x ∷ xs) lt = next-drop j xs (omega (arith, lt))

module _ {A : Type 0} (k : ℕ) (xs : List A) (q : Queue A) (first : ℕ) (at : ℕ → ℕ)
    (held : Holds q first at xs) (le : k ≤ length xs) where
  split_held : Holds q first at (take k xs ++ drop k xs)
  split_held = rw (take-append-drop k xs) held

  prefix-Holds : first % 63 + k < 63 → Holds (after_batch q at first k) (first + k) at (drop k xs)
  prefix-Holds low =
      let e = length-prefix k xs le in
      coe 0 1 (i. Holds (after_batch q at first (e i)) (first + e i) at (drop k xs))
        (batch-Holds (take k xs) (drop k xs) q first at split_held (omega (arith, e)))

  prefix-IsReady :
      (n : ℕ)
      → first % 63 + n ≤ 63
      → k ≤ n
      → (k < n → k ≡ length xs)
      → IsReady q.memory (at (first / 63)) (first % 63) n (written_tag (first / 63)) (take k xs)
  prefix-IsReady n fits most all =
      let e = length-prefix k xs le in
      Holds-IsReady (take k xs) (drop k xs) q first at n split_held fits (omega (arith, e))
        (λ lt. drop_all k xs (omega (arith, e, all)))

-- A prefix that ends with the last slot of its block.
full-Holds :
    {A : Type 0} (j : ℕ) (xs : List A) (q : Queue A) (first : ℕ) (at : ℕ → ℕ)
    → Holds q first at xs
    → j < length xs
    → first % 63 + j ≡ 62
    → Holds (after_block q at first (suc j)) (first + suc j) at (drop (suc j) xs)
full-Holds j xs q first at held lt last =
    let e = length-prefix j xs (omega arith) in
    let (y, rest) = next-drop j xs lt in
    let split : Holds q first at (take j xs ++ y ∷ drop (suc j) xs) =
      rw (← rest, take-append-drop j xs) held in
    coe 0 1 (i. Holds (after_block q at first (suc (e i))) (first + suc (e i)) at (drop (suc j) xs))
      (block-Holds (take j xs) y (drop (suc j) xs) q first at split (omega (arith, e)))

module _ {A W : Type 0} (s : Inner A W) (buffer : List A) (limit : ℕ) (flag : Inner A W → ℕ)
    (blind : (f : Queue A → Queue A) (t : Inner A W) → flag (set_queue f t) ≡ flag t) where
  abbrev pub BatchAnswer : List A → ℕ → Type 0
  BatchAnswer xs k =
      (q' : Queue A) × (pop_single_batch buffer limit flag (quiet s)
        ≡ done (buffer ++ take k xs, k, min (wake_count s flag) k) (quiet (set_queue (λ _. q') s)))
      × Contains q' (drop k xs)
      × (q'.capacity ≡ s.queue.capacity)
      × (q'.tail.index ≡ s.queue.tail.index)

  batch-zero :
      (xs : List A)
      → Contains s.queue xs
      → pop_single_batch buffer limit flag (quiet s) ≡ done (buffer, 0, 0) (quiet s)
      → BatchAnswer xs 0
  batch-zero xs holds e = (
    s.queue,
    rw (e, append-nil buffer) (ap (λ n. done (buffer, 0, n) (quiet s)) (omega arith)),
    holds,
    refl,
    refl,
  )

  module _ (first : ℕ) (at : ℕ → ℕ) (x : A) (rest : List A)
      (held : Holds s.queue first at (x ∷ rest)) (room : limit ≢ 0) where
    abbrev pub count : ℕ
    count = min (min limit (63 - first % 63)) (length (x ∷ rest))

    head-IsReady :
        IsReady s.queue.memory s.queue.head.block
          (offset_of s.queue.head.index)
          (min limit (63 - offset_of s.queue.head.index))
          (written_tag (lap_of s.queue.head.index))
          (take count (x ∷ rest))
    head-IsReady =
        coe 1 0
          (i.
            IsReady s.queue.memory (held.head_block i) (head-offset held i)
              (min limit (63 - head-offset held i)) (written_tag (head-lap held i))
              (take count (x ∷ rest)))
          (prefix-IsReady count (x ∷ rest) s.queue first at held (omega arith)
            (min limit (63 - first % 63)) (omega arith) (omega arith) (λ lt. omega (arith, lt)))

    count-le : count ≤ length (x ∷ rest)
    count-le = omega arith

    fits : first % 63 + count ≤ 63
    fits = omega arith

    taken : length (take count (x ∷ rest)) ≡ count
    taken = length-prefix count (x ∷ rest) count-le

    batch_prefix : first % 63 + count < 63 → BatchAnswer (x ∷ rest) count
    batch_prefix low = (
      _,
      pop_single_batch-plain flag s buffer limit blind (take count (x ∷ rest)) room (head-low held)
            (head-state held) head-IsReady (omega (arith, head-offset held, taken))
          ∙ (λ i.
              done (buffer ++ take count (x ∷ rest), taken i, min (wake_count s flag) (taken i))
                (quiet (
                  set_head_index (add_usize s.queue.head.index (taken i))
                    (with_slots s (held.head_block i) (head-offset held i) (taken i))))),
      (first + count, at, prefix-Holds count (x ∷ rest) s.queue first at held count-le low),
      refl,
      refl,
    )

    batch_block : first % 63 + count ≡ 63 → BatchAnswer (x ∷ rest) count
    batch_block full = (
      _,
      pop_single_batch-block flag s buffer limit blind (take count (x ∷ rest)) room (head-low held)
            (head-state held) head-IsReady (at (suc (first / 63)))
            (omega (arith, head-offset held, taken))
            (ap (λ b. (s.queue.memory b).next) held.head_block
              ∙ held.links (first / 63) (omega arith) (omega (arith, full, count-le)))
          ∙ (λ i.
              done (buffer ++ take count (x ∷ rest), taken i, min (wake_count s flag) (taken i))
                (quiet (
                  set_queue (λ q. record q { memory = park q.memory (held.head_block i) })
                    (returned
                      (moved (with_slots s (held.head_block i) (head-offset held i) (taken i))
                        (add_usize s.queue.head.index (taken i + 1)) (at (suc (first / 63))))
                      (held.head_block i))))),
      (first + count, at, full-count count refl),
      refl,
      refl,
    )
      where
        full-count :
            (k : ℕ)
            → k ≡ count
            → Holds (after_block s.queue at first k) (first + k) at (drop k (x ∷ rest))
        full-count zero e = absurd (omega (arith, full, e))
        full-count (suc j) e =
            full-Holds j (x ∷ rest) s.queue first at held (omega (arith, e, count-le))
              (omega (arith, e, full))

    pub batch_any : BatchAnswer (x ∷ rest) count
    batch_any = elim (dec_lt (first % 63 + count) 63) [
      | yes low ↦ batch_prefix low
      | no high ↦ batch_block (omega (arith, fits))
    ]

  pub batches :
      (xs : List A)
      → Contains s.queue xs
      → (k : ℕ) × (k ≤ limit) × (k ≤ length xs) × (limit ≢ 0 → xs ≢ [] → k ≢ 0) × BatchAnswer xs k
  batches [] (first, at, held) = (
    0,
    omega arith,
    omega arith,
    λ room some_value. absurd (some_value refl),
    batch-zero [] (first, at, held)
        (pop_single_batch-empty flag s buffer limit blind (head_unwritten held) (head-low held)),
  )
  batches (x ∷ rest) (first, at, held) = elim (ℕ_discrete limit 0) [
    | yes none_asked ↦ (
      0,
      omega arith,
      omega arith,
      λ room. absurd (room none_asked),
      batch-zero (x ∷ rest) (first, at, held)
          (pop_single_batch-zero flag s buffer limit blind none_asked),
    )
    | no room ↦ (
      count first at x rest held room,
      omega arith,
      omega arith,
      λ more some_value. omega (arith, room),
      batch_any first at x rest held room,
    )
  ]

-- `pop_single_batch`, for a thread that is alone, on a queue that contains `xs`, with a buffer and a
-- limit: it appends a prefix of `xs` to the buffer and returns the length of the prefix and how many
-- senders to wake; then the queue contains the rest of `xs`. The prefix is no longer than the limit,
-- and it is not empty unless the limit is 0 or `xs` is empty. At most as many senders are woken as
-- values were taken, and as the wake flag of a bounded queue says. The capacity and the tail index
-- stay, and nothing but the queue changes.
pub pop_single_batch_refines :
    {A W : Type 0} (s : Inner A W) {xs : List A} (buffer : List A) (limit : ℕ)
    (flag : Inner A W → ℕ)
    → Contains s.queue xs
    → ((f : Queue A → Queue A) (t : Inner A W) → flag (set_queue f t) ≡ flag t)
    → (k : ℕ) × (k ≤ limit)
      × (k ≤ length xs)
      × (limit ≢ 0 → xs ≢ [] → k ≢ 0)
      × ((q' : Queue A) × (pop_single_batch buffer limit flag (quiet s)
            ≡ done
                (buffer ++ take k xs, k, min (wake_count s flag) k)
                (quiet (set_queue (λ _. q') s)))
          × Contains q' (drop k xs)
          × (q'.capacity ≡ s.queue.capacity)
          × (q'.tail.index ≡ s.queue.tail.index))
pop_single_batch_refines s {xs} buffer limit flag holds blind =
    batches s buffer limit flag blind xs holds
