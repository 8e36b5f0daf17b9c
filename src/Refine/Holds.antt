-- ===== src/Refine/Holds.antt =====
-- When a queue of src/queue.rs holds a list of values, oldest first, and no thread is inside an
-- operation.
use rapidfire.Prelude.{
  ℕ, suc, ◌+◌, ◌-◌, ◌*◌, ◌/◌, ◌%◌, ◌≤◌, ◌<◌, ◌≡◌, ◌≢◌, Option, none, some, List, [], ◌∷◌, length,
  get_elem?, All, Distinct,
}
use rapidfire.Layout.{written_tag, usize_mod, unbounded}
use rapidfire.Shared.{Queue}
use rapidfire.Refine.Index.{pos, next_pos}

-- The recycled blocks: the spare one, then the ready ones.
abbrev pub free_blocks : Option ℕ → List ℕ → List ℕ
free_blocks none ready = ready
free_blocks (some a) ready = a ∷ ready

abbrev pub free_list : {A : Type 0} → Queue A → List ℕ
free_list q = free_blocks q.spare q.pool.ready

-- `first` values have been taken, and the block of each lap is `at` of its number. From `first` on
-- the list has a written slot for each of its values; the chain of blocks runs from the lap of the
-- head to that of the next push.
pub record Holds {A : Type 0} (q : Queue A) (first : ℕ) (at : ℕ → ℕ) (xs : List A) : Type 0 where
  pub in_range : pos (first + length xs) < usize_mod
  pub head_index : q.head.index ≡ pos first
  pub tail_index : next_pos q.tail.index ≡ pos (first + length xs)
  pub head_block : q.head.block ≡ at (first / 63)
  pub tail_block : q.tail.block ≡ at ((first + length xs) / 63)
  pub cached : (c : ℕ) × (q.tail.cached ≡ pos c) × (c ≤ first)
  pub starts :
      (l : ℕ) → first / 63 ≤ l → l ≤ (first + length xs) / 63 → (q.memory (at l)).start ≡ l * 64
  pub links :
      (l : ℕ)
      → first / 63 ≤ l
      → l < (first + length xs) / 63
      → (q.memory (at l)).next ≡ some (at (suc l))
  pub alive : (l : ℕ) → first / 63 ≤ l → l ≤ (first + length xs) / 63 → at l < q.allocated
  pub apart : (k l : ℕ) → first / 63 ≤ k → k < l → l ≤ (first + length xs) / 63 → at k ≢ at l
  pub values :
      (i : ℕ) (x : A)
      → get_elem? xs i ≡ some x
      → (((q.memory (at ((first + i) / 63))).slots ((first + i) % 63)).value ≡ some x)
        × (((q.memory (at ((first + i) / 63))).slots ((first + i) % 63)).state
            ≡ written_tag ((first + i) / 63))
  -- A tag in a slot is that of a value pushed before.
  pub tags :
      (a o l : ℕ)
      → a < q.allocated
      → o < 63
      → l * 64 < usize_mod
      → ((q.memory a).slots o).state ≡ written_tag l
      → l * 63 + o < first + length xs
  pub free :
      All
        (λ a.
          (a < q.allocated) × ((l : ℕ) → first / 63 ≤ l → l ≤ (first + length xs) / 63 → at l ≢ a))
        (free_list q)
  pub distinct : Distinct (free_list q)
  pub none_retired : q.pool.retired ≡ []
  -- The chain ends, and a block that was allocated is in the chain or free.
  pub ends : (q.memory (at ((first + length xs) / 63))).next ≡ none
  pub counted : length (free_list q) + 1 + ((first + length xs) / 63 - first / 63) ≡ q.allocated
  pub within : q.capacity ≢ unbounded → length xs ≤ q.capacity

-- The readers of the head's block that have come and gone have left their marks.
abbrev pub Marked : {A : Type 0} → Queue A → ℕ → Type 0
Marked q first = (o : ℕ) → o < first % 63 → (q.memory q.head.block).read_marks o ≢ 0

-- A queue contains a list; whether its readers leave marks is open.
abbrev pub Contains : {A : Type 0} → Queue A → List A → Type 0
Contains q xs = (first : ℕ) × (at : ℕ → ℕ) × Holds q first at xs

-- A queue holds a list, and its readers leave marks.
abbrev pub Represents : {A : Type 0} → Queue A → List A → Type 0
Represents q xs = (first : ℕ) × (at : ℕ → ℕ) × Holds q first at xs × Marked q first

pub Represents-Contains : {A : Type 0} {q : Queue A} {xs : List A} → Represents q xs → Contains q xs
Represents-Contains (first, at, held, marked) = (first, at, held)
