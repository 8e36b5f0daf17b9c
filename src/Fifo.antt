-- ===== src/Fifo.antt =====
-- The specification of the queue: a list, oldest first, with an optional bound on its length.
use rapidfire.Prelude.{
  ℕ, Option, none, some, Bool, true, false, ◌==◌, leb, if◌then◌else◌, List, [], ◌∷◌, ◌++◌, length,
}
use rapidfire.Layout.{unbounded}

module _ {A : Type 0} where
  abbrev pub is_full : ℕ → List A → Bool
  is_full capacity xs = if capacity == unbounded then false else leb capacity (length xs)

  -- Whether the value was taken in, and the list then.
  abbrev pub push : ℕ → List A → A → Bool × List A
  push capacity xs v = if is_full capacity xs then (false, xs) else (true, xs ++ v ∷ [])

  abbrev pub pop : List A → Option A × List A
  pop [] = (none, [])
  pop (x ∷ xs) = (some x, xs)
