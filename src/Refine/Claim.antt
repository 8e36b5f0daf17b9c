-- ===== src/Refine/Claim.antt =====
-- What the claims of src/queue.rs do for a thread that is alone.
use rapidfire.Prelude.{
  ℕ, suc, ◌+◌, ◌-◌, ◌≤◌, ◌<◌, ◌≡◌, ◌≢◌, Option, none, some, ltb, leb, ◌==◌, if◌then◌else◌, List, [],
  length, arith, Bool-cases, inl, inr, ◌⊎◌,
}
use rapidfire.Layout.{usize_mod, unbounded, items_between}
use rapidfire.Sync.{World, Outcome, done}
use rapidfire.Shared.{Inner, set_queue}
use rapidfire.Queue.Claim.{
  claim_fetch_add, adapt, claim_cas, is_full, claim_bounded_loop, claim_bounded,
}
use rapidfire.Queue.Push.{claim}
use rapidfire.Refine.Holds.{Holds}
use rapidfire.Refine.Index.{pos, next_pos, items_between-pos}

abbrev pub quiet : {S : Type 0} → S → World S
quiet s = record { shared = s; schedule = [] }

abbrev pub counted_down : ℕ → ℕ
counted_down n = if ltb 0 n then n - 1 else n

-- The cached head of a producer after its capacity check.
abbrev pub recached : ℕ → ℕ → ℕ → ℕ → ℕ
recached limit cached head tail =
    if leb limit (items_between cached tail)
    then (if leb limit (items_between head tail) then cached else head)
    else cached

-- The same in numbers of values.
abbrev pub recounted : ℕ → ℕ → ℕ → ℕ → ℕ
recounted limit c first n =
    if leb limit (n - c) then (if leb limit (n - first) then c else first) else c

module _ {A W : Type 0} where
  -- A state whose tail differs in its index and its hints.
  abbrev pub with_tail : Inner A W → ℕ → ℕ → ℕ → Inner A W
  with_tail s i cached contended =
      set_queue
        (λ q. record q {
          tail = record { index = i; block = q.tail.block; cached = cached; contended = contended };
        })
        s

  fetch_add-claims :
      (fuel : ℕ) (s : Inner A W)
      → s.queue.tail.index + 2 < usize_mod
      → claim_fetch_add (suc (suc fuel)) (quiet s)
        ≡ done (next_pos s.queue.tail.index) (
            quiet (
              with_tail s
                (next_pos s.queue.tail.index + 1)
                s.queue.tail.cached
                s.queue.tail.contended))
  unfolding claim_fetch_add
  fetch_add-claims fuel s room = ground arith

  cas-claims :
      (fuel : ℕ) (s : Inner A W)
      → s.queue.tail.index + 2 < usize_mod
      → claim_cas (suc (suc fuel)) (quiet s)
        ≡ done (next_pos s.queue.tail.index) (
            quiet (
              with_tail s
                (next_pos s.queue.tail.index + 1)
                s.queue.tail.cached
                (counted_down s.queue.tail.contended)))
  unfolding claim_cas adapt
  cas-claims fuel s room = ground arith

  -- A cached head at or before the real one does not change the verdict.
  is_full_lem :
      (limit tail : ℕ) (s : Inner A W)
      → items_between s.queue.head.index tail ≤ items_between s.queue.tail.cached tail
      → is_full limit tail (quiet s)
        ≡ done (leb limit (items_between s.queue.head.index tail)) (
            quiet (
              with_tail s s.queue.tail.index
                (recached limit s.queue.tail.cached s.queue.head.index tail)
                s.queue.tail.contended))
  unfolding is_full
  is_full_lem limit tail s older = ground arith

  bounded-claims :
      (fuel limit : ℕ) (s : Inner A W)
      → s.queue.tail.index + 2 < usize_mod
      → items_between s.queue.head.index (next_pos s.queue.tail.index)
        ≤ items_between s.queue.tail.cached (next_pos s.queue.tail.index)
      → claim_bounded (suc (suc fuel)) limit (quiet s) ≡ (
          let tail = next_pos s.queue.tail.index in
          let full = leb limit (items_between s.queue.head.index tail) in
          done (if full then none else some tail) (
            quiet (
              with_tail s
                (if full then tail else tail + 1)
                (recached limit s.queue.tail.cached s.queue.head.index tail)
                s.queue.tail.contended)))
  unfolding claim_bounded claim_bounded_loop
  bounded-claims fuel limit s room older = ground (
    arith,
    is_full_lem limit (next_pos s.queue.tail.index)
        (with_tail s (next_pos s.queue.tail.index) s.queue.tail.cached s.queue.tail.contended),
    is_full_lem limit (next_pos s.queue.tail.index) s,
  )

  -- The claim of `push` on a queue that holds a list: the next position if there is room, and a
  -- tail past it; otherwise none, and a tail that is past a sentinel at most.
  pub record Claims (s : Inner A W) (first n : ℕ) (result : Outcome (Inner A W) (Option ℕ))
      : Type 0 where
    pub cached : ℕ
    pub contended : ℕ
    pub older : (c : ℕ) × (cached ≡ pos c) × (c ≤ first)
    pub claimed :
        ((s.queue.capacity ≡ unbounded) ⊎ (n < s.queue.capacity))
        → result
          ≡ done
              (some (pos (first + n)))
              (quiet (with_tail s (pos (first + n) + 1) cached contended))
    pub refused :
        s.queue.capacity ≢ unbounded
        → s.queue.capacity ≤ n
        → result ≡ done none (quiet (with_tail s (pos (first + n)) cached contended))

module _ {A W : Type 0} {s : Inner A W} {first : ℕ} {at : ℕ → ℕ} {xs : List A}
    (held : Holds s.queue first at xs) where
  open held use {head_index, tail_index}

  pub claim-Claims :
      (fuel : ℕ)
      → pos (first + length xs) + 2 < usize_mod
      → Claims s first (length xs) (claim (suc (suc fuel)) (quiet s))
  unfolding claim
  claim-Claims fuel room = elim (Bool-cases (s.queue.capacity == unbounded)) [
    | inl free ↦ elim (Bool-cases (s.queue.tail.contended == 0)) [
      | inl calm ↦ record {
        cached = s.queue.tail.cached;
        contended = s.queue.tail.contended;
        older = held.cached;
        claimed = λ _. ground (arith, fetch_add-claims fuel s);
        refused = λ h k. ground arith;
      }
      | inr busy ↦ record {
        cached = s.queue.tail.cached;
        contended = counted_down s.queue.tail.contended;
        older = held.cached;
        claimed = λ _. ground (arith, cas-claims fuel s);
        refused = λ h k. ground arith;
      }
    ]
    | inr bounded ↦ record {
      cached =
          recached s.queue.capacity s.queue.tail.cached s.queue.head.index
            (next_pos s.queue.tail.index);
      contended = s.queue.tail.contended;
      older = (
        recounted s.queue.capacity held.cached.0 first (first + length xs),
        ground (
          arith,
          held,
          items_between-pos held.cached.0 (first + length xs),
          items_between-pos first (first + length xs),
        ),
        ground (arith, held.cached),
      );
      claimed = λ h. ground (
        arith,
        bounded-claims fuel s.queue.capacity s,
        items_between-pos held.cached.0 (first + length xs),
        items_between-pos first (first + length xs),
      );
      refused = λ h k. ground (
        arith,
        bounded-claims fuel s.queue.capacity s,
        items_between-pos held.cached.0 (first + length xs),
        items_between-pos first (first + length xs),
      );
    }
  ]
