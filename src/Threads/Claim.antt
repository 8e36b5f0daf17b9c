-- ===== src/Threads/Claim.antt =====
-- The claims of src/queue.rs as programs of threads. `limit` is the queue's capacity, which does not
-- change.
use rapidfire.Prelude.{
  ℕ, zero, suc, ◌-◌, Option, none, some, Bool, true, false, ltb, leb, ◌==◌, if◌then◌else◌,
}
use rapidfire.Layout.{add_usize, offset_of, block_cap, contention_window, items_between, unbounded}
use rapidfire.Sync.{Exchange, won, lost}
use rapidfire.Shared.{Inner, set_tail_index, set_tail_cached, set_tail_contended}
use rapidfire.Threads.Program.{
  Program, ◌>>=◌, ◌>>◌, return, starve, load, store, fetch, compare_exchange_weak,
}

module _ {A W : Type 0} where
  unfoldable pub claim_fetch_add : ℕ → Program (Inner A W) ℕ
  claim_fetch_add zero = starve
  claim_fetch_add (suc fuel) =
      let again = claim_fetch_add fuel in
      do
        expected ← load (λ s. s.queue.tail.index)
        tail ←
            fetch (λ s. s.queue.tail.index) (λ s. set_tail_index (add_usize s.queue.tail.index 1) s)
        if tail == expected then return tt else store (set_tail_contended contention_window)
        if offset_of tail == block_cap then again else return tail

  abbrev pub advance_tail : ℕ → Program (Inner A W) Exchange
  advance_tail tail =
      compare_exchange_weak (λ s. s.queue.tail.index) set_tail_index tail (add_usize tail 1)

  unfoldable pub adapt : Bool → Program (Inner A W) (Unit {0})
  adapt failed = do
    level ← load (λ s. s.queue.tail.contended)
    if failed
        then store (set_tail_contended contention_window)
        else (if ltb 0 level then store (set_tail_contended (level - 1)) else return tt)

  unfoldable pub claim_cas_loop : ℕ → ℕ → Bool → Program (Inner A W) ℕ
  claim_cas_loop zero tail failed = starve
  claim_cas_loop (suc fuel) tail failed =
      let skip = claim_cas_loop fuel (add_usize tail 1) failed in
      let retry = λ (actual : ℕ). claim_cas_loop fuel actual true in
      do
        r ← advance_tail tail
        elim r [
          | won ↦ if offset_of tail == block_cap then skip else (do adapt failed; return tail)
          | lost actual ↦ retry actual
        ]

  unfoldable pub claim_cas : ℕ → Program (Inner A W) ℕ
  unfolding claim_cas_loop
  claim_cas fuel = do tail ← load (λ s. s.queue.tail.index); claim_cas_loop fuel tail false

  unfoldable pub is_full : ℕ → ℕ → Program (Inner A W) Bool
  is_full limit tail = do
    cached ← load (λ s. s.queue.tail.cached)
    if leb limit (items_between cached tail)
        then (do
          head ← load (λ s. s.queue.head.index)
          if leb limit (items_between head tail)
              then return true
              else (do store (set_tail_cached head); return false))
        else return false

  unfoldable pub claim_bounded_loop : ℕ → ℕ → ℕ → Program (Inner A W) (Option ℕ)
  claim_bounded_loop zero limit tail = starve
  claim_bounded_loop (suc fuel) limit tail =
      let retry = λ (actual : ℕ). claim_bounded_loop fuel limit actual in
      if offset_of tail == block_cap
      then (do
        r ← advance_tail tail
        elim r [ won ↦ retry (add_usize tail 1) | lost actual ↦ retry actual ])
      else (do
        full ← is_full limit tail
        if full then return none else (do
          r ← advance_tail tail
          elim r [ won ↦ return (some tail) | lost actual ↦ retry actual ]))

  unfoldable pub claim_bounded : ℕ → ℕ → Program (Inner A W) (Option ℕ)
  claim_bounded fuel limit = do
    tail ← load (λ s. s.queue.tail.index)
    claim_bounded_loop fuel limit tail

  unfoldable pub claim : ℕ → ℕ → Program (Inner A W) (Option ℕ)
  claim fuel limit =
      if limit == unbounded
      then (do
        contended ← load (λ s. s.queue.tail.contended)
        tail ← if contended == 0 then claim_fetch_add fuel else claim_cas fuel
        return (some tail))
      else claim_bounded fuel limit
