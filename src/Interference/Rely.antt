-- ===== src/Interference/Rely.antt =====
-- What the other threads may do between two accesses of a producer on a bounded queue of
-- src/queue.rs: consumers only advance the head, and producers only store heads that they have read
-- in the cached head.
use rapidfire.Prelude.{
  ℕ, ◌≤◌, ◌<◌, ◌≡◌, ◌⊎◌, inl, inr, refl, length, List, [], ◌∷◌, All, true, arith,
}
use rapidfire.Sync.{Event, act, spurious, World, settle, disturb, is_spurious}
use rapidfire.Shared.{Inner}

module _ {A W : Type 0} where
  abbrev pub head_of : Inner A W → ℕ
  head_of s = s.queue.head.index

  abbrev pub cached_of : Inner A W → ℕ
  cached_of s = s.queue.tail.cached

  abbrev pub Allowed : Event (Inner A W) → Type 0
  Allowed (act f) =
      (s : Inner A W)
      → (head_of s ≤ head_of (f s)) × (cached_of s ≤ head_of s → cached_of (f s) ≤ head_of (f s))
  Allowed spurious = Unit

  -- The cached head is not ahead of the head, and all that is still to happen is allowed.
  abbrev pub Fair : World (Inner A W) → Type 0
  Fair w = (cached_of w.shared ≤ head_of w.shared) × All Allowed w.schedule

  settle-Fair :
      (s : Inner A W) (es : List (Event (Inner A W)))
      → cached_of s ≤ head_of s
      → All Allowed es
      → Fair (settle s es) × (head_of s ≤ head_of (settle s es).shared)
  settle-Fair s [] c h = ((c, tt), omega arith)
  settle-Fair s (act f ∷ es) c h = (((h.0 s).1 c, h.1), (h.0 s).0)
  settle-Fair s (spurious ∷ es) c h = ((c, h.1), omega arith)

  -- An access finds the head where it was before or further on.
  pub disturb-Fair :
      (w : World (Inner A W))
      → Fair w
      → Fair (disturb w) × (head_of w.shared ≤ head_of (disturb w).shared)
  disturb-Fair w h = settle-Fair w.shared w.schedule h.0 h.1

  abbrev pub tail_of : Inner A W → ℕ
  tail_of s = s.queue.tail.index

  -- From one world to a later one: an event has happened, or the tail is where it was.
  abbrev pub Later : World (Inner A W) → World (Inner A W) → Type 0
  Later w w' =
      (length w'.schedule < length w.schedule)
      ⊎ (length w'.schedule ≡ length w.schedule) × (tail_of w'.shared ≡ tail_of w.shared)

  settle-Later :
      (s : Inner A W) (es : List (Event (Inner A W)))
      → Later (record { shared = s; schedule = es }) (settle s es)
  settle-Later s [] = inr (refl, refl)
  settle-Later s (act f ∷ es) = inl (omega arith)
  settle-Later s (spurious ∷ es) = inl (omega arith)

  pub disturb-Later : (w : World (Inner A W)) → Later w (disturb w)
  disturb-Later w = settle-Later w.shared w.schedule

  pub Later-trans : (u v w : World (Inner A W)) → Later u v → Later v w → Later u w
  Later-trans u v w h k = ground arith

  pub spurious-shorter :
      (s : Inner A W) (es : List (Event (Inner A W)))
      → is_spurious es ≡ true
      → length (settle s es).schedule < length es
  spurious-shorter s [] e = absurd (ground arith)
  spurious-shorter s (act f ∷ es) e = omega arith
  spurious-shorter s (spurious ∷ es) e = omega arith
