-- ===== src/Threads/Admitting.antt =====
-- How `claim_bounded` of src/queue.rs moves the tail: over a sentinel, or where it has seen a head
-- that leaves room.
use rapidfire.Prelude.{
  ℕ, zero, suc, ◌≤◌, ◌<◌, ◌≡◌, ◌≢◌, refl, ap, Option, none, some, Bool, true, false, leb, ◌==◌,
  if◌then◌else◌, ◌⊎◌, inl, inr, arith,
}
use rapidfire.Layout.{add_usize, offset_of, block_cap, unbounded, items_between}
use rapidfire.Sync.{won, lost}
use rapidfire.Shared.{Inner, set_tail_index}
use rapidfire.Interference.Capacity.{items_between-antitone}
use rapidfire.Threads.Program.{Program, finished, access, hungry, faulty, ◌>>=◌, return}
use rapidfire.Threads.Claim.{advance_tail, is_full, claim_bounded_loop, claim_bounded, claim}
use rapidfire.Threads.Phases.{Settled}
use rapidfire.Threads.Seeking.{tail_index}
use rapidfire.Threads.Roles.{head_index, Idle}

-- A result that says nothing.
abbrev pub Anything : {R : Type 0} → ℕ → R → Type 0
Anything lo r = Unit {0}

-- What the verdict of the capacity check rests on.
abbrev Checked : ℕ → ℕ → ℕ → Bool → Type 0
Checked limit tail lo true = Unit
Checked limit tail lo false = (c : ℕ) × (c ≤ lo) × (items_between c tail < limit)

module _ {A W : Type 0} where
  abbrev pub cached_head : Inner A W → ℕ
  cached_head s = s.queue.tail.cached

  -- One access of a producer: the cached head stays behind the head, which does not move, and the
  -- tail moves by one only over a sentinel or where there is room.
  abbrev pub Grows : ℕ → Inner A W → Inner A W → Type 0
  Grows limit s s' =
      (head_index s' ≡ head_index s)
      × (cached_head s' ≤ head_index s)
      × ((tail_index s' ≡ tail_index s)
          ⊎ (tail_index s' ≡ add_usize (tail_index s) 1)
            × ((offset_of (tail_index s) ≡ block_cap)
                ⊎ (items_between (head_index s) (tail_index s) < limit)))

  -- The accesses of a producer, which relies on the head being at `lo` or further on; `Post` tells
  -- what its result says of the head at its last access.
  unfoldable pub Admits : {R : Type 0} → ℕ → (ℕ → R → Type 0) → ℕ → Program (Inner A W) R → Type 0
  Admits limit Post lo (finished r) = Post lo r
  Admits limit Post lo (access f k) =
      (b : Bool) (s : Inner A W)
      → lo ≤ head_index s
      → cached_head s ≤ head_index s
      → Grows limit s (f b s) × Admits limit Post (head_index s) (k b s)
  Admits limit Post lo hungry = Unit
  Admits limit Post lo faulty = Unit

  pub Admits-bind :
      {R Q : Type 0} (limit : ℕ) (Post : ℕ → R → Type 0) (Post' : ℕ → Q → Type 0) (lo : ℕ)
      (m : Program (Inner A W) R) (g : R → Program (Inner A W) Q)
      → Admits limit Post lo m
      → ((lo' : ℕ) (r : R) → Post lo' r → Admits limit Post' lo' (g r))
      → Admits limit Post' lo (m >>= g)
  unfolding Admits
  Admits-bind limit Post Post' lo (finished r) g h e = e lo r h
  Admits-bind limit Post Post' lo (access f k) g h e = λ b s l c.
      ((h b s l c).0, Admits-bind limit Post Post' (head_index s) (k b s) g (h b s l c).1 e)
  Admits-bind limit Post Post' lo hungry g h e = tt
  Admits-bind limit Post Post' lo faulty g h e = tt

  pub Admits-Idle :
      {R : Type 0} (limit lo : ℕ) (m : Program (Inner A W) R) → Idle m → Admits limit Anything lo m
  unfolding Settled Admits
  Admits-Idle limit lo (finished r) h = tt
  Admits-Idle limit lo (access f k) h = λ b s l c.
      let same = (h b s).0 in
      let head = ap (λ t. t.0) same in
      let tail = ap (λ t. t.1.0) same in
      let cached = ap (λ t. t.1.1) same in
      ((head, omega arith, inl tail), Admits-Idle limit (head_index s) (k b s) (h b s).1)
  Admits-Idle limit lo hungry h = tt
  Admits-Idle limit lo faulty h = tt

  Admits-if :
      {R : Type 0} (limit : ℕ) (Post : ℕ → R → Type 0) (lo : ℕ) (c : Bool)
      (p q : Program (Inner A W) R)
      → (c ≡ true → Admits limit Post lo p)
      → (c ≡ false → Admits limit Post lo q)
      → Admits limit Post lo (if c then p else q)
  Admits-if limit Post lo true p q a b = a refl
  Admits-if limit Post lo false p q a b = b refl

  -- The attempt to move the tail, by what decides it.
  attempt-Grows :
      {R : Type 0} (limit : ℕ) (Post : ℕ → R → Type 0) (tail : ℕ) (p : Program (Inner A W) R)
      (q : ℕ → Program (Inner A W) R) (weak hit : Bool) (s : Inner A W)
      → cached_head s ≤ head_index s
      → (hit ≡ true → tail_index s ≡ tail)
      → ((offset_of tail ≡ block_cap) ⊎ (items_between (head_index s) tail < limit))
      → Admits limit Post (head_index s) p
      → ((actual : ℕ) → Admits limit Post (head_index s) (q actual))
      → let s' = if weak then s else if hit then set_tail_index (add_usize tail 1) s else s in
        let r = if weak then lost (tail_index s) else if hit then won else lost (tail_index s) in
        Grows limit s s'
        × Admits limit Post
            (head_index s)
            (elim r as (λ _. Program (Inner A W) R) [ won ↦ p | lost actual ↦ q actual ])
  attempt-Grows limit Post tail p q true hit s c at room a b = ((refl, c, inl refl), b _)
  attempt-Grows limit Post tail p q false false s c at room a b = ((refl, c, inl refl), b _)
  attempt-Grows limit Post tail p q false true s c at room a b =
      let e = at refl in ((refl, c, inr (ground arith, rw e room)), a)

  advance_tail-Admits :
      {R : Type 0} (limit : ℕ) (Post : ℕ → R → Type 0) (lo tail : ℕ) (p : Program (Inner A W) R)
      (q : ℕ → Program (Inner A W) R)
      → ((h : ℕ) → lo ≤ h → (offset_of tail ≡ block_cap) ⊎ (items_between h tail < limit))
      → ((h : ℕ) → Admits limit Post h p)
      → ((h actual : ℕ) → Admits limit Post h (q actual))
      → Admits limit Post lo
          (advance_tail tail >>= λ r. elim r [ won ↦ p | lost actual ↦ q actual ])
  unfolding Admits
  advance_tail-Admits limit Post lo tail p q room a b weak s l c =
      attempt-Grows limit Post tail p q weak (tail_index s == tail) s c (λ e. ground arith)
        (room (head_index s) l) (a (head_index s)) (b (head_index s))

module _ (A W : Type 0) where
  is_full-Admits :
      (limit tail lo : ℕ)
      → Admits limit (Checked limit tail) lo (is_full {A = A} {W = W} limit tail)
  unfolding is_full Admits
  is_full-Admits limit tail lo = λ b s l c. (
    (refl, c, inl refl),
    Admits-if limit (Checked limit tail) (head_index s)
        (leb limit (items_between (cached_head s) tail)) _ _
        (λ _ b' s' l' c'. (
          (refl, c', inl refl),
          Admits-if limit (Checked limit tail) (head_index s')
              (leb limit (items_between (head_index s') tail)) _ _ (λ _. tt)
              (λ e b'' s'' l'' c''. ((refl, l'', inl refl), (head_index s', l'', ground arith))),
        ))
        (λ e. (cached_head s, c, ground arith)),
  )

  -- What follows the verdict.
  verdict-Admits :
      (limit tail lo : ℕ) (full : Bool) (again : ℕ → Program (Inner A W) (Option ℕ))
      → Checked limit tail lo full
      → ((actual h : ℕ) → Admits limit Anything h (again actual))
      → Admits {A = A} {W = W} limit Anything lo (
          if full
          then return none
          else (advance_tail tail >>= λ r. elim r as (λ _. Program (Inner A W) (Option ℕ)) [
            | won ↦ return (some tail)
            | lost actual ↦ again actual
          ]))
  unfolding Admits
  verdict-Admits limit tail lo true again h a = tt
  verdict-Admits limit tail lo false again h a =
      advance_tail-Admits limit Anything lo tail (return (some tail)) again
        (λ l below.
          let k = items_between-antitone h.0 l tail (let b = h.1 in omega arith) in
          let room = h.2 in inr (omega arith))
        (λ h. tt) (λ h actual. a actual h)

  claim_bounded_loop-Admits :
      (fuel limit tail lo : ℕ)
      → Admits limit Anything lo (claim_bounded_loop {A = A} {W = W} fuel limit tail)
  unfolding claim_bounded_loop Admits
  claim_bounded_loop-Admits zero limit tail lo = tt
  claim_bounded_loop-Admits (suc fuel) limit tail lo =
      Admits-if limit Anything lo (offset_of tail == block_cap) _ _
        (λ o.
          advance_tail-Admits limit Anything lo tail
            (claim_bounded_loop fuel limit (add_usize tail 1)) (claim_bounded_loop fuel limit)
            (λ h l. inl (ground arith)) (claim_bounded_loop-Admits fuel limit (add_usize tail 1))
            (λ h actual. claim_bounded_loop-Admits fuel limit actual h))
        (λ o.
          Admits-bind limit (Checked limit tail) Anything lo (is_full limit tail) _
            (is_full-Admits limit tail lo)
            λ lo' full checked.
              verdict-Admits limit tail lo' full (claim_bounded_loop fuel limit) checked
                (claim_bounded_loop-Admits fuel limit))

  claim_bounded-Admits :
      (fuel limit lo : ℕ) → Admits limit Anything lo (claim_bounded {A = A} {W = W} fuel limit)
  unfolding claim_bounded Admits
  claim_bounded-Admits fuel limit lo = λ b s l c.
      ((refl, c, inl refl), claim_bounded_loop-Admits fuel limit (tail_index s) (head_index s))

  pub claim-Admits :
      (fuel limit lo : ℕ)
      → limit ≢ unbounded
      → Admits limit Anything lo (claim {A = A} {W = W} fuel limit)
  unfolding claim
  claim-Admits fuel limit lo l =
      Admits-if limit Anything lo (limit == unbounded) _ _ (λ e. absurd (ground arith))
        (λ _. claim_bounded-Admits fuel limit lo)
