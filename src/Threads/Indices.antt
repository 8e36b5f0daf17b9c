-- ===== src/Threads/Indices.antt =====
-- The invariant of the head and the tail of a bounded queue of src/queue.rs when any number of pushes
-- and pops interleave.
use rapidfire.Prelude.{
  ℕ, suc, ◌+◌, ◌≤◌, ◌<◌, ◌≡◌, ◌≢◌, refl, sym, ap, ◌∙◌, subst, Bool, true, false, update,
  update_self, update_ne, ℕ_discrete, ◌⊎◌, inl, inr, arith,
}
use mathlib.Core.Bool.{true≢false}
use rapidfire.Layout.{offset_of, block_cap, items_between}
use rapidfire.Shared.{Inner}
use rapidfire.Interference.Capacity.{items_between-antitone}
use rapidfire.Threads.Program.{Program}
use rapidfire.Threads.System.{System}
use rapidfire.Threads.Tables.{update_both}
use rapidfire.Threads.Seeking.{tail_index}
use rapidfire.Threads.Roles.{head_index, tail_side, Finishes, Consumes}
use rapidfire.Threads.Admitting.{cached_head, Admits, Anything}

-- What a thread is at: a push, which relies on the head being at a position or further on; a pop that
-- has not claimed the last slot of a block, or is done; a pop that has claimed such a slot and still
-- has to move the head.
pub data Role : Type 0 where
  producing : ℕ → Role
  consuming : Role
  finishing : ℕ → Role

abbrev pub is_finishing : Role → Bool
is_finishing (finishing h) = true
is_finishing _ = false

-- The tail moves over a sentinel, or to where there is room.
pub items_between-grown :
    (limit h t : ℕ)
    → items_between h t ≤ limit
    → ((offset_of t ≡ block_cap) ⊎ (items_between h t < limit))
    → items_between h (suc t) ≤ limit
unfolding items_between
items_between-grown limit h t k (inl o) = ground arith
items_between-grown limit h t k (inr room) = ground arith

module _ {A W : Type 0} where
  pub items-moved :
      (limit : ℕ) (s s' : Inner A W) (t : ℕ)
      → head_index s' ≡ head_index s
      → tail_index s' ≡ t
      → items_between (head_index s) t ≤ limit
      → items_between (head_index s') (tail_index s') ≤ limit
  items-moved limit s s' t head tail b =
      subst (λ t. items_between (head_index s') t ≤ limit) (sym tail)
        (subst (λ h. items_between h t ≤ limit) (sym head) b)

module _ {A W R : Type 0} where
  -- What the role of a thread says of its program and of the head.
  abbrev pub Plays : ℕ → ℕ → Role → Program (Inner A W) R → Type 0
  Plays limit head (producing lo) prog = (lo ≤ head) × Admits limit Anything lo prog
  Plays limit head consuming prog = Consumes prog
  Plays limit head (finishing h) prog =
      (head ≡ suc h) × (offset_of h + 1 ≡ block_cap) × Finishes h prog

  -- At most one pop has to move the head over a sentinel, and the head waits for it there. The cached
  -- head is behind the head, and no more values lie between the head and the tail than the limit.
  pub record IsBounded (limit heads tails : ℕ) (s : System (Inner A W) R) : Type 0 where
    pub role : ℕ → Role
    pub plays : (i : ℕ) → Plays limit (head_index s.shared) (role i) (s.thread i)
    pub alone : (i j : ℕ) → is_finishing (role i) ≡ true → is_finishing (role j) ≡ true → i ≡ j
    pub behind : cached_head s.shared ≤ head_index s.shared
    pub room : items_between (head_index s.shared) (tail_index s.shared) ≤ limit
    pub heads_bound : head_index s.shared ≤ heads
    pub tails_bound : tail_index s.shared ≤ tails

  Plays-later :
      (limit head head' : ℕ) (r : Role) (prog : Program (Inner A W) R)
      → is_finishing r ≡ false
      → head ≤ head'
      → Plays limit head r prog
      → Plays limit head' r prog
  Plays-later limit head head' (producing lo) prog e l p = (let a = p.0 in omega arith, p.1)
  Plays-later limit head head' consuming prog e l p = p
  Plays-later limit head head' (finishing h) prog e l p = absurd (true≢false e)

  -- An access after which the head is where it was: the thread still has to finish if it had to.
  pub IsBounded-stay :
      (limit heads tails : ℕ) (s : System (Inner A W) R) (i : ℕ) (s' : Inner A W) (r : Role)
      (rest : Program (Inner A W) R) (c : IsBounded limit heads tails s)
      → head_index s' ≡ head_index s.shared
      → tail_index s' ≤ suc tails
      → cached_head s' ≤ head_index s'
      → items_between (head_index s') (tail_index s') ≤ limit
      → is_finishing r ≡ is_finishing (c.role i)
      → Plays limit (head_index s') r rest
      → IsBounded limit
          (suc heads)
          (suc tails)
          (record { shared = s'; thread = update s.thread i rest })
  IsBounded-stay limit heads tails s i s' r rest c same tail cached room same_role p = record {
    role = update c.role i r;
    plays =
        update_both (Plays limit (head_index s')) c.role s.thread i r rest
          (λ j _. subst (λ h. Plays limit h (c.role j) (s.thread j)) (sym same) (c.plays j)) p;
    alone = λ j k a b. c.alone j k (sym (kept j) ∙ a) (sym (kept k) ∙ b);
    behind = cached;
    room = room;
    heads_bound = let b = c.heads_bound in omega arith;
    tails_bound = tail;
  }
    where
      kept : (j : ℕ) → is_finishing (update c.role i r j) ≡ is_finishing (c.role j)
      kept j = elim (ℕ_discrete i j) [
        | yes e ↦
            subst (λ m. is_finishing (update c.role i r m) ≡ is_finishing (c.role m)) e
              (ap is_finishing (update_self c.role i r) ∙ same_role)
        | no ne ↦ ap is_finishing (update_ne c.role r ne)
      ]

  -- An access that moves the head on, when no other thread has to finish.
  pub IsBounded-advance :
      (limit heads tails : ℕ) (s : System (Inner A W) R) (i : ℕ) (s' : Inner A W) (r : Role)
      (rest : Program (Inner A W) R) (c : IsBounded limit heads tails s)
      → head_index s' ≡ suc (head_index s.shared)
      → tail_index s' ≡ tail_index s.shared
      → cached_head s' ≡ cached_head s.shared
      → ((j : ℕ) → i ≢ j → is_finishing (c.role j) ≡ false)
      → Plays limit (head_index s') r rest
      → IsBounded limit
          (suc heads)
          (suc tails)
          (record { shared = s'; thread = update s.thread i rest })
  IsBounded-advance limit heads tails s i s' r rest c more tail cached others p = record {
    role = update c.role i r;
    plays =
        update_both (Plays limit (head_index s')) c.role s.thread i r rest
          (λ j ne.
            Plays-later limit (head_index s.shared) (head_index s') (c.role j) (s.thread j)
              (others j ne) (omega arith) (c.plays j))
          p;
    alone = λ j k a b. sym (only j a) ∙ only k b;
    behind = let b = c.behind in omega arith;
    room =
        let b = c.room in
        let fewer =
          items_between-antitone (head_index s.shared) (head_index s') (tail_index s.shared)
            (omega arith) in
        subst (λ t. items_between (head_index s') t ≤ limit) (sym tail) (omega arith);
    heads_bound = let b = c.heads_bound in omega arith;
    tails_bound = let b = c.tails_bound in omega arith;
  }
    where
      only : (j : ℕ) → is_finishing (update c.role i r j) ≡ true → i ≡ j
      only j a = elim (ℕ_discrete i j) [
        | yes e ↦ e
        | no ne ↦
            absurd (true≢false (sym a ∙ ap is_finishing (update_ne c.role r ne) ∙ others j ne))
      ]

  -- Where the head is no sentinel, no pop has to finish.
  pub no-finisher :
      (limit head : ℕ) (r : Role) (prog : Program (Inner A W) R)
      → offset_of head ≢ block_cap
      → Plays limit head r prog
      → is_finishing r ≡ false
  no-finisher limit head (producing lo) prog off p = refl
  no-finisher limit head consuming prog off p = refl
  no-finisher limit head (finishing h) prog off p =
      let a = p.0 in let b = p.1 in absurd (ground arith)

  -- An access of a pop that moves nothing.
  pub IsBounded-keep :
      (limit heads tails : ℕ) (s : System (Inner A W) R) (i : ℕ) (s' : Inner A W)
      (rest : Program (Inner A W) R) (c : IsBounded limit heads tails s)
      → head_index s' ≡ head_index s.shared
      → tail_side s' ≡ tail_side s.shared
      → Plays limit (head_index s') (c.role i) rest
      → IsBounded limit
          (suc heads)
          (suc tails)
          (record { shared = s'; thread = update s.thread i rest })
  IsBounded-keep limit heads tails s i s' rest c head side p =
      let tail = ap (λ t. t.0) side in
      let cached = ap (λ t. t.1) side in
      let bound = c.tails_bound in
      let behind = c.behind in
      IsBounded-stay limit heads tails s i s' (c.role i) rest c head (omega arith) (omega arith)
        (items-moved limit s.shared s' (tail_index s.shared) head tail c.room) refl p
