-- ===== src/Threads/Accesses.antt =====
-- One access of any thread keeps the invariant of the head and the tail of a bounded queue of
-- src/queue.rs.
use rapidfire.Prelude.{
  ℕ, suc, ◌<◌, ◌≡◌, refl, sym, ap, ◌∙◌, subst, Bool, true, false, update, ◌⊎◌, inl, inr, arith,
}
use rapidfire.Layout.{add_usize, usize_mod}
use rapidfire.Shared.{Inner}
use rapidfire.Threads.Program.{Program, access}
use rapidfire.Threads.System.{System, Step, turn}
use rapidfire.Threads.Seeking.{tail_index}
use rapidfire.Threads.Roles.{head_index, Finishes, Consumes, Consumes-Idle}
use rapidfire.Threads.Indices.{
  Role, producing, consuming, finishing, is_finishing, items_between-grown, items-moved, Plays,
  IsBounded, IsBounded-stay, IsBounded-advance, IsBounded-keep, no-finisher,
}
use rapidfire.Threads.Admitting.{Admits}

not_true : (b : Bool) → (b ≡ true → ⊥) → b ≡ false
not_true true h = absurd (h refl)
not_true false h = refl

module _ {A W R : Type 0} where
  access-IsBounded :
      (limit heads tails : ℕ) (s : System (Inner A W) R) (i : ℕ) (weak : Bool)
      (f : Bool → Inner A W → Inner A W) (k : Bool → Inner A W → Program (Inner A W) R)
      (c : IsBounded limit heads tails s)
      → suc heads < usize_mod
      → suc tails < usize_mod
      → (r : Role) → c.role i ≡ r
      → Plays limit (head_index s.shared) r (access f k)
      → IsBounded limit
          (suc heads)
          (suc tails)
          (record { shared = f weak s.shared; thread = update s.thread i (k weak s.shared) })
  unfolding Admits Consumes Finishes
  access-IsBounded limit heads tails s i weak f k c sh st (producing lo) e p =
      let (grows, rest) = p.1 weak s.shared p.0 c.behind in
      let (head, cached, tail) = grows in
      let bound = c.tails_bound in
      let room = c.room in
      let next : add_usize (tail_index s.shared) 1 ≡ suc (tail_index s.shared) = omega arith in
      IsBounded-stay limit heads tails s i (f weak s.shared) (producing (head_index s.shared))
        (k weak s.shared) c head (elim tail [ inl t ↦ omega arith | inr (t, _) ↦ omega arith ])
        (omega arith)
        (elim tail [
          | inl t ↦ items-moved limit s.shared (f weak s.shared) _ head t room
          | inr (t, ok) ↦
              items-moved limit s.shared (f weak s.shared) _ head (t ∙ next)
                (items_between-grown limit (head_index s.shared) (tail_index s.shared) room ok)
        ])
        (ap is_finishing (sym e)) (omega arith, rest)
  access-IsBounded limit heads tails s i weak f k c sh st consuming e p =
      let (side, moves) = p weak s.shared in
      let bound = c.heads_bound in
      let tail = ap (λ t. t.0) side in
      let cached = ap (λ t. t.1) side in
      elim moves [
        | inl (same, rest) ↦
            IsBounded-keep limit heads tails s i (f weak s.shared) (k weak s.shared) c same side (
              subst (λ r. Plays limit (head_index (f weak s.shared)) r (k weak s.shared)) (sym e)
                rest)
        | inr (more, off, inl (last, rest)) ↦
            IsBounded-advance limit heads tails s i (f weak s.shared)
              (finishing (head_index s.shared)) (k weak s.shared) c (omega arith) tail cached
              (λ j _.
                no-finisher limit (head_index s.shared) (c.role j) (s.thread j) off (c.plays j))
              (omega arith, last, rest)
        | inr (more, off, inr (inner, rest)) ↦
            IsBounded-advance limit heads tails s i (f weak s.shared) consuming (k weak s.shared) c
              (omega arith) tail cached
              (λ j _.
                no-finisher limit (head_index s.shared) (c.role j) (s.thread j) off (c.plays j))
              (Consumes-Idle (k weak s.shared) rest)
      ]
  access-IsBounded limit heads tails s i weak f k c sh st (finishing h) e p =
      let (at, last, moves) = p in
      let (side, over) = moves weak s.shared in
      let bound = c.heads_bound in
      let tail = ap (λ t. t.0) side in
      let cached = ap (λ t. t.1) side in
      elim over [
        | inl (same, rest) ↦
            IsBounded-keep limit heads tails s i (f weak s.shared) (k weak s.shared) c same side (
              subst (λ r. Plays limit (head_index (f weak s.shared)) r (k weak s.shared)) (sym e)
                (same ∙ at, last, rest))
        | inr (more, rest) ↦
            IsBounded-advance limit heads tails s i (f weak s.shared) consuming (k weak s.shared) c
              (omega arith) tail cached
              (λ j ne.
                not_true (is_finishing (c.role j)) (λ b. ne (c.alone i j (ap is_finishing e) b)))
              (Consumes-Idle (k weak s.shared) rest)
      ]

  pub Step-IsBounded :
      (limit heads tails : ℕ) (s t : System (Inner A W) R)
      → suc heads < usize_mod
      → suc tails < usize_mod
      → IsBounded limit heads tails s
      → Step s t
      → IsBounded limit (suc heads) (suc tails) t
  Step-IsBounded limit heads tails s _ sh st c (turn i weak f k eq) =
      access-IsBounded limit heads tails s i weak f k c sh st (c.role i) refl
        (subst (Plays limit (head_index s.shared) (c.role i)) eq (c.plays i))

  -- How one access may move the head.
  pub head-access :
      (limit heads tails : ℕ) (s : System (Inner A W) R) (weak : Bool)
      (f : Bool → Inner A W → Inner A W) (k : Bool → Inner A W → Program (Inner A W) R)
      → (c : IsBounded limit heads tails s) → suc heads < usize_mod
      → (r : Role) → Plays limit (head_index s.shared) r (access f k)
      → (head_index (f weak s.shared) ≡ head_index s.shared)
        ⊎ (head_index (f weak s.shared) ≡ suc (head_index s.shared))
  unfolding Admits Consumes Finishes
  head-access limit heads tails s weak f k c sh (producing lo) p =
      inl (p.1 weak s.shared p.0 c.behind).0.0
  head-access limit heads tails s weak f k c sh consuming p =
      let bound = c.heads_bound in
      elim (p weak s.shared).1 [ inl (same, _) ↦ inl same | inr (more, _, _) ↦ inr (omega arith) ]
  head-access limit heads tails s weak f k c sh (finishing h) p =
      let bound = c.heads_bound in
      let at = p.0 in
      elim (p.2 weak s.shared).1 [ inl (same, _) ↦ inl same | inr (over, _) ↦ inr (omega arith) ]
