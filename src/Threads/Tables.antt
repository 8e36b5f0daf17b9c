-- ===== src/Threads/Tables.antt =====
-- Facts on tables that are written in one place, which the invariants on threads use.
use rapidfire.Prelude.{
  ℕ, ◌≡◌, ◌≢◌, sym, ap, ◌∙◌, subst, Option, some, update, update_self, update_ne, ◌==◌, Bool-cases,
  ℕ_discrete, ◌⊎◌, inl, inr, arith,
}
use mathlib.Core.Option.{get_or}

-- What holds of every entry still holds after a write that it allows.
pub update_all :
    {X : Type 0} (Q : ℕ → X → Type 0) (f : ℕ → X) (i : ℕ) (x : X)
    → ((j : ℕ) → Q j (f j))
    → Q i x
    → (j : ℕ) → Q j (update f i x j)
unfolding update
update_all Q f i x h q j = elim (Bool-cases (i == j)) [
  | inl e ↦ let same : i ≡ j = ground arith in simp e (subst (λ m. Q m x) same q)
  | inr e ↦ simp e (h j)
]

-- The same for two tables that are written in one place.
pub update_both :
    {X Y : Type 0} (Q : X → Y → Type 0) (f : ℕ → X) (g : ℕ → Y) (i : ℕ) (x : X) (y : Y)
    → ((j : ℕ) → i ≢ j → Q (f j) (g j))
    → Q x y
    → (j : ℕ) → Q (update f i x j) (update g i y j)
unfolding update
update_both Q f g i x y h q j = elim (Bool-cases (i == j)) [
  | inl e ↦ simp e q
  | inr e ↦ simp e (h j (ground arith))
]

-- The entries after a write of a claimed position.
pub update_claimed :
    (held : ℕ → Option ℕ) (i j t p : ℕ)
    → update held i (some t) j ≡ some p
    → ((i ≡ j) × (p ≡ t)) ⊎ (i ≢ j) × (held j ≡ some p)
update_claimed held i j t p h = elim (ℕ_discrete i j) [
  | yes e ↦
      let here : some t ≡ update held i (some t) j =
        subst (λ m. some t ≡ update held i (some t) m) e (sym (update_self held i (some t))) in
      inl (e, sym (ap (λ o. get_or o p) (here ∙ h)))
  | no ne ↦ inr (ne, sym (update_ne held (some t) ne) ∙ h)
]
