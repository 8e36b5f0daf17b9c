-- ===== src/Parked/Entries.antt =====
-- Lemmas on a waiter list and the ids of its entries.
use rapidfire.Prelude.{
  ℕ, zero, suc, ◌+◌, ◌<◌, ◌≡◌, ◌≢◌, refl, Bool, true, false, ◌==◌, List, [], ◌∷◌, ◌++◌, length,
  drop, All, All-map, Distinct, if◌then◌else◌, arith, ap, sym, ◌∙◌, Bool-cases, inl, inr,
}
use rapidfire.Shared.{WaiterList}
use rapidfire.Channel.Waiters.{has, remove_entry, refresh}

module _ {W : Type 0} where
  abbrev pub ids : WaiterList W → List ℕ
  ids [] = []
  ids ((id, w) ∷ l) = id ∷ ids l

  abbrev pub Below : ℕ → WaiterList W → Type 0
  Below n l = All (λ id. id < n) (ids l)

  pub length-remove_entry :
      (my : ℕ) (l : WaiterList W) → has my l ≡ true → length (remove_entry my l) + 1 ≡ length l
  unfolding has remove_entry
  length-remove_entry my [] h = cc
  length-remove_entry my ((id, w) ∷ l) h = ground (arith, length-remove_entry my l)

  pub All-remove_entry :
      (P : ℕ → Type 0) (my : ℕ) (l : WaiterList W) → All P (ids l) → All P (ids (remove_entry my l))
  unfolding remove_entry
  All-remove_entry P my [] h = tt
  All-remove_entry P my ((id, w) ∷ l) h = elim (Bool-cases (id == my)) [
    | inl e ↦ rw e h.1
    | inr e ↦ rw e (h.0, All-remove_entry P my l h.1)
  ]

  pub Distinct-remove_entry :
      (my : ℕ) (l : WaiterList W) → Distinct (ids l) → Distinct (ids (remove_entry my l))
  unfolding remove_entry
  Distinct-remove_entry my [] h = tt
  Distinct-remove_entry my ((id, w) ∷ l) h = elim (Bool-cases (id == my)) [
    | inl e ↦ rw e h.1
    | inr e ↦ rw e (All-remove_entry _ my l h.0, Distinct-remove_entry my l h.1)
  ]

  pub ids-refresh :
      (ww : W → W → Bool) (my : ℕ) (w : W) (l : WaiterList W) → ids (refresh ww my w l) ≡ ids l
  unfolding refresh
  ids-refresh ww my w [] = refl
  ids-refresh ww my w ((id, v) ∷ l) = ground (arith, ids-refresh ww my w l)

  pub length-ids : (l : WaiterList W) → length (ids l) ≡ length l
  length-ids [] = refl
  length-ids (e ∷ l) = ap suc (length-ids l)

  pub All-enqueue :
      (P : ℕ → Type 0) (my : ℕ) (w : W) (l : WaiterList W)
      → All P (ids l)
      → P my
      → All P (ids (l ++ (my, w) ∷ []))
  All-enqueue P my w [] h k = (k, tt)
  All-enqueue P my w ((id, v) ∷ l) h k = (h.0, All-enqueue P my w l h.1 k)

  pub not-has-All : (my : ℕ) (l : WaiterList W) → has my l ≡ false → All (λ id. id ≢ my) (ids l)
  unfolding has
  not-has-All my [] h = tt
  not-has-All my ((id, w) ∷ l) h = (λ e. ground arith, not-has-All my l (ground arith))

  pub Distinct-enqueue :
      (my : ℕ) (w : W) (l : WaiterList W)
      → Distinct (ids l)
      → All (λ id. id ≢ my) (ids l)
      → Distinct (ids (l ++ (my, w) ∷ []))
  Distinct-enqueue my w [] h k = (tt, tt)
  Distinct-enqueue my w ((id, v) ∷ l) h k =
      (All-enqueue _ my w l h.0 k.0, Distinct-enqueue my w l h.1 k.1)

  pub All-drop :
      (P : ℕ → Type 0) (n : ℕ) (l : WaiterList W) → All P (ids l) → All P (ids (drop n l))
  All-drop P zero l h = h
  All-drop P (suc n) [] h = tt
  All-drop P (suc n) ((id, w) ∷ l) h = All-drop P n l h.1

  pub Distinct-drop : (n : ℕ) (l : WaiterList W) → Distinct (ids l) → Distinct (ids (drop n l))
  Distinct-drop zero l h = h
  Distinct-drop (suc n) [] h = tt
  Distinct-drop (suc n) ((id, w) ∷ l) h = Distinct-drop n l h.1

  -- The entries of other ids, in their order.
  abbrev pub others : ℕ → WaiterList W → WaiterList W
  others my [] = []
  others my ((id, w) ∷ l) = if id == my then others my l else (id, w) ∷ others my l

  pub others-All : (my : ℕ) (l : WaiterList W) → All (λ id. id ≢ my) (ids l) → others my l ≡ l
  others-All my [] h = refl
  others-All my ((id, w) ∷ l) h =
      let e : (id == my) ≡ false = let ne = h.0 in ground arith in
      rw e (ap (λ k. (id, w) ∷ k) (others-All my l h.1))

  -- Where the ids differ, taking off the first entry of an id leaves those of the others.
  pub remove_entry-others :
      (my : ℕ) (l : WaiterList W) → Distinct (ids l) → remove_entry my l ≡ others my l
  unfolding remove_entry
  remove_entry-others my [] h = refl
  remove_entry-others my ((id, w) ∷ l) h = elim (Bool-cases (id == my)) [
    | inl e ↦
        let same : id ≡ my = ground arith in
        rw e (sym (others-All my l (All-map (λ k ne t. ne (same ∙ sym t)) (ids l) h.0)))
    | inr e ↦ rw e (ap (λ k. (id, w) ∷ k) (remove_entry-others my l h.1))
  ]
