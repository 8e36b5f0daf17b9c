-- ===== src/Exclusive/Many.antt =====
-- `recv_many` of src/mpsc.rs, for a thread that is alone, takes as many values as it may.
use rapidfire.Prelude.{
  ℕ, zero, suc, ◌+◌, ◌-◌, ◌<◌, ◌≡◌, refl, true, false, ◌==◌, ltb, if◌then◌else◌, List, ◌++◌, length,
  take, drop, min, length-drop, arith, ap, sym, ◌∙◌, subst, append_assoc, append-nil, Bool-cases,
  List-cases, ℕ_discrete, inl, inr,
}
use rapidfire.Sync.{done, bind-done}
use rapidfire.Shared.{Inner}
use rapidfire.Mpsc.Receiver.{try_recv_many_ready, fill_ready}
use rapidfire.Refine.Holds.{Contains}
use rapidfire.Refine.Claim.{quiet}
use rapidfire.Parked.Invariant.{IsParked}
use rapidfire.Exclusive.Waking.{
  take-take, drop-drop, IsServed, IsServed-none, IsServed-then, try_recv_many_ready_lem,
}

module _ {A W : Type 0} where
  -- What is left of the buffer, the count and the queue when the loop of `recv_many` ends.
  abbrev pub Filled : ℕ → List A → ℕ → ℕ → Inner A W → List A → ℕ → Type 0
  Filled fuel buffer limit count s xs k =
      (t : Inner A W) × (fill_ready fuel buffer limit count (quiet s)
        ≡ done (buffer ++ take k xs, count + k) (quiet t))
      × Contains t.queue (drop k xs)
      × IsServed s t k

  stop_filling :
      (s : Inner A W) {xs : List A} (fuel : ℕ) (buffer : List A) (limit count : ℕ)
      → Contains s.queue xs
      → IsParked s
      → fill_ready fuel buffer limit count (quiet s) ≡ done (buffer, count) (quiet s)
      → Filled fuel buffer limit count s xs 0
  stop_filling s fuel buffer limit count r h e =
      let z : count + 0 ≡ count = omega arith in
      (s, e ∙ sym (λ i. done (append-nil buffer i, z i) (quiet s)), r, IsServed-none s h)

  fill_ready-end :
      (s : Inner A W) (fuel : ℕ) (buffer : List A) (limit count : ℕ)
      → ltb count limit ≡ false
      → fill_ready (suc fuel) buffer limit count (quiet s) ≡ done (buffer, count) (quiet s)
  unfolding fill_ready
  fill_ready-end s fuel buffer limit count e = rw e refl

  fill_ready-step :
      (s t : Inner A W) (fuel : ℕ) (buffer more : List A) (limit count k : ℕ)
      → ltb count limit ≡ true
      → try_recv_many_ready buffer (limit - count) (quiet s) ≡ done (more, k) (quiet t)
      → fill_ready (suc fuel) buffer limit count (quiet s) ≡ (
          if k == 0
          then done (more, count) (quiet t)
          else fill_ready fuel more limit (count + k) (quiet t))
  unfolding fill_ready
  fill_ready-step s t fuel buffer more limit count k e p = elim (Bool-cases (k == 0)) [
    | inl z ↦ rw (e, z) (bind-done (try_recv_many_ready buffer (limit - count)) _ p ∙ rw z refl)
    | inr z ↦ rw (e, z) (bind-done (try_recv_many_ready buffer (limit - count)) _ p ∙ rw z refl)
  ]

  -- The numbers that two batches add up to.
  Filled-then :
      (s t : Inner A W) (fuel limit count : ℕ) (buffer xs : List A) (k m : ℕ)
      → ltb count limit ≡ true
      → (k == 0) ≡ false
      → try_recv_many_ready buffer (limit - count) (quiet s)
        ≡ done (buffer ++ take k xs, k) (quiet t)
      → IsServed s t k
      → Filled fuel (buffer ++ take k xs) limit (count + k) t (drop k xs) m
      → Filled (suc fuel) buffer limit count s xs (k + m)
  Filled-then s t fuel limit count buffer xs k m e z p served (u, q, r, more) =
      let a : count + k + m ≡ count + (k + m) = omega arith in
      let b =
        append_assoc buffer (take k xs) (take m (drop k xs))
        ∙ ap (λ l. buffer ++ l) (take-take k m xs) in
      (
        u,
        fill_ready-step s t fuel buffer _ limit count k e p
            ∙ rw z q
            ∙ (λ i. done (b i, a i) (quiet u)),
        subst (λ l. Contains u.queue l) (drop-drop k m xs) r,
        IsServed-then s t u k m served more,
      )

  pub fill_ready_lem :
      (fuel : ℕ) (s : Inner A W) (xs buffer : List A) (limit count : ℕ)
      → limit - count < fuel
      → Contains s.queue xs
      → IsParked s
      → Filled fuel buffer limit count s xs (min (limit - count) (length xs))
  fill_ready_lem zero s xs buffer limit count lt r h = absurd (omega (arith, lt))
  fill_ready_lem (suc fuel) s xs buffer limit count lt r h = elim (Bool-cases (ltb count limit)) [
    | inr e ↦
        let z : 0 ≡ min (limit - count) (length xs) = ground arith in
        subst (Filled (suc fuel) buffer limit count s xs) z (
          stop_filling s (suc fuel) buffer limit count r h
            (fill_ready-end s fuel buffer limit count e))
    | inl e ↦
        let (k, le, short, some_taken, (t, p, r', served)) =
          try_recv_many_ready_lem s buffer (limit - count) r h in
        elim (ℕ_discrete k 0) [
          | yes z ↦
              let b : (k == 0) ≡ true = ground arith in
              let c : count ≡ count + k = omega arith in
              let all : k ≡ min (limit - count) (length xs) = elim (List-cases xs) [
                | inl none_left ↦ omega (arith, ap length none_left)
                | inr (x, l, some_left) ↦ absurd (
                    some_taken (ground arith) (λ n. omega (arith, ap length (sym some_left ∙ n))) z)
              ] in
              subst (Filled (suc fuel) buffer limit count s xs) all (
                t,
                fill_ready-step s t fuel buffer _ limit count k e p
                    ∙ rw b refl
                    ∙ ap (λ n. done (buffer ++ take k xs, n) (quiet t)) c,
                r',
                served,
              )
          | no z ↦
              let n = length-drop k xs in
              subst (Filled (suc fuel) buffer limit count s xs) (omega (arith, n)) (
                Filled-then s t fuel limit count buffer xs k _ e (ground arith) p served (
                  fill_ready_lem fuel t (drop k xs) (buffer ++ take k xs) limit (count + k)
                    (ground (arith, e)) r' served.parked))
        ]
  ]
