-- ===== src/Queue/Backoff/Bounds.antt =====
-- How long `Backoff` of src/queue.rs waits.
use rapidfire.Prelude.{
  ℕ, zero, suc, ◌+◌, ◌-◌, ◌^◌, ◌≤◌, ◌≡◌, refl, ltb, arith, ap, ◌∙◌, min, dec_lt,
}
use native.Mathlib.Nat.{pow-le-pow_right, two-pow-succ}
use rapidfire.Queue.Backoff.{Pause, pauses, yields, snooze, snooze_bounded}

-- The `spin_loop` calls of a pause.
abbrev pub spins : Pause → ℕ
spins (pauses n) = n
spins yields = 0

-- After a number of snoozes from a counter: the counter, and all `spin_loop` calls.
abbrev pub snoozes : ℕ → ℕ → ℕ × ℕ
snoozes zero c = (c, 0)
snoozes (suc n) c = let rest = snoozes n (snooze c).0 in (rest.0, spins (snooze c).1 + rest.1)

-- One more than the calls after which a new counter has come to `c`.
spent : ℕ → ℕ
spent c = 2 ^ (c - 64) + min c 64

snooze-spent :
    (c : ℕ) → c ≤ 72 → ((snooze c).0 ≤ 72) × (spent c + spins (snooze c).1 ≡ spent (snooze c).0)
unfolding snooze spent
snooze-spent c le = elim (dec_lt c 64) [
  | yes low ↦
      let z : c - 64 ≡ 0 = omega (arith, low) in
      let y : c + 1 - 64 ≡ 0 = omega (arith, low) in
      ground (arith, ap (λ n. 2 ^ n) z, ap (λ n. 2 ^ n) y)
  | no high ↦ elim (dec_lt c 72) [
    | yes low ↦
        let y : c + 1 - 64 ≡ suc (c - 64) = omega (arith, high) in
        ground (arith, ap (λ n. 2 ^ n) y ∙ two-pow-succ (c - 64))
    | no end ↦ ground arith
  ]
]

spent-le : (c : ℕ) → c ≤ 72 → spent c ≤ 320
unfolding spent
spent-le c le =
    let p : 2 ^ (c - 64) ≤ 2 ^ 8 = pow-le-pow_right (omega arith) {j = 8} (omega (arith, le)) in
    omega (arith, p)

snoozes-spent :
    (n c : ℕ)
    → c ≤ 72
    → ((snoozes n c).0 ≤ 72) × (spent c + (snoozes n c).1 ≡ spent (snoozes n c).0)
snoozes-spent zero c le = (le, omega arith)
snoozes-spent (suc n) c le =
    let (low, one) = snooze-spent c le in
    let (less, rest) = snoozes-spent n (snooze c).0 low in (less, omega (arith, one, rest))

-- The counter grows by 1 until it is at its limit.
snoozes-counter : (n c : ℕ) → c ≤ 72 → (snoozes n c).0 ≡ min (c + n) 72
unfolding snooze
snoozes-counter zero c le = omega (arith, le)
snoozes-counter (suc n) c le =
    let k : (snooze c).0 ≡ min (c + 1) 72 = ground arith in
    let (low, one) = snooze-spent c le in omega (arith, k, snoozes-counter n (snooze c).0 low, le)

bounded-ltb : (c : ℕ) → (snooze_bounded c).1 ≡ ltb c 72
unfolding snooze_bounded
bounded-ltb c = ground arith

-- A waiting loop that snoozes any number of times, from a new `Backoff` on, calls `spin_loop` at
-- most 319 times in all; its counter is the number of the snoozes, up to 72; and from then on each
-- snooze gives up the thread, and the bounded one says that the budget is used up.
pub snoozes_bounded :
    (n : ℕ)
    → ((snoozes n 0).1 ≤ 319)
      × ((snoozes n 0).0 ≡ min n 72)
      × (72 ≤ n → snooze (snoozes n 0).0 ≡ (72, yields))
      × ((snooze_bounded (snoozes n 0).0).1 ≡ ltb n 72)
unfolding snooze spent
snoozes_bounded n =
    let c = snoozes-counter n 0 (omega arith) in
    let (low, all) = snoozes-spent n 0 (omega arith) in
    let most = spent-le (snoozes n 0).0 low in
    let e : (snoozes n 0).0 ≡ min n 72 = omega (arith, c) in
    let one : spent 0 ≡ 1 = refl in
    (
      omega (arith, all, most, one),
      e,
      (λ le. let m : min n 72 ≡ 72 = omega (arith, le) in ap snooze (e ∙ m)),
      bounded-ltb (snoozes n 0).0 ∙ ap (λ m. ltb m 72) e ∙ ground arith,
    )
