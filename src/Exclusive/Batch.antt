-- ===== src/Exclusive/Batch.antt =====
-- `pop_single_batch` of src/queue.rs, for a thread that is alone, takes a prefix of the list.
use rapidfire.Prelude.{
  ℕ, suc, ◌+◌, ◌/◌, ◌%◌, ◌≤◌, ◌<◌, ◌≡◌, List, [], ◌∷◌, ◌++◌, length, length-append, get_elem?-lt,
  get_elem?-append_lt, arith, sym, ap, ◌∙◌,
}
use rapidfire.Layout.{written_tag, add_usize}
use rapidfire.Shared.{Queue}
use rapidfire.Refine.Holds.{Holds}
use rapidfire.Refine.Pop.{empty_slot}
use rapidfire.Refine.PopHolds.{last-Holds}
use rapidfire.Refine.Finish.{put_back}
use rapidfire.Exclusive.Single.{park, park_lem}
use rapidfire.Exclusive.Ready.{empty_slots, empty_slots-suc, IsReady, after_batch, batch-Holds}

-- The written slots of the head's block, up to a number of slots.
pub Holds-IsReady :
    {A : Type 0} (ys zs : List A) (q : Queue A) (first : ℕ) (at : ℕ → ℕ) (n : ℕ)
    → Holds q first at (ys ++ zs)
    → first % 63 + n ≤ 63
    → length ys ≤ n
    → (length ys < n → zs ≡ [])
    → IsReady q.memory (at (first / 63)) (first % 63) n (written_tag (first / 63)) ys
Holds-IsReady ys zs q first at n held fits most end = record {
  fits = fits;
  most = most;
  values = λ i y e.
      let lt = get_elem?-lt ys i e in
      let l : (first + i) / 63 ≡ first / 63 = omega arith in
      let o : (first + i) % 63 ≡ first % 63 + i = omega arith in
      rw (l, o) at (held.values i y (get_elem?-append_lt ys zs i lt ∙ e));
  stops = λ lt e.
      let n = ap length (end lt) in
      absurd (
        omega (
          arith,
          length-append ys zs,
          held.in_range,
          held.tags (at (first / 63)) (first % 63 + length ys) (first / 63)
              (held.alive (first / 63) (omega arith) (omega arith)) (omega arith)
              (omega (arith, held.in_range)) e,
        ));
}

-- The queue after all written slots up to the end of the head's block have been taken.
abbrev pub after_block : {A : Type 0} → Queue A → (ℕ → ℕ) → ℕ → ℕ → Queue A
after_block q at first n = record q {
  head = record q.head { index = add_usize q.head.index (n + 1); block = at (suc (first / 63)) };
  memory = park (empty_slots q.memory (at (first / 63)) (first % 63) n) (at (first / 63));
  spare = (put_back q.spare q.pool.ready (at (first / 63))).0;
  pool = record {
    ready = (put_back q.spare q.pool.ready (at (first / 63))).1;
    retired = q.pool.retired;
  };
}

pub block-Holds :
    {A : Type 0} (ys : List A) (y : A) (zs : List A) (q : Queue A) (first : ℕ) (at : ℕ → ℕ)
    → Holds q first at (ys ++ y ∷ zs)
    → first % 63 + length ys ≡ 62
    → Holds (after_block q at first (suc (length ys))) (first + suc (length ys)) at zs
block-Holds ys y zs q first at held last =
    let k : ℕ = first + length ys in
    let q1 = after_batch q at first (length ys) in
    let held1 = batch-Holds ys (y ∷ zs) q first at held (omega arith) in
    let l : k / 63 ≡ first / 63 = omega arith in
    let o : k % 63 ≡ first % 63 + length ys = omega arith in
    let e : add_usize q1.head.index 2 ≡ add_usize q.head.index (suc (length ys) + 1) =
      omega arith in
    let f : k + 1 ≡ first + suc (length ys) = omega arith in
    let m : empty_slot q1.memory (at (k / 63)) (k % 63)
        ≡ empty_slots q.memory (at (first / 63)) (first % 63) (suc (length ys)) =
      (λ i. empty_slot q1.memory (at (l i)) (o i))
      ∙ sym (empty_slots-suc q.memory (at (first / 63)) (first % 63) (length ys)) in
    coe 0 1
      (i.
        Holds
          (record q {
            head = record q.head { index = e i; block = at (suc (l i)) };
            memory = park (m i) (at (l i));
            spare = (put_back q.spare q.pool.ready (at (l i))).0;
            pool = record {
              ready = (put_back q.spare q.pool.ready (at (l i))).1;
              retired = q.pool.retired;
            };
          })
          (f i) at zs)
      (last-Holds q1 k at y zs held1
        (park (empty_slot q1.memory (at (k / 63)) (k % 63)) (at (k / 63)))
        (λ b. park_lem _ (at (k / 63)) b) (omega arith))
