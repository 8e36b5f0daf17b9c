-- ===== src/Exclusive/Ready.antt =====
-- `take_ready`, the loop of `pop_single_batch` in src/queue.rs: it moves the written values out of
-- consecutive slots of one block.
use rapidfire.Prelude.{
  ℕ, zero, suc, ◌+◌, ◌/◌, ◌%◌, ◌≤◌, ◌<◌, ◌≡◌, ◌≢◌, refl, some, List, [], ◌∷◌, ◌++◌, length,
  get_elem?, arith, inr, ap, ◌∙◌,
}
use rapidfire.Layout.{add_usize}
use rapidfire.Sync.{done}
use rapidfire.Shared.{Block, Queue, Inner, set_queue}
use rapidfire.Queue.Memory.{load_state, take_value}
use rapidfire.Queue.Single.{take_ready}
use rapidfire.Refine.Holds.{Holds}
use rapidfire.Refine.Claim.{quiet}
use rapidfire.Refine.Pop.{empty_slot, emptied}
use rapidfire.Refine.PopHolds.{plain-Holds}

module _ {A : Type 0} where
  -- Memory after the values of some slots from an offset on were moved out.
  pub empty_slots : (ℕ → Block A) → ℕ → ℕ → ℕ → ℕ → Block A
  empty_slots m b o zero = m
  empty_slots m b o (suc n) = empty_slots (empty_slot m b o) b (o + 1) n

  pub empty_slots-suc :
      (m : ℕ → Block A) (b o n : ℕ)
      → empty_slots m b o (suc n) ≡ empty_slot (empty_slots m b o n) b (o + n)
  unfolding empty_slots
  empty_slots-suc m b o zero = ap (empty_slot m b) (omega arith)
  empty_slots-suc m b o (suc n) =
      empty_slots-suc (empty_slot m b o) b (o + 1) n
      ∙ ap (empty_slot (empty_slots (empty_slot m b o) b (o + 1) n) b) (omega arith)

  pub next-empty_slots : (m : ℕ → Block A) (b o n x : ℕ) → (empty_slots m b o n x).next ≡ (m x).next
  unfolding empty_slots
  next-empty_slots m b o zero x = refl
  next-empty_slots m b o (suc n) x =
      next-empty_slots (empty_slot m b o) b (o + 1) n x ∙ (emptied m b o x 0).1

  -- The written values of a block from an offset on, up to a number of slots.
  pub record IsReady (m : ℕ → Block A) (b o n tag : ℕ) (ys : List A) : Type 0 where
    pub fits : o + n ≤ 63
    pub most : length ys ≤ n
    pub values :
        (i : ℕ) (y : A)
        → get_elem? ys i ≡ some y
        → (((m b).slots (o + i)).value ≡ some y) × (((m b).slots (o + i)).state ≡ tag)
    pub stops : length ys < n → ((m b).slots (o + length ys)).state ≢ tag

  IsReady-tail :
      (m : ℕ → Block A) (b o n tag : ℕ) (y : A) (ys : List A)
      → IsReady m b o (suc n) tag (y ∷ ys)
      → IsReady (empty_slot m b o) b (o + 1) n tag ys
  IsReady-tail m b o n tag y ys h = record {
    fits = omega (arith, h.fits);
    most = omega (arith, h.most);
    values = λ i x e.
        let shift : o + suc i ≡ o + 1 + i = omega arith in
        let same = (emptied m b o b (o + 1 + i)).4 (inr (omega arith)) in
        rw same (rw shift at (h.values (suc i) x e));
    stops = λ lt.
        let shift : o + suc (length ys) ≡ o + 1 + length ys = omega arith in
        let same = (emptied m b o b (o + 1 + length ys)).3 in
        rw (same, ← shift) (h.stops (omega arith));
  }

module _ {A W : Type 0} where
  abbrev pub with_slots : Inner A W → ℕ → ℕ → ℕ → Inner A W
  with_slots s b o n = set_queue (λ q. record q { memory = empty_slots q.memory b o n }) s

  took : Inner A W → ℕ → ℕ → Inner A W
  took s b o = set_queue (λ q. record q { memory = empty_slot q.memory b o }) s

  pub take_ready_lem :
      (n b o tag : ℕ) (ys : List A) (s : Inner A W)
      → IsReady s.queue.memory b o n tag ys
      → take_ready n b o tag (quiet s) ≡ done ys (quiet (with_slots s b o (length ys)))
  unfolding take_ready empty_slots load_state take_value took empty_slot
  take_ready_lem zero b o tag [] s h = refl
  take_ready_lem zero b o tag (y ∷ ys) s h = absurd (omega (arith, h.most))
  take_ready_lem (suc n) b o tag [] s h =
      let z : o + 0 ≡ o = omega arith in
      let stop = rw z at (h.stops (omega arith)) in
      let low : o < 63 = omega (arith, h.fits) in ground arith
  take_ready_lem (suc n) b o tag (y ∷ ys) s h =
      let z : o + 0 ≡ o = omega arith in
      let first = rw z at (h.values 0 y refl) in
      let low : o < 63 = omega (arith, h.fits) in
      ground (
        arith,
        take_ready_lem n b (o + 1) tag ys (took s b o)
            (IsReady-tail s.queue.memory b o n tag y ys h),
      )

-- The queue after values within a block have been taken.
abbrev pub after_batch : {A : Type 0} → Queue A → (ℕ → ℕ) → ℕ → ℕ → Queue A
after_batch q at first n = record q {
  head = record q.head { index = add_usize q.head.index n };
  memory = empty_slots q.memory (at (first / 63)) (first % 63) n;
}

-- Values taken before the last slot of their block leave the rest of the list.
pub batch-Holds :
    {A : Type 0} (ys zs : List A) (q : Queue A) (first : ℕ) (at : ℕ → ℕ)
    → Holds q first at (ys ++ zs)
    → first % 63 + length ys < 63
    → Holds (after_batch q at first (length ys)) (first + length ys) at zs
unfolding empty_slots
batch-Holds [] zs q first at held low =
    let e : q.head.index ≡ add_usize q.head.index 0 =
      omega (arith, held.head_index, held.in_range) in
    let z : first ≡ first + 0 = omega arith in
    coe 0 1 (i. Holds (record q { head = record q.head { index = e i } }) (z i) at zs) held
batch-Holds (y ∷ ys) zs q first at held low =
    let q1 = record q {
      head = record q.head { index = add_usize q.head.index 1 };
      memory = empty_slot q.memory (at (first / 63)) (first % 63);
    } in
    let e : add_usize q1.head.index (length ys) ≡ add_usize q.head.index (suc (length ys)) =
      omega arith in
    let l : at ((first + 1) / 63) ≡ at (first / 63) = ap at (omega arith) in
    let o : (first + 1) % 63 ≡ first % 63 + 1 = omega arith in
    let f : first + 1 + length ys ≡ first + suc (length ys) = omega arith in
    coe 0 1
      (i.
        Holds
          (record q {
            head = record q.head { index = e i };
            memory = empty_slots q1.memory (l i) (o i) (length ys);
          })
          (f i) at zs)
      (batch-Holds ys zs q1 (first + 1) at
        (plain-Holds q first at y (ys ++ zs) held _ (λ b. (refl, refl, refl)) (omega arith))
        (omega arith))
