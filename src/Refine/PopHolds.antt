-- ===== src/Refine/PopHolds.antt =====
-- A pop leaves the rest of the list that a queue holds.
use rapidfire.Prelude.{
  ℕ, suc, ◌+◌, ◌/◌, ◌%◌, ◌≤◌, ◌<◌, ◌≡◌, ◌≢◌, ◌⊎◌, inl, inr, Option, none, some, List, ◌∷◌, length,
  get_elem?, get_elem?-lt, arith, All, All-map, Distinct, dec_lt, sym, ap, ◌∙◌, subst, ℕ_discrete,
}
use rapidfire.Layout.{written_tag, add_usize}
use rapidfire.Shared.{Block, Queue}
use rapidfire.Refine.Holds.{Holds, Marked, free_blocks, free_list}
use rapidfire.Refine.Pop.{empty_slot, emptied, mark, mark_lem}
use rapidfire.Refine.Finish.{wipe, wipe_lem, put_back}

All-put_back :
    (P : ℕ → Type 0) (spare : Option ℕ) (ready : List ℕ) (b : ℕ)
    → P b
    → All P (free_blocks spare ready)
    → All P (free_blocks (put_back spare ready b).0 (put_back spare ready b).1)
All-put_back P none ready b h k = (h, k)
All-put_back P (some a) ready b h k = (k.0, (h, k.1))

Distinct-put_back :
    (spare : Option ℕ) (ready : List ℕ) (b : ℕ)
    → All (λ a. b ≢ a) (free_blocks spare ready)
    → Distinct (free_blocks spare ready)
    → Distinct (free_blocks (put_back spare ready b).0 (put_back spare ready b).1)
Distinct-put_back none ready b h k = (h, k)
Distinct-put_back (some a) ready b h k = (((λ e. h.0 (sym e)), k.0), (h.1, k.1))

length-put_back :
    (spare : Option ℕ) (ready : List ℕ) (b : ℕ)
    → length (free_blocks (put_back spare ready b).0 (put_back spare ready b).1)
      ≡ length (free_blocks spare ready) + 1
length-put_back none ready b = omega arith
length-put_back (some a) ready b = omega arith

module _ {A : Type 0} (q : Queue A) (first : ℕ) (at : ℕ → ℕ) (x : A) (xs : List A)
    (held : Holds q first at (x ∷ xs)) where
  abbrev pub drained : ℕ → Block A
  drained = empty_slot q.memory (at (first / 63)) (first % 63)

  same_end : first + 1 + length xs ≡ first + suc (length xs)
  same_end = omega arith

  old_value :
      (i : ℕ)
      → i < length xs
      → (drained (at ((first + 1 + i) / 63))).slots ((first + 1 + i) % 63)
        ≡ (q.memory (at ((first + 1 + i) / 63))).slots ((first + 1 + i) % 63)
  old_value i lt = (emptied q.memory _ _ _ _).4 other
    where
      other : (at ((first + 1 + i) / 63) ≢ at (first / 63)) ⊎ ((first + 1 + i) % 63 ≢ first % 63)
      other = elim (dec_lt (first / 63) ((first + 1 + i) / 63)) [
        | yes p ↦ inl (λ e.
            held.apart (first / 63) ((first + 1 + i) / 63) (omega arith) p (omega arith) (sym e))
        | no p ↦ inr (omega arith)
      ]

  rest-values :
      (i : ℕ) (y : A)
      → get_elem? xs i ≡ some y
      → (((drained (at ((first + 1 + i) / 63))).slots ((first + 1 + i) % 63)).value ≡ some y)
        × (((drained (at ((first + 1 + i) / 63))).slots ((first + 1 + i) % 63)).state
            ≡ written_tag ((first + 1 + i) / 63))
  rest-values i y e = rw (old_value i (get_elem?-lt xs i e)) (
      let shift : first + suc i ≡ first + 1 + i = omega arith in
      rw shift at (held.values (suc i) y e))

  -- Memory whose blocks differ from the drained ones in their marks only.
  abbrev pub Drained : (ℕ → Block A) → Type 0
  Drained m =
      (b : ℕ)
      → ((m b).start ≡ (drained b).start)
        × ((m b).next ≡ (drained b).next)
        × ((m b).slots ≡ (drained b).slots)

  header-plain :
      (m : ℕ → Block A)
      → Drained m
      → (l : ℕ)
      → ((m (at l)).start ≡ (q.memory (at l)).start) × ((m (at l)).next ≡ (q.memory (at l)).next)
  header-plain m same l =
      let e = emptied q.memory (at (first / 63)) (first % 63) (at l) 0 in
      ((same (at l)).0 ∙ e.0, (same (at l)).1 ∙ e.1)

  -- Not the last slot of its block.
  pub plain-Holds :
      (m : ℕ → Block A)
      → Drained m
      → first % 63 < 62
      → Holds
          (record q { head = record q.head { index = add_usize q.head.index 1 }; memory = m })
          (first + 1)
          at
          xs
  plain-Holds m same low = record {
    in_range = omega (arith, held.in_range);
    head_index = omega (arith, held.head_index, held.in_range);
    tail_index = rw same_end held.tail_index;
    head_block = held.head_block ∙ ap at (omega arith);
    tail_block = rw same_end held.tail_block;
    cached = (held.cached.0, held.cached.1, omega (arith, held.cached.2));
    starts = λ l p r. (header-plain m same l).0 ∙ held.starts l (omega arith) (omega arith);
    links = λ l p r. (header-plain m same l).1 ∙ held.links l (omega arith) (omega arith);
    alive = λ l p r. held.alive l (omega arith) (omega arith);
    apart = λ k l p r t. held.apart k l (omega arith) r (omega arith);
    values = λ i y e. rw (same (at ((first + 1 + i) / 63))).2 (rest-values i y e);
    tags = λ a o l p k r e. omega (
      arith,
      held.tags a o l p k r (
          sym (emptied q.memory (at (first / 63)) (first % 63) a o).3
          ∙ ap (λ f. (f o).state) (sym (same a).2)
          ∙ e),
    );
    free =
        All-map (λ a f. (f.0, λ l p r. f.1 l (omega arith) (omega arith))) (free_list q) held.free;
    distinct = held.distinct;
    none_retired = held.none_retired;
    ends =
        (header-plain m same ((first + 1 + length xs) / 63)).1
        ∙ ap (λ n. (q.memory (at (n / 63))).next) same_end
        ∙ held.ends;
    counted = omega (arith, held.counted);
    within = λ h. omega (arith, held.within h);
  }

  -- Memory in which the block of the slot has been reset.
  abbrev pub Reset : (ℕ → Block A) → Type 0
  Reset m =
      (b : ℕ)
      → ((m b).next ≡ (drained b).next)
        × ((m b).slots ≡ (drained b).slots)
        × (b ≢ at (first / 63) → m b ≡ drained b)

  away : (l : ℕ) → suc (first / 63) ≤ l → l ≤ (first + 1 + length xs) / 63 → at l ≢ at (first / 63)
  away l p r e = held.apart (first / 63) l (omega arith) (omega arith) (omega arith) (sym e)

  header-last :
      (m : ℕ → Block A)
      → Reset m
      → (l : ℕ) → suc (first / 63) ≤ l
      → l ≤ (first + 1 + length xs) / 63
      → ((m (at l)).start ≡ (q.memory (at l)).start) × ((m (at l)).next ≡ (q.memory (at l)).next)
  header-last m same l p r =
      let w = (same (at l)).2 (away l p r) in
      let e = emptied q.memory (at (first / 63)) (first % 63) (at l) 0 in
      (ap (λ b. b.start) w ∙ e.0, ap (λ b. b.next) w ∙ e.1)

  -- The last slot of its block.
  pub last-Holds :
      (m : ℕ → Block A)
      → Reset m
      → first % 63 ≡ 62
      → Holds
          (record q {
            head = record q.head {
              index = add_usize q.head.index 2;
              block = at (suc (first / 63));
            };
            memory = m;
            spare = (put_back q.spare q.pool.ready (at (first / 63))).0;
            pool = record {
              ready = (put_back q.spare q.pool.ready (at (first / 63))).1;
              retired = q.pool.retired;
            };
          })
          (first + 1)
          at
          xs
  last-Holds m same last = record {
    in_range = omega (arith, held.in_range);
    head_index = omega (arith, held.head_index, held.in_range);
    tail_index = rw same_end held.tail_index;
    head_block = ap at (omega arith);
    tail_block = rw same_end held.tail_block;
    cached = (held.cached.0, held.cached.1, omega (arith, held.cached.2));
    starts = λ l p r.
        (header-last m same l (omega arith) (omega arith)).0
        ∙ held.starts l (omega arith) (omega arith);
    links = λ l p r.
        (header-last m same l (omega arith) (omega arith)).1
        ∙ held.links l (omega arith) (omega arith);
    alive = λ l p r. held.alive l (omega arith) (omega arith);
    apart = λ k l p r t. held.apart k l (omega arith) r (omega arith);
    values = λ i y e. rw (same (at ((first + 1 + i) / 63))).1 (rest-values i y e);
    tags = λ a o l p k r e. omega (
      arith,
      held.tags a o l p k r (
          sym (emptied q.memory (at (first / 63)) (first % 63) a o).3
          ∙ ap (λ f. (f o).state) (sym (same a).1)
          ∙ e),
    );
    free =
        All-put_back _ q.spare q.pool.ready (at (first / 63))
          (
            held.alive (first / 63) (omega arith) (omega arith),
            λ l p r. away l (omega arith) (omega arith),
          )
          (All-map (λ a f. (f.0, λ l p r. f.1 l (omega arith) (omega arith))) (free_list q)
            held.free);
    distinct =
        Distinct-put_back q.spare q.pool.ready (at (first / 63))
          (All-map (λ a f. f.1 (first / 63) (omega arith) (omega arith)) (free_list q) held.free)
          held.distinct;
    none_retired = held.none_retired;
    ends =
        (header-last m same ((first + 1 + length xs) / 63) (omega arith) (omega arith)).1
        ∙ ap (λ n. (q.memory (at (n / 63))).next) same_end
        ∙ held.ends;
    counted = omega (arith, held.counted, length-put_back q.spare q.pool.ready (at (first / 63)));
    within = λ h. omega (arith, held.within h);
  }

  -- After `mark_read`.
  abbrev pub marked_read : ℕ → Block A
  marked_read = mark drained (at (first / 63)) (first % 63)

  pub marked_read-Drained : Drained marked_read
  marked_read-Drained b =
      let m = mark_lem drained (at (first / 63)) (first % 63) b 0 in (m.0, m.1, m.2)

  pub plain-Marked :
      Marked q first
      → first % 63 < 62
      → Marked
          (record q {
            head = record q.head { index = add_usize q.head.index 1 };
            memory = marked_read;
          })
          (first + 1)
  plain-Marked marked low o p =
      subst (λ b. (marked_read b).read_marks o ≢ 0) (sym held.head_block)
        (elim (ℕ_discrete o (first % 63)) [
          | yes e ↦ rw e λ z. absurd (omega (arith, (mark_lem drained b (first % 63) b o).3, z))
          | no ne ↦
              rw
                (
                  (mark_lem drained b (first % 63) b o).4 ne,
                  (emptied q.memory b (first % 63) b 0).2,
                )
                (subst (λ c. (q.memory c).read_marks o ≢ 0) held.head_block
                  (marked o (omega arith)))
        ])
    where
      b : ℕ
      b = at (first / 63)

  -- After `reset`.
  abbrev pub wiped : ℕ → Block A
  wiped = wipe drained (at (first / 63))

  pub wiped-Reset : Reset wiped
  wiped-Reset b = wipe_lem drained (at (first / 63)) b
