-- ===== src/Refine/Push.antt =====
-- A push appends to the list that a queue holds.
use rapidfire.Prelude.{
  ℕ, ◌+◌, ◌*◌, ◌/◌, ◌%◌, ◌≤◌, ◌<◌, ◌≡◌, ◌≢◌, ◌⊎◌, inl, inr, refl, some, List, [], ◌∷◌, ◌++◌, length,
  length-append, get_elem?, get_elem?-append_lt, get_elem?-append_length, get_elem?-lt, arith,
  All-map, dec_lt, ℕ_discrete, sym, ap, ◌∙◌,
}
use rapidfire.Layout.{written_tag, usize_mod, unbounded}
use rapidfire.Shared.{Block, Queue}
use rapidfire.Refine.Index.{pos}
use rapidfire.Refine.Holds.{Holds, free_list}
use rapidfire.Refine.Fill.{put_slot, put_slot-header, put_slot_self, put_slot-ne}

-- A push within a block.
module _ {A : Type 0} (q : Queue A) (first : ℕ) (at : ℕ → ℕ) (xs : List A)
    (held : Holds q first at xs) (v : A) (cached contended : ℕ)
    (older : (c : ℕ) × (cached ≡ pos c) × (c ≤ first))
    (room : pos (first + length xs) + 128 < usize_mod)
    (space : (q.capacity ≡ unbounded) ⊎ (length xs < q.capacity))
    (low : (first + length xs) % 63 < 62) where
  abbrev pub here : ℕ
  here = first + length xs

  abbrev pub memory' : ℕ → Block A
  memory' = put_slot q.memory (at (here / 63)) (here % 63) v (written_tag (here / 63))

  abbrev pub after : Queue A
  after = record q {
    memory = memory';
    tail = record {
      index = pos here + 1;
      block = q.tail.block;
      cached = cached;
      contended = contended;
    };
  }

  grown_length : length (xs ++ v ∷ []) ≡ length xs + 1
  grown_length = omega (arith, length-append xs (v ∷ []))

  -- The slot that is written is no slot of an older value.
  old_value :
      (i : ℕ)
      → i < length xs
      → (memory' (at ((first + i) / 63))).slots ((first + i) % 63)
        ≡ (q.memory (at ((first + i) / 63))).slots ((first + i) % 63)
  old_value i lt = put_slot-ne _ _ _ _ _ _ _ other
    where
      other : (at ((first + i) / 63) ≢ at (here / 63)) ⊎ ((first + i) % 63 ≢ here % 63)
      other = elim (dec_lt ((first + i) / 63) (here / 63)) [
        | yes p ↦ inl (held.apart ((first + i) / 63) (here / 63) (omega arith) p (omega arith))
        | no p ↦ inr (omega arith)
      ]

  new_value :
      (memory' (at (here / 63))).slots (here % 63)
      ≡ record { value = some v; state = written_tag (here / 63) }
  new_value = put_slot_self _ _ _ _ _

  plain-values :
      (i : ℕ) (x : A)
      → get_elem? (xs ++ v ∷ []) i ≡ some x
      → (((memory' (at ((first + i) / 63))).slots ((first + i) % 63)).value ≡ some x)
        × (((memory' (at ((first + i) / 63))).slots ((first + i) % 63)).state
            ≡ written_tag ((first + i) / 63))
  plain-values i x e = elim (dec_lt i (length xs)) [
    | yes lt ↦
        rw (old_value i lt) (held.values i x (sym (get_elem?-append_lt xs (v ∷ []) i lt) ∙ e))
    | no ge ↦
        let last : i ≡ length xs = omega (arith, grown_length, get_elem?-lt (xs ++ v ∷ []) i e) in
        let same : some v ≡ some x =
          sym (get_elem?-append_length xs v []) ∙ ap (get_elem? (xs ++ v ∷ [])) (sym last) ∙ e in
        rw (last, new_value) (same, refl)
  ]

  plain-tags :
      (a o l : ℕ)
      → a < q.allocated
      → o < 63
      → l * 64 < usize_mod
      → ((memory' a).slots o).state ≡ written_tag l
      → l * 63 + o < here + 1
  plain-tags a o l p k r e = elim (ℕ_discrete a (at (here / 63))) [
    | no other ↦ old (inl other)
    | yes same ↦ elim (ℕ_discrete o (here % 63)) [
      | no other ↦ old (inr other)
      | yes equal ↦ omega (arith, tag same equal)
    ]
  ]
    where
      tag : a ≡ at (here / 63) → o ≡ here % 63 → written_tag (here / 63) ≡ written_tag l
      tag same equal = ground (arith, new_value)

      old : ((a ≢ at (here / 63)) ⊎ (o ≢ here % 63)) → l * 63 + o < here + 1
      old other = omega (
        arith,
        held.tags a o l p k r (ap (λ c. c.state) (sym (put_slot-ne _ _ _ _ _ _ _ other)) ∙ e),
      )

  pub plain-Holds : Holds after first at (xs ++ v ∷ [])
  plain-Holds = record {
    in_range = omega (arith, grown_length);
    head_index = held.head_index;
    tail_index = ground (arith, grown_length);
    head_block = held.head_block;
    tail_block = held.tail_block ∙ ap at (omega (arith, grown_length));
    cached = older;
    starts = λ l p q.
        (put_slot-header _ _ _ _ _ (at l)).0 ∙ held.starts l p (omega (arith, grown_length));
    links = λ l p q.
        (put_slot-header _ _ _ _ _ (at l)).1 ∙ held.links l p (omega (arith, grown_length));
    alive = λ l p q. held.alive l p (omega (arith, grown_length));
    apart = λ k l p q r. held.apart k l p q (omega (arith, grown_length));
    values = plain-values;
    tags = λ a o l p q r e. omega (arith, plain-tags a o l p q r e, grown_length);
    free =
        All-map (λ a f. (f.0, λ l p q. f.1 l p (omega (arith, grown_length)))) (free_list q)
          held.free;
    distinct = held.distinct;
    none_retired = held.none_retired;
    ends =
        (put_slot-header _ _ _ _ _ (at ((first + length (xs ++ v ∷ [])) / 63))).1
        ∙ ap (λ l. (q.memory (at l)).next) (omega (arith, grown_length))
        ∙ held.ends;
    counted = omega (arith, grown_length, held.counted);
    within = λ h. ground (arith, grown_length);
  }
