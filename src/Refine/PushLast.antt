-- ===== src/Refine/PushLast.antt =====
-- A push that takes the last slot of a block appends too, and links the next block.
use rapidfire.Prelude.{
  ℕ, suc, ◌+◌, ◌*◌, ◌/◌, ◌%◌, ◌≤◌, ◌<◌, ◌≡◌, ◌≢◌, ◌⊎◌, inl, inr, refl, none, some, List, [], ◌∷◌,
  ◌++◌, length, length-append, get_elem?, get_elem?-append_lt, get_elem?-append_length,
  get_elem?-lt, arith, All, All-map, Distinct, dec_lt, ℕ_discrete, sym, ap, ◌∙◌, update,
  update_self, update_ne,
}
use rapidfire.Layout.{written_tag, usize_mod, unbounded, add_usize, start_of, lap}
use rapidfire.Shared.{Block, Queue}
use rapidfire.Refine.Index.{pos}
use rapidfire.Refine.Holds.{Holds, free_list}
use rapidfire.Refine.Fill.{put_slot, put_slot-header, put_slot_self, put_slot-ne}
use rapidfire.Refine.Install.{link, link-start, link-next, link-rest}

-- `a` has been taken from the pool, or is new; `hi` is the last lap in the chain.
pub record Took {A : Type 0} (q : Queue A) (first : ℕ) (at : ℕ → ℕ) (hi a : ℕ) (q' : Queue A)
    : Type 0 where
  pub same_head : q'.head ≡ q.head
  pub same_capacity : q'.capacity ≡ q.capacity
  pub same_retired : q'.pool.retired ≡ q.pool.retired
  pub kept : (b : ℕ) → b ≢ a → q'.memory b ≡ q.memory b
  pub states :
      (o : ℕ)
      → (((q'.memory a).slots o).state ≡ 0)
        ⊎ ((a < q.allocated) × (((q'.memory a).slots o).state ≡ ((q.memory a).slots o).state))
  pub new : (l : ℕ) → first / 63 ≤ l → l ≤ hi → at l ≢ a
  pub bound : a < q'.allocated
  pub grew : q.allocated ≤ q'.allocated
  pub covers : (b : ℕ) → b < q'.allocated → b ≢ a → b < q.allocated
  pub free :
      All
        (λ b. (b < q.allocated) × (a ≢ b) × ((l : ℕ) → first / 63 ≤ l → l ≤ hi → at l ≢ b))
        (free_list q')
  pub distinct : Distinct (free_list q')
  pub spent : length (free_list q') + 1 + q.allocated ≡ length (free_list q) + q'.allocated

module _ {A : Type 0} (q : Queue A) (first : ℕ) (at : ℕ → ℕ) (xs : List A)
    (held : Holds q first at xs) (v : A) (room : pos (first + length xs) + 128 < usize_mod)
    (space : (q.capacity ≡ unbounded) ⊎ (length xs < q.capacity))
    (last : (first + length xs) % 63 ≡ 62) (a : ℕ) (q1 : Queue A)
    (took : Took q first at ((first + length xs) / 63) a q1) where
  abbrev pub here : ℕ
  here = first + length xs

  abbrev pub at' : ℕ → ℕ
  at' = update at (suc (here / 63)) a

  abbrev pub memory' : ℕ → Block A
  memory' =
      put_slot (link q1.memory (at (here / 63)) a (add_usize (start_of (pos here)) lap))
        (at (here / 63)) (here % 63) v (written_tag (here / 63))

  grown_length : length (xs ++ v ∷ []) ≡ length xs + 1
  grown_length = omega (arith, length-append xs (v ∷ []))

  next_lap : (first + length (xs ++ v ∷ [])) / 63 ≡ suc (here / 63)
  next_lap = omega (arith, grown_length)

  at-old : (l : ℕ) → l ≤ here / 63 → at' l ≡ at l
  at-old l p = update_ne at a (omega arith)

  at-new : at' (suc (here / 63)) ≡ a
  at-new = update_self at (suc (here / 63)) a

  a-ne-tail : a ≢ at (here / 63)
  a-ne-tail e = took.new (here / 63) (omega arith) (omega arith) (sym e)

  -- The slots of every block but the new one are as before, but for the one that is written.
  slots-old :
      (x p : ℕ)
      → (x ≢ at (here / 63)) ⊎ (p ≢ here % 63)
      → (memory' x).slots p ≡ (q1.memory x).slots p
  slots-old x p other =
      put_slot-ne _ _ _ _ _ x p other ∙ ap (λ f. f p) (link-rest q1.memory _ a _ x).0

  header-old :
      (l : ℕ)
      → first / 63 ≤ l
      → l ≤ here / 63
      → ((memory' (at l)).start ≡ (q.memory (at l)).start)
        × (l < here / 63 → (memory' (at l)).next ≡ (q.memory (at l)).next)
  header-old l p r =
      let fresh = took.new l p r in
      let same = took.kept (at l) fresh in
      let header =
        put_slot-header (link q1.memory (at (here / 63)) a (add_usize (start_of (pos here)) lap))
          (at (here / 63)) (here % 63) v (written_tag (here / 63)) (at l) in
      (
        header.0
            ∙ (link-start q1.memory (at (here / 63)) a _ (at l) a-ne-tail).1 fresh
            ∙ ap (λ b. b.start) same,
        λ lt.
            header.1
            ∙ (link-next q1.memory (at (here / 63)) a _ (at l)).1 fresh
                (held.apart l (here / 63) p lt (omega arith))
            ∙ ap (λ b. b.next) same,
      )

  header-new :
      ((memory' a).start ≡ suc (here / 63) * 64) × ((memory' (at (here / 63))).next ≡ some a)
  header-new = (
    (put_slot-header _ _ _ _ _ a).0
        ∙ (link-start q1.memory (at (here / 63)) a _ a a-ne-tail).0
        ∙ omega arith,
    (put_slot-header _ _ _ _ _ (at (here / 63))).1 ∙ (link-next q1.memory (at (here / 63)) a _ a).0,
  )

  end_new : (memory' a).next ≡ none
  end_new =
      (put_slot-header _ _ _ _ _ a).1 ∙ (link-next q1.memory (at (here / 63)) a _ a).2 a-ne-tail

  new_value :
      (memory' (at (here / 63))).slots (here % 63)
      ≡ record { value = some v; state = written_tag (here / 63) }
  new_value = put_slot_self _ _ _ _ _

  old_value :
      (i : ℕ)
      → i < length xs
      → (memory' (at ((first + i) / 63))).slots ((first + i) % 63)
        ≡ (q.memory (at ((first + i) / 63))).slots ((first + i) % 63)
  old_value i lt =
      slots-old _ _ other
      ∙ ap (λ b. b.slots ((first + i) % 63))
          (took.kept _ (took.new ((first + i) / 63) (omega arith) (omega arith)))
    where
      other : (at ((first + i) / 63) ≢ at (here / 63)) ⊎ ((first + i) % 63 ≢ here % 63)
      other = elim (dec_lt ((first + i) / 63) (here / 63)) [
        | yes p ↦ inl (held.apart ((first + i) / 63) (here / 63) (omega arith) p (omega arith))
        | no p ↦ inr (omega arith)
      ]

  last-values :
      (i : ℕ) (x : A)
      → get_elem? (xs ++ v ∷ []) i ≡ some x
      → (((memory' (at' ((first + i) / 63))).slots ((first + i) % 63)).value ≡ some x)
        × (((memory' (at' ((first + i) / 63))).slots ((first + i) % 63)).state
            ≡ written_tag ((first + i) / 63))
  last-values i x e = elim (dec_lt i (length xs)) [
    | yes lt ↦
        rw (at-old ((first + i) / 63) (omega arith), old_value i lt)
          (held.values i x (sym (get_elem?-append_lt xs (v ∷ []) i lt) ∙ e))
    | no ge ↦
        let end : i ≡ length xs = omega (arith, grown_length, get_elem?-lt (xs ++ v ∷ []) i e) in
        let same : some v ≡ some x =
          sym (get_elem?-append_length xs v []) ∙ ap (get_elem? (xs ++ v ∷ [])) (sym end) ∙ e in
        rw (end, at-old (here / 63) (omega arith), new_value) (same, refl)
  ]

  last-tags :
      (b o l : ℕ)
      → b < q1.allocated
      → o < 63
      → l * 64 < usize_mod
      → ((memory' b).slots o).state ≡ written_tag l
      → l * 63 + o < here + 1
  last-tags b o l p k r e = elim (ℕ_discrete b (at (here / 63))) [
    | no other ↦ old (inl other)
    | yes same ↦ elim (ℕ_discrete o (here % 63)) [
      | no other ↦ old (inr other)
      | yes equal ↦ omega (arith, tag same equal)
    ]
  ]
    where
      tag : b ≡ at (here / 63) → o ≡ here % 63 → written_tag (here / 63) ≡ written_tag l
      tag same equal = ground (arith, new_value)

      old : ((b ≢ at (here / 63)) ⊎ (o ≢ here % 63)) → l * 63 + o < here + 1
      old other =
          let before = ap (λ c. c.state) (sym (slots-old b o other)) ∙ e in
          elim (ℕ_discrete b a) [
            | yes new ↦ ground (arith, took.states o, held.tags a o l)
            | no ne ↦ ground (arith, took.kept b ne, took.covers b p ne, held.tags b o l)
          ]

  pub last-Holds :
      (cached contended : ℕ)
      → (c : ℕ) × (cached ≡ pos c) × (c ≤ first)
      → Holds
          (record q1 {
            memory = memory';
            tail = record {
              index = pos here + 1;
              block = a;
              cached = cached;
              contended = contended;
            };
          })
          first
          at'
          (xs ++ v ∷ [])
  last-Holds cached contended older = record {
    in_range = omega (arith, grown_length);
    head_index = ap (λ p. p.index) took.same_head ∙ held.head_index;
    tail_index = ground (arith, grown_length);
    head_block =
        ap (λ p. p.block) took.same_head
        ∙ held.head_block
        ∙ sym (at-old (first / 63) (omega arith));
    tail_block = sym (ap at' next_lap ∙ at-new);
    cached = older;
    starts = λ l p r. elim (dec_lt (here / 63) l) [
      | no old ↦
          rw (at-old l (omega arith))
            ((header-old l p (omega arith)).0 ∙ held.starts l p (omega arith))
      | yes new ↦
          let end : l ≡ suc (here / 63) = omega (arith, next_lap) in rw (end, at-new) header-new.0
    ];
    links = λ l p r. elim (dec_lt l (here / 63)) [
      | yes old ↦
          rw (at-old l (omega arith), at-old (suc l) (omega arith))
            ((header-old l p (omega arith)).1 old ∙ held.links l p old)
      | no new ↦
          let end : l ≡ here / 63 = omega (arith, next_lap) in
          rw (end, at-new, at-old (here / 63) (omega arith)) header-new.1
    ];
    alive = λ l p r. elim (dec_lt (here / 63) l) [
      | no old ↦
          rw (at-old l (omega arith)) (omega (arith, held.alive l p (omega arith), took.grew))
      | yes new ↦
          let end : l ≡ suc (here / 63) = omega (arith, next_lap) in rw (end, at-new) took.bound
    ];
    apart = λ k l p r t. elim (dec_lt (here / 63) l) [
      | no old ↦
          rw (at-old k (omega arith), at-old l (omega arith)) (held.apart k l p r (omega arith))
      | yes new ↦
          let end : l ≡ suc (here / 63) = omega (arith, next_lap) in
          rw (end, at-new, at-old k (omega arith)) (took.new k p (omega arith))
    ];
    values = last-values;
    tags = λ b o l p k r e. omega (arith, last-tags b o l p k r e, grown_length);
    free =
        All-map
          (λ b f. (
            omega (arith, f.0, took.grew),
            λ l p r. elim (dec_lt (here / 63) l) [
              | no old ↦ rw (at-old l (omega arith)) (f.2 l p (omega arith))
              | yes new ↦
                  let end : l ≡ suc (here / 63) = omega (arith, next_lap) in rw (end, at-new) f.1
            ],
          ))
          (free_list q1) took.free;
    distinct = took.distinct;
    none_retired = took.same_retired ∙ held.none_retired;
    ends = ap (λ b. (memory' b).next) (ap at' next_lap ∙ at-new) ∙ end_new;
    counted = omega (arith, grown_length, held.counted, took.spent);
    within = λ h. ground (arith, grown_length, took.same_capacity);
  }
