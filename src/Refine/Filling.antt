-- ===== src/Refine/Filling.antt =====
-- The second half of `push`, once a position is claimed, appends to the list that the queue holds.
use rapidfire.Prelude.{
  ℕ, ◌+◌, ◌/◌, ◌%◌, ◌≤◌, ◌<◌, ◌≡◌, ◌≢◌, ◌⊎◌, inl, inr, refl, not, ◌==◌, List, [], ◌∷◌, ◌++◌, length,
  All, All-zip, Distinct, arith, dec_lt, sym, ap, ◌∙◌, subst, update_self, update_ne, List-cases,
}
use rapidfire.Layout.{
  usize_mod, unbounded, offset_of, lap_of, add_usize, start_of, lap, written_tag,
}
use rapidfire.Sync.{done}
use rapidfire.Shared.{Block, Queue, Inner, set_queue}
use rapidfire.Queue.Push.{fill}
use rapidfire.Queue.Pool.{take_block}
use rapidfire.Refine.Index.{pos, offset_of-pos, lap_of-pos}
use rapidfire.Refine.Holds.{Holds, Marked, free_list}
use rapidfire.Refine.Claim.{quiet, with_tail}
use rapidfire.Refine.Fill.{
  with_memory, reused, grown, take_block-reuse, take_block-grow, fill-plain, put_slot,
  put_slot-header,
}
use rapidfire.Refine.Install.{fill-last, link, link-rest}
use rapidfire.Refine.Push.{after, plain-Holds}
use rapidfire.Refine.PushLast.{Took, last-Holds}

module _ {A W : Type 0} (s : Inner A W) (first : ℕ) (at : ℕ → ℕ) (xs : List A)
    (held : Holds s.queue first at xs) (i c d : ℕ) where
  reused-Took :
      (a : ℕ) (rest : List ℕ)
      → free_list s.queue ≡ a ∷ rest
      → Took s.queue first at ((first + length xs) / 63) a (reused (with_tail s i c d) rest).queue
  reused-Took a rest e = record {
    same_head = refl;
    same_capacity = refl;
    same_retired = refl;
    kept = λ b h. refl;
    states = λ o. inr (free.0.0, refl);
    new = free.0.1;
    bound = free.0.0;
    grew = omega arith;
    covers = λ b h k. h;
    free = All-zip (λ b ne f. (f.0, ne, f.1)) rest distinct.0 free.1;
    distinct = distinct.1;
    spent = let n = ap length e in omega (arith, n);
  }
    where
      free :
          All
            (λ b.
              (b < s.queue.allocated)
              × ((l : ℕ) → first / 63 ≤ l → l ≤ (first + length xs) / 63 → at l ≢ b))
            (a ∷ rest)
      free =
          subst
            (All (λ b.
              (b < s.queue.allocated)
              × ((l : ℕ) → first / 63 ≤ l → l ≤ (first + length xs) / 63 → at l ≢ b)))
            e held.free

      distinct : Distinct (a ∷ rest)
      distinct = subst Distinct e held.distinct

  grown-Took :
      free_list s.queue ≡ []
      → Took s.queue first at
          ((first + length xs) / 63)
          s.queue.allocated
          (grown (with_tail s i c d)).queue
  grown-Took e = record {
    same_head = refl;
    same_capacity = refl;
    same_retired = refl;
    kept = λ b h. update_ne s.queue.memory _ (λ p. h (sym p));
    states =
        λ o. inl (ap (λ b. (b.slots o).state) (update_self s.queue.memory s.queue.allocated _));
    new = λ l p r q. omega (arith, held.alive l p r);
    bound = omega arith;
    grew = omega arith;
    covers = λ b h k. omega arith;
    free = subst (All _) (sym e) tt;
    distinct = subst Distinct (sym e) tt;
    spent = omega arith;
  }

module _ {A W : Type 0} (s : Inner A W) (first : ℕ) (at : ℕ → ℕ) (xs : List A)
    (held : Holds s.queue first at xs) (room : pos (first + length xs) + 128 < usize_mod)
    (space : (s.queue.capacity ≡ unbounded) ⊎ (length xs < s.queue.capacity)) (cached contended : ℕ)
    (older : (c : ℕ) × (cached ≡ pos c) × (c ≤ first)) (fuel : ℕ) (flag : Inner A W → ℕ)
    (v : A) where
  abbrev pub claimed : Inner A W
  claimed = with_tail s (pos (first + length xs) + 1) cached contended

  abbrev pub Fills : Type 0
  Fills =
      (q' : Queue A) × (at' : ℕ → ℕ) × (fill fuel flag v (pos (first + length xs)) (quiet claimed)
        ≡ done (not (flag claimed == 0)) (quiet (set_queue (λ _. q') s)))
      × Holds q' first at' (xs ++ v ∷ [])
      × (Marked s.queue first → Marked q' first)
      × (q'.capacity ≡ s.queue.capacity)
      × (q'.tail.index ≡ pos (first + length xs) + 1)

  start_here : (s.queue.memory s.queue.tail.block).start ≡ start_of (pos (first + length xs))
  start_here =
      ap (λ b. (s.queue.memory b).start) held.tail_block
      ∙ held.starts ((first + length xs) / 63) (omega arith) (omega arith)
      ∙ omega arith

  same_slot :
      (m : ℕ → ℕ → Block A)
      → put_slot
          (m s.queue.tail.block)
          s.queue.tail.block
          (offset_of (pos (first + length xs)))
          v
          (written_tag (lap_of (pos (first + length xs))))
        ≡ put_slot
            (m (at ((first + length xs) / 63)))
            (at ((first + length xs) / 63))
            ((first + length xs) % 63)
            v
            (written_tag ((first + length xs) / 63))
  same_slot m i =
      put_slot (m (held.tail_block i)) (held.tail_block i) (offset_of-pos (first + length xs) i) v
        (written_tag (lap_of-pos (first + length xs) i))

  fills-plain : (first + length xs) % 63 < 62 → Fills
  fills-plain low = (
    after s.queue first at xs held v cached contended older room space low,
    at,
    fill-plain fuel flag v (pos (first + length xs)) claimed (omega arith) start_here ∙ (λ i.
        done (not (flag claimed == 0))
          (quiet (with_memory claimed (same_slot (λ _. s.queue.memory) i)))),
    plain-Holds s.queue first at xs held v cached contended older room space low,
    λ marked o p.
        rw
          (put_slot-header s.queue.memory (at ((first + length xs) / 63)) ((first + length xs) % 63)
            v (written_tag ((first + length xs) / 63)) s.queue.head.block).2
          (marked o p),
    refl,
    refl,
  )

  fills-last :
      (first + length xs) % 63 ≡ 62
      → (a : ℕ) (q1 : Queue A) → q1.tail ≡ claimed.queue.tail
      → take_block (quiet claimed) ≡ done a (quiet (set_queue (λ _. q1) s))
      → Took s.queue first at ((first + length xs) / 63) a q1
      → Fills
  fills-last last a q1 same e took = (
    _,
    _,
    fill-last fuel flag v (pos (first + length xs)) a claimed (set_queue (λ _. q1) s) (omega arith)
          start_here e
        ∙ (λ i. done (not (flag claimed == 0)) (
            quiet (
              set_queue
                (λ _. record q1 {
                  memory =
                      same_slot
                        (λ b.
                          link q1.memory b a (add_usize (start_of (pos (first + length xs))) lap))
                        i;
                  tail = record (same i) { block = a };
                })
                s))),
    last-Holds s.queue first at xs held v room space last a q1 took cached contended older,
    λ marked o p. rw marks (marked o p),
    took.same_capacity,
    refl,
  )
    where
      ne : q1.head.block ≢ a
      ne = rw (took.same_head, held.head_block) (took.new (first / 63) (omega arith) (omega arith))

      marks :
          (put_slot
            (link q1.memory
              (at ((first + length xs) / 63))
              a
              (add_usize (start_of (pos (first + length xs))) lap))
            (at ((first + length xs) / 63))
            ((first + length xs) % 63)
            v
            (written_tag ((first + length xs) / 63))
            q1.head.block).read_marks
          ≡ (s.queue.memory s.queue.head.block).read_marks
      marks =
          (put_slot-header _ _ _ _ _ q1.head.block).2
          ∙ (link-rest q1.memory (at ((first + length xs) / 63)) a _ q1.head.block).1
          ∙ ap (λ b. b.read_marks) (took.kept q1.head.block ne)
          ∙ ap (λ p. (s.queue.memory p.block).read_marks) took.same_head

  -- The rest of `push` after its claim.
  pub fills : Fills
  fills = elim (dec_lt ((first + length xs) % 63) 62) [
    | yes low ↦ fills-plain low
    | no high ↦ elim (List-cases (free_list s.queue)) [
      | inl e ↦
          fills-last (omega arith) s.queue.allocated (grown claimed).queue refl
            (take_block-grow claimed e held.none_retired) (grown-Took s first at xs held _ _ _ e)
      | inr (a, rest, e) ↦
          fills-last (omega arith) a (reused claimed rest).queue refl
            (take_block-reuse claimed a rest e) (reused-Took s first at xs held _ _ _ a rest e)
    ]
  ]
