-- ===== src/Sequential/Observe.antt =====
-- What `len`, `is_empty`, `is_empty_seqcst` and `claims_below` say of a queue that holds a list.
use rapidfire.Prelude.{
  ◌+◌, ◌≤◌, ◌≡◌, refl, not, ◌==◌, List, length, min, arith, ap, ◌∙◌, Bool-cases, inl, inr,
}
use rapidfire.Layout.{unbounded, items_between}
use rapidfire.Sync.{done}
use rapidfire.Shared.{Queue, Inner}
use rapidfire.Queue.Observe.{is_empty_seqcst, len, claims_below}
use rapidfire.Channel.Handles.{is_empty}
use rapidfire.Refine.Index.{pos, items_between-pos, items_between-next_pos}
use rapidfire.Refine.Holds.{Contains}
use rapidfire.Refine.Claim.{quiet}

-- The positions of the two ends count the values.
pub items_between-Contains :
    {A : Type 0} {q : Queue A} {xs : List A}
    → Contains q xs
    → items_between q.head.index q.tail.index ≡ length xs
items_between-Contains {q} {xs} (first, at, held) =
    ap (λ h. items_between h q.tail.index) held.head_index
    ∙ items_between-next_pos first q.tail.index
    ∙ ap (λ t. items_between (pos first) t) held.tail_index
    ∙ items_between-pos first (first + length xs)
    ∙ omega arith

pub length-capacity :
    {A : Type 0} {q : Queue A} {xs : List A} → Contains q xs → length xs ≤ q.capacity
length-capacity {q} {xs} (first, at, held) =
    let small = held.in_range in
    elim (Bool-cases (q.capacity == unbounded)) [
      | inl e ↦ let k : q.capacity ≡ unbounded = ground arith in omega arith
      | inr e ↦ held.within (ground arith)
    ]

pub is_empty_seqcst_lem :
    {A W : Type 0} {xs : List A} (s : Inner A W)
    → Contains s.queue xs
    → is_empty_seqcst (quiet s) ≡ done (length xs == 0) (quiet s)
unfolding is_empty_seqcst
is_empty_seqcst_lem s r = rw (items_between-Contains r) refl

-- For a thread that is alone, `len` is the number of the values, `is_empty` and `is_empty_seqcst`
-- say whether there are none, and a receiver finds values claimed below the live tail exactly when
-- there is one; none of them changes anything.
pub observers_agree :
    {A W : Type 0} {xs : List A} (s : Inner A W)
    → Contains s.queue xs
    → (len (quiet s) ≡ done (length xs) (quiet s))
      × (is_empty (quiet s) ≡ done (length xs == 0) (quiet s))
      × (is_empty_seqcst (quiet s) ≡ done (length xs == 0) (quiet s))
      × (claims_below s.queue.tail.index (quiet s) ≡ done (not (length xs == 0)) (quiet s))
unfolding len is_empty is_empty_seqcst claims_below
observers_agree {xs} s r =
    let e = items_between-Contains r in
    let k = length-capacity r in
    let m : min (length xs) s.queue.capacity ≡ length xs = omega arith in
    (rw (e, m) refl, rw (e, m) refl, rw e refl, rw e refl)
