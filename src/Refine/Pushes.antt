-- ===== src/Refine/Pushes.antt =====
-- `push` of src/queue.rs, for a thread that is alone, is the push of the FIFO.
use rapidfire.Prelude.{
  ℕ, suc, ◌+◌, ◌≤◌, ◌<◌, ◌≡◌, ◌≢◌, ◌⊎◌, inl, inr, refl, Bool, true, false, not, ◌==◌, if◌then◌else◌,
  List, [], ◌∷◌, ◌++◌, length, ok, err, arith, Bool-cases, subst,
}
use rapidfire.Layout.{usize_mod, unbounded}
use rapidfire.Sync.{done}
use rapidfire.Shared.{Queue, Inner, set_queue}
use rapidfire.Queue.Push.{claim, push}
use rapidfire.Fifo
use rapidfire.Refine.Index.{pos}
use rapidfire.Refine.Holds.{Holds, Marked, Represents, Contains}
use rapidfire.Refine.Claim.{quiet, with_tail, Claims, claim-Claims}
use rapidfire.Refine.Filling.{fills}

module _ {A W : Type 0} (s : Inner A W) (first : ℕ) (at : ℕ → ℕ) (xs : List A)
    (held : Holds s.queue first at xs) (room : s.queue.tail.index + 256 < usize_mod) (fuel : ℕ)
    (flag : Inner A W → ℕ)
    (blind : (f : Queue A → Queue A) (t : Inner A W) → flag (set_queue f t) ≡ flag t) (v : A) where
  small : pos (first + length xs) + 128 < usize_mod
  small = ground (arith, held.tail_index)

  claims : Claims s first (length xs) (claim (suc (suc fuel)) (quiet s))
  claims = claim-Claims held fuel (omega (arith, small))

  open claims use {cached, contended, older}

  abbrev PushAnswer : Bool × List A → Type 0
  PushAnswer (accepted, ys) =
      (q' : Queue A) × (push (suc (suc fuel)) flag v (quiet s)
        ≡ done (if accepted then ok (not (flag s == 0)) else err v) (quiet (set_queue (λ _. q') s)))
      × ((at' : ℕ → ℕ) × Holds q' first at' ys × (Marked s.queue first → Marked q' first))
      × (q'.capacity ≡ s.queue.capacity)
      × (q'.tail.index ≤ s.queue.tail.index + 2)

  push_room :
      ((s.queue.capacity ≡ unbounded) ⊎ (length xs < s.queue.capacity))
      → PushAnswer (true, xs ++ v ∷ [])
  unfolding push
  push_room space =
      let (q', at', e, h, m, c, i) =
        fills s first at xs held small space cached contended older (suc (suc fuel)) flag v in
      (
        q',
        ground (
          arith,
          claims.claimed space,
          e,
          blind (λ q. (with_tail s (pos (first + length xs) + 1) cached contended).queue) s,
        ),
        (at', h, m),
        c,
        ground (arith, i, held.tail_index),
      )

  push_full : s.queue.capacity ≢ unbounded → s.queue.capacity ≤ length xs → PushAnswer (false, xs)
  unfolding push
  push_full bounded full = (
    _,
    ground (arith, claims.refused bounded full),
    (at, full-Holds, λ marked. marked),
    refl,
    ground (arith, held.tail_index),
  )
    where
      full-Holds : Holds (with_tail s (pos (first + length xs)) cached contended).queue first at xs
      full-Holds = record {
        in_range = held.in_range;
        head_index = held.head_index;
        tail_index = ground arith;
        head_block = held.head_block;
        tail_block = held.tail_block;
        cached = older;
        starts = held.starts;
        links = held.links;
        alive = held.alive;
        apart = held.apart;
        values = held.values;
        tags = held.tags;
        free = held.free;
        distinct = held.distinct;
        none_retired = held.none_retired;
        ends = held.ends;
        counted = held.counted;
        within = held.within;
      }

  pub push_any : PushAnswer (Fifo.push s.queue.capacity xs v)
  push_any = elim (Bool-cases (Fifo.is_full s.queue.capacity xs)) [
    | inl full ↦
        subst PushAnswer {x = (false, xs)} (rw full) (push_full (ground arith) (ground arith))
    | inr open_ ↦ subst PushAnswer {x = (true, xs ++ v ∷ [])} (rw open_) (push_room (ground arith))
  ]

-- `push`, for a thread that is alone, on a queue that holds `xs` and is far from the end of the
-- positions, with fuel for two rounds of its claim: it gives the value back if the FIFO is full and
-- else takes it in and reports whether the wake flag is set; then the queue holds what the FIFO's
-- push makes of `xs`. The capacity stays, the tail index grows by 2 at most, and nothing but the
-- queue changes.
pub push_refines :
    {A W : Type 0} (s : Inner A W) {xs : List A} (fuel : ℕ) (flag : Inner A W → ℕ) (v : A)
    → Represents s.queue xs
    → s.queue.tail.index + 256 < usize_mod
    → ((f : Queue A → Queue A) (t : Inner A W) → flag (set_queue f t) ≡ flag t)
    → (q' : Queue A) × (push (suc (suc fuel)) flag v (quiet s)
        ≡ done
            (if (Fifo.push s.queue.capacity xs v).0 then ok (not (flag s == 0)) else err v)
            (quiet (set_queue (λ _. q') s)))
      × Represents q' (Fifo.push s.queue.capacity xs v).1
      × (q'.capacity ≡ s.queue.capacity)
      × (q'.tail.index ≤ s.queue.tail.index + 2)
push_refines s {xs} fuel flag v (first, at, held, marked) room blind =
    let (q', e, (at', h, m), c, t) = push_any s first at xs held room fuel flag blind v in
    (q', e, (first, at', h, m marked), c, t)

-- The same whether or not the readers of the queue leave marks.
pub push-Contains :
    {A W : Type 0} (s : Inner A W) {xs : List A} (fuel : ℕ) (flag : Inner A W → ℕ) (v : A)
    → Contains s.queue xs
    → s.queue.tail.index + 256 < usize_mod
    → ((f : Queue A → Queue A) (t : Inner A W) → flag (set_queue f t) ≡ flag t)
    → (q' : Queue A) × (push (suc (suc fuel)) flag v (quiet s)
        ≡ done
            (if (Fifo.push s.queue.capacity xs v).0 then ok (not (flag s == 0)) else err v)
            (quiet (set_queue (λ _. q') s)))
      × Contains q' (Fifo.push s.queue.capacity xs v).1
      × (q'.capacity ≡ s.queue.capacity)
      × (q'.tail.index ≤ s.queue.tail.index + 2)
push-Contains s {xs} fuel flag v (first, at, held) room blind =
    let (q', e, (at', h, m), c, t) = push_any s first at xs held room fuel flag blind v in
    (q', e, (first, at', h), c, t)
