-- ===== src/Exclusive/Waking.antt =====
-- `try_recv_many_ready` of src/mpsc.rs, for a thread that is alone: what it takes and whom it wakes.
use rapidfire.Prelude.{
  ℕ, zero, suc, ◌+◌, ◌≤◌, ◌≡◌, ◌≢◌, refl, ◌==◌, if◌then◌else◌, List, [], ◌∷◌, ◌++◌, length, take,
  drop, min, arith, ap, sym, ◌∙◌, Bool-cases, inl, inr,
}
use rapidfire.Layout.{unbounded}
use rapidfire.Sync.{done, bind-done, return}
use rapidfire.Shared.{WaiterList, Inner, set_queue}
use rapidfire.Queue.Single.{pop_single_batch}
use rapidfire.Channel.Waiters.{sending, waiting, notify_many, drop_many, sub_usize}
use rapidfire.Mpsc.Receiver.{try_recv_many_ready}
use rapidfire.Refine.Holds.{Contains}
use rapidfire.Refine.Claim.{quiet}
use rapidfire.Parked.Invariant.{IsParked, drop_many-IsParked}
use rapidfire.Parked.Wakes.{calls, waking, take-min, notify_many_wakes}
use rapidfire.Exclusive.Single.{wake_count}
use rapidfire.Exclusive.Batches.{pop_single_batch_refines}

module _ {ℓ} {B : Type ℓ} where
  pub take-take : (m n : ℕ) (l : List B) → take m l ++ take n (drop m l) ≡ take (m + n) l
  take-take zero n l = let e : 0 + n ≡ n = omega arith in ap (λ k. take k l) (sym e)
  take-take (suc m) zero [] = let e : suc m + 0 ≡ suc m = omega arith in ap (λ k. take k []) (sym e)
  take-take (suc m) (suc n) [] =
      let e : suc m + suc n ≡ suc (m + suc n) = omega arith in ap (λ k. take k []) (sym e)
  take-take (suc m) n (x ∷ l) =
      let e : suc m + n ≡ suc (m + n) = omega arith in
      ap (λ k. x ∷ k) (take-take m n l) ∙ ap (λ k. take k (x ∷ l)) (sym e)

  pub drop-drop : (m n : ℕ) (l : List B) → drop n (drop m l) ≡ drop (m + n) l
  drop-drop zero n l = let e : 0 + n ≡ n = omega arith in ap (λ k. drop k l) (sym e)
  drop-drop (suc m) zero [] = let e : suc m + 0 ≡ suc m = omega arith in ap (λ k. drop k []) (sym e)
  drop-drop (suc m) (suc n) [] =
      let e : suc m + suc n ≡ suc (m + suc n) = omega arith in ap (λ k. drop k []) (sym e)
  drop-drop (suc m) n (x ∷ l) =
      let e : suc m + n ≡ suc (m + n) = omega arith in
      drop-drop m n l ∙ ap (λ k. drop k (x ∷ l)) (sym e)

  drop-min : (n : ℕ) (l : List B) → drop (min n (length l)) l ≡ drop n l
  drop-min zero l = let e : min 0 (length l) ≡ 0 = omega arith in ap (λ k. drop k l) e
  drop-min (suc n) [] = let e : min (suc n) 0 ≡ 0 = omega arith in ap (λ k. drop k []) e
  drop-min (suc n) (x ∷ l) =
      let e : min (suc n) (suc (length l)) ≡ suc (min n (length l)) = omega arith in
      ap (λ k. drop k (x ∷ l)) e ∙ drop-min n l

calls-append :
    {W : Type 0} (l m : WaiterList W) (k : List W) → calls m (calls l k) ≡ calls (l ++ m) k
calls-append [] m k = refl
calls-append ((id, w) ∷ l) m k = calls-append l m (w ∷ k)

-- How many of the waiting senders are woken, if so many values are taken.
abbrev pub to_wake : ℕ → ℕ → ℕ
to_wake capacity count = if capacity == unbounded then 0 else count

to_wake-add : (c m n : ℕ) → to_wake c m + to_wake c n ≡ to_wake c (m + n)
to_wake-add c m n = elim (Bool-cases (c == unbounded)) [
  | inl e ↦ rw e (omega arith)
  | inr e ↦ rw e refl
]

pub to_wake-none : (c : ℕ) → to_wake c 0 ≡ 0
to_wake-none c = elim (Bool-cases (c == unbounded)) [ inl e ↦ rw e refl | inr e ↦ rw e refl ]

-- How a channel changes when a number of values are taken in batches: the longest-waiting senders
-- of a bounded channel are woken, one for each value.
pub record IsServed {A W : Type 0} (s t : Inner A W) (count : ℕ) : Type 0 where
  pub parked : IsParked t
  pub senders : t.send_waiters ≡ drop (to_wake s.queue.capacity count) s.send_waiters
  pub woken : t.woken ≡ calls (take (to_wake s.queue.capacity count) s.send_waiters) s.woken
  pub receivers : t.recv_waiters ≡ s.recv_waiters
  pub closed : t.flags.closed ≡ s.flags.closed
  pub capacity : t.queue.capacity ≡ s.queue.capacity
  pub tail : t.queue.tail.index ≡ s.queue.tail.index
  pub next_id : t.flags.next_waiter_id ≡ s.flags.next_waiter_id

module _ {A W : Type 0} where
  pub IsServed-none : (s : Inner A W) → IsParked s → IsServed s s 0
  IsServed-none s h =
      let e = to_wake-none s.queue.capacity in
      record {
        parked = h;
        senders = rw e refl;
        woken = rw e refl;
        receivers = refl;
        closed = refl;
        capacity = refl;
        tail = refl;
        next_id = refl;
      }

  pub IsServed-then :
      (s t u : Inner A W) (m n : ℕ) → IsServed s t m → IsServed t u n → IsServed s u (m + n)
  IsServed-then s t u m n a b =
      let l = s.send_waiters in
      let c = s.queue.capacity in
      record {
        parked = b.parked;
        senders =
            b.senders
            ∙ (λ i. drop (to_wake (a.capacity i) n) (a.senders i))
            ∙ drop-drop (to_wake c m) (to_wake c n) l
            ∙ ap (λ k. drop k l) (to_wake-add c m n);
        woken =
            b.woken
            ∙ (λ i. calls (take (to_wake (a.capacity i) n) (a.senders i)) (a.woken i))
            ∙ calls-append (take (to_wake c m) l) (take (to_wake c n) (drop (to_wake c m) l))
                s.woken
            ∙ ap (λ k. calls k s.woken)
                (take-take (to_wake c m) (to_wake c n) l ∙ ap (λ k. take k l) (to_wake-add c m n));
        receivers = b.receivers ∙ a.receivers;
        closed = b.closed ∙ a.closed;
        capacity = b.capacity ∙ a.capacity;
        tail = b.tail ∙ a.tail;
        next_id = b.next_id ∙ a.next_id;
      }

  wakes_lem :
      (s : Inner A W) (n : ℕ)
      → IsParked s
      → (if n == 0 then return tt else notify_many sending n) (quiet s)
        ≡ done tt (quiet (waking (take n s.send_waiters) (drop_many sending n s)))
  unfolding drop_many
  wakes_lem s n h = elim (Bool-cases (n == 0)) [
    | inl e ↦
        let z : n ≡ 0 = ground arith in
        let m : min 0 (length s.send_waiters) ≡ 0 = omega arith in
        let k : sub_usize s.flags.waiting_senders 0 ≡ s.flags.waiting_senders =
          ground (arith, h.1) in
        rw (e, z, m, k) refl
    | inr e ↦ rw e (notify_many_wakes s sending n h)
  ]

  -- The number of senders to wake, that the queue answers, wakes as many of them as `to_wake` says.
  same-senders :
      (s : Inner A W) (k : ℕ)
      → IsParked s
      → (l : WaiterList W) → l ≡ s.send_waiters
      → (drop (min (wake_count s (waiting sending)) k) l ≡ drop (to_wake s.queue.capacity k) l)
        × (take (min (wake_count s (waiting sending)) k) l ≡ take (to_wake s.queue.capacity k) l)
  same-senders s k h l same = elim (Bool-cases (s.queue.capacity == unbounded)) [
    | inl e ↦ let z : min 0 k ≡ 0 = omega arith in rw (e, z) (refl, refl)
    | inr e ↦
        let z : min (waiting sending s) k ≡ min k (length l) =
          omega (arith, h.1.0, ap length same) in
        rw (e, z) (drop-min k l, take-min k l)
  ]

  -- One batch.
  pub try_recv_many_ready_lem :
      (s : Inner A W) {xs : List A} (buffer : List A) (limit : ℕ)
      → Contains s.queue xs
      → IsParked s
      → (k : ℕ) × (k ≤ limit)
        × (k ≤ length xs)
        × (limit ≢ 0 → xs ≢ [] → k ≢ 0)
        × ((t : Inner A W) × (try_recv_many_ready buffer limit (quiet s)
              ≡ done (buffer ++ take k xs, k) (quiet t))
            × Contains t.queue (drop k xs)
            × IsServed s t k)
  unfolding try_recv_many_ready drop_many
  try_recv_many_ready_lem s {xs} buffer limit r h =
      let (k, le, short, some_taken, (q', p, r', c, t)) =
        pop_single_batch_refines s buffer limit (waiting sending) r (λ f t. refl) in
      let n = min (wake_count s (waiting sending)) k in
      let s' = set_queue (λ _. q') s in
      let same = same-senders s k h s.send_waiters refl in
      (
        k,
        le,
        short,
        some_taken,
        (
          _,
          bind-done (pop_single_batch buffer limit (waiting sending)) _ p
              ∙ bind-done (if n == 0 then return tt else notify_many sending n) _
                  (wakes_lem s' n h),
          r',
          record {
            parked = drop_many-IsParked s' sending n h;
            senders = drop-min n s.send_waiters ∙ same.0;
            woken = ap (λ l. calls l s.woken) same.1;
            receivers = refl;
            closed = refl;
            capacity = c;
            tail = t;
            next_id = refl;
          },
        ),
      )
