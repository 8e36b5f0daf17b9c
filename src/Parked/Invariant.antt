-- ===== src/Parked/Invariant.antt =====
-- The invariant of the two waiter lists, kept by every access of any thread.
use rapidfire.Prelude.{
  ℕ, ◌+◌, ◌≤◌, ◌<◌, ◌≡◌, refl, Option, none, some, Bool, true, false, List, [], ◌∷◌, ◌++◌, length,
  length-append, length-drop, drop, min, All-map, Distinct, arith, ap, subst, List-cases,
  Bool-cases, inl, inr,
}
use rapidfire.Layout.{usize_mod, add_usize}
use rapidfire.Shared.{Queue, WaiterList, Inner, set_queue, set_flags}
use rapidfire.Channel.Core
use rapidfire.Channel.Waiters.{
  Side, receiving, sending, waiters, sub_usize, has, remove_entry, refresh, registered, enqueue,
  drop_first, clear, drop_many, cancel,
}
use rapidfire.Parked.Entries.{
  ids, Below, length-remove_entry, All-remove_entry, Distinct-remove_entry, ids-refresh, length-ids,
  All-enqueue, not-has-All, Distinct-enqueue, All-drop, Distinct-drop,
}

-- What holds of one side: the counter is the length of the list, and the entries have different
-- ids, all below the next one.
abbrev pub IsCounted : {W : Type 0} → ℕ → ℕ → WaiterList W → Type 0
IsCounted next n l = (n ≡ length l) × (length l < usize_mod) × Below next l × Distinct (ids l)

abbrev pub IsParked : {A W : Type 0} → Inner A W → Type 0
IsParked s =
    IsCounted s.flags.next_waiter_id s.flags.waiting_receivers s.recv_waiters
    × IsCounted s.flags.next_waiter_id s.flags.waiting_senders s.send_waiters

-- The id of a future is one that has been given out.
abbrev pub WasIssued : ℕ → Option ℕ → Type 0
WasIssued next none = Unit
WasIssued next (some my) = my < next

module _ {W : Type 0} where
  IsCounted-enqueue :
      (next n my : ℕ) (w : W) (l : WaiterList W)
      → IsCounted next n l
      → my < next
      → has my l ≡ false
      → length l + 1 < usize_mod
      → IsCounted next (add_usize n 1) (l ++ (my, w) ∷ [])
  IsCounted-enqueue next n my w l h k f r = (
    ground (arith, length-append l ((my, w) ∷ []), h.0),
    ground (arith, length-append l ((my, w) ∷ [])),
    All-enqueue _ my w l h.2 k,
    Distinct-enqueue my w l h.3 (not-has-All my l f),
  )

  IsCounted-refresh :
      (next n my : ℕ) (ww : W → W → Bool) (w : W) (l : WaiterList W)
      → IsCounted next n l
      → IsCounted next n (refresh ww my w l)
  IsCounted-refresh next n my ww w l h =
      let e = length-ids (refresh ww my w l) in
      let i = ids-refresh ww my w l in
      let j = length-ids l in
      let k = ap length i in (ground (arith, h.0), ground (arith, h.1), rw i h.2, rw i h.3)

  IsCounted-later :
      (next next' n : ℕ) (l : WaiterList W)
      → IsCounted next n l
      → next ≤ next'
      → IsCounted next' n l
  IsCounted-later next next' n l h k = (h.0, h.1, All-map (λ i q. omega arith) (ids l) h.2, h.3)

  IsCounted-drop :
      (next n m : ℕ) (l : WaiterList W)
      → IsCounted next n l
      → m ≤ length l
      → IsCounted next (sub_usize n m) (drop m l)
  IsCounted-drop next n m l h k = (
    ground (arith, h.0, h.1, length-drop m l),
    ground (arith, h.1, length-drop m l),
    All-drop _ m l h.2,
    Distinct-drop m l h.3,
  )

  IsCounted-remove_entry :
      (next n my : ℕ) (l : WaiterList W)
      → IsCounted next n l
      → has my l ≡ true
      → IsCounted next (sub_usize n 1) (remove_entry my l)
  IsCounted-remove_entry next n my l h f = (
    ground (arith, h.0, h.1, length-remove_entry my l f),
    ground (arith, h.1, length-remove_entry my l f),
    All-remove_entry _ my l h.2,
    Distinct-remove_entry my l h.3,
  )

  pub not-has-next : (next : ℕ) (l : WaiterList W) → Below next l → has next l ≡ false
  unfolding has
  not-has-next next [] h = refl
  not-has-next next ((id, w) ∷ l) h = ground (arith, h.0, not-has-next next l h.1)

-- One access of one thread to the memory that the handles share: it holds a list's lock, or is one
-- operation on the queue, on the flag of closing, on a count of handles, or a call of `wake`. An id
-- that a future has was given to it by `registered`; ids and lists are not exhausted.
pub data Access {A W : Type 0} (will_wake : W → W → Bool) : Inner A W → Inner A W → Type 0 where
  registers :
      (s : Inner A W) (side : Side) (id : Option ℕ) (w : W)
      → WasIssued s.flags.next_waiter_id id
      → s.flags.next_waiter_id + 1 < usize_mod
      → length (waiters side s) + 1 < usize_mod
      → Access will_wake s (registered will_wake side id w s).1
  cancels : (s : Inner A W) (side : Side) (my : ℕ) → Access will_wake s (cancel side my s)
  notifies : (s : Inner A W) (side : Side) → Access will_wake s (drop_first side s)
  notifies_all : (s : Inner A W) (side : Side) → Access will_wake s (clear side s)
  notifies_many :
      (s : Inner A W) (side : Side) (limit : ℕ) → Access will_wake s (drop_many side limit s)
  queues : (s : Inner A W) (f : Queue A → Queue A) → Access will_wake s (set_queue f s)
  closes :
      (s : Inner A W) (b : Bool) → Access will_wake s (set_flags (λ f. record f { closed = b }) s)
  counts_senders :
      (s : Inner A W) (n : ℕ) → Access will_wake s (set_flags (λ f. record f { senders = n }) s)
  counts_receivers :
      (s : Inner A W) (n : ℕ) → Access will_wake s (set_flags (λ f. record f { receivers = n }) s)
  wakes : (s : Inner A W) (l : List W) → Access will_wake s (record s { woken = l })

pub data Reachable {A W : Type 0} (will_wake : W → W → Bool) (s : Inner A W)
    : Inner A W → Type 0 where
  here : Reachable will_wake s s
  after :
      (t u : Inner A W) → Reachable will_wake s t → Access will_wake t u → Reachable will_wake s u

module _ {A W : Type 0} (will_wake : W → W → Bool) where
  pub registered-IsParked :
      (s : Inner A W) (side : Side) (id : Option ℕ) (w : W)
      → IsParked s
      → WasIssued s.flags.next_waiter_id id
      → s.flags.next_waiter_id + 1 < usize_mod
      → length (waiters side s) + 1 < usize_mod
      → IsParked (registered will_wake side id w s).1
  unfolding registered enqueue
  registered-IsParked s receiving none w h k r l =
      let n = s.flags.next_waiter_id in
      let m = add_usize n 1 in
      let e : n < m = ground arith in
      (
        IsCounted-enqueue m s.flags.waiting_receivers n w s.recv_waiters
            (IsCounted-later n m _ _ h.0 (omega arith)) e (not-has-next n s.recv_waiters h.0.2) l,
        IsCounted-later n m _ _ h.1 (omega arith),
      )
  registered-IsParked s sending none w h k r l =
      let n = s.flags.next_waiter_id in
      let m = add_usize n 1 in
      let e : n < m = ground arith in
      (
        IsCounted-later n m _ _ h.0 (omega arith),
        IsCounted-enqueue m s.flags.waiting_senders n w s.send_waiters
            (IsCounted-later n m _ _ h.1 (omega arith)) e (not-has-next n s.send_waiters h.1.2) l,
      )
  registered-IsParked s receiving (some my) w h k r l =
      let n = s.flags.next_waiter_id in
      elim (Bool-cases (has my s.recv_waiters)) [
        | inl e ↦ rw e (IsCounted-refresh n _ my will_wake w s.recv_waiters h.0, h.1)
        | inr e ↦ rw e (IsCounted-enqueue n _ my w s.recv_waiters h.0 k e l, h.1)
      ]
  registered-IsParked s sending (some my) w h k r l =
      let n = s.flags.next_waiter_id in
      elim (Bool-cases (has my s.send_waiters)) [
        | inl e ↦ rw e (h.0, IsCounted-refresh n _ my will_wake w s.send_waiters h.1)
        | inr e ↦ rw e (h.0, IsCounted-enqueue n _ my w s.send_waiters h.1 k e l)
      ]

module _ {A W : Type 0} where
  pub cancel-IsParked :
      (s : Inner A W) (side : Side) (my : ℕ) → IsParked s → IsParked (cancel side my s)
  unfolding cancel
  cancel-IsParked s receiving my h = elim (Bool-cases (has my s.recv_waiters)) [
    | inl e ↦ rw e (IsCounted-remove_entry _ _ my s.recv_waiters h.0 e, h.1)
    | inr e ↦ rw e h
  ]
  cancel-IsParked s sending my h = elim (Bool-cases (has my s.send_waiters)) [
    | inl e ↦ rw e (h.0, IsCounted-remove_entry _ _ my s.send_waiters h.1 e)
    | inr e ↦ rw e h
  ]

  pub drop_many-IsParked :
      (s : Inner A W) (side : Side) (limit : ℕ) → IsParked s → IsParked (drop_many side limit s)
  unfolding drop_many
  drop_many-IsParked s receiving limit h =
      (IsCounted-drop _ _ (min limit (length s.recv_waiters)) s.recv_waiters h.0 (omega arith), h.1)
  drop_many-IsParked s sending limit h =
      (h.0, IsCounted-drop _ _ (min limit (length s.send_waiters)) s.send_waiters h.1 (omega arith))

  pub drop_first-IsParked :
      (s : Inner A W) (side : Side) → IsParked s → IsParked (drop_first side s)
  unfolding drop_first
  drop_first-IsParked s receiving h = elim (List-cases s.recv_waiters) [
    | inl e ↦
        let k = subst (IsCounted s.flags.next_waiter_id s.flags.waiting_receivers) e h.0 in
        rw e (k, h.1)
    | inr (x, l, e) ↦
        let k = subst (IsCounted s.flags.next_waiter_id s.flags.waiting_receivers) e h.0 in
        rw e (IsCounted-drop _ _ 1 (x ∷ l) k (omega arith), h.1)
  ]
  drop_first-IsParked s sending h = elim (List-cases s.send_waiters) [
    | inl e ↦
        let k = subst (IsCounted s.flags.next_waiter_id s.flags.waiting_senders) e h.1 in
        rw e (h.0, k)
    | inr (x, l, e) ↦
        let k = subst (IsCounted s.flags.next_waiter_id s.flags.waiting_senders) e h.1 in
        rw e (h.0, IsCounted-drop _ _ 1 (x ∷ l) k (omega arith))
  ]

  clear-IsParked : (s : Inner A W) (side : Side) → IsParked s → IsParked (clear side s)
  unfolding clear
  clear-IsParked s receiving h = ((refl, omega arith, tt, tt), h.1)
  clear-IsParked s sending h = (h.0, (refl, omega arith, tt, tt))

  step-IsParked : (ww : W → W → Bool) {s t : Inner A W} → IsParked s → Access ww s t → IsParked t
  step-IsParked ww h (registers s side id w k r l) = registered-IsParked ww s side id w h k r l
  step-IsParked ww h (cancels s side my) = cancel-IsParked s side my h
  step-IsParked ww h (notifies s side) = drop_first-IsParked s side h
  step-IsParked ww h (notifies_all s side) = clear-IsParked s side h
  step-IsParked ww h (notifies_many s side limit) = drop_many-IsParked s side limit h
  step-IsParked ww h (queues s f) = h
  step-IsParked ww h (closes s b) = h
  step-IsParked ww h (counts_senders s n) = h
  step-IsParked ww h (counts_receivers s n) = h
  step-IsParked ww h (wakes s l) = h

  -- However the accesses of any threads interleave from a new channel on, as long as waiter ids and
  -- list lengths stay in a `usize`, each counter is the length of its list, and the entries of each
  -- list have different ids, which have been given out.
  pub waiters_consistent :
      (ww : W → W → Bool) (capacity : Option ℕ) (t : Inner A W)
      → Reachable ww (Core.new capacity) t
      → IsParked t
  unfolding Core.new
  waiters_consistent ww capacity t here = ((refl, omega arith, tt, tt), (refl, omega arith, tt, tt))
  waiters_consistent ww capacity t (after s u r a) =
      step-IsParked ww (waiters_consistent ww capacity s r) a
