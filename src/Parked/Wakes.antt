-- ===== src/Parked/Wakes.antt =====
-- What `notify_one`, `notify_all`, `notify_many`, `unregister` and `close` do for a thread that is
-- alone: whom they wake, in which order, and what is left parked.
use rapidfire.Prelude.{
  ℕ, zero, suc, ◌≡◌, refl, some, true, false, ◌==◌, if◌then◌else◌, List, [], ◌∷◌, length, take, min,
  ◌<◌, Distinct, subst, arith, ap, ◌∙◌, sym, List-cases, Bool-cases, inl, inr,
}
use rapidfire.Sync.{done, bind-done}
use rapidfire.Shared.{WaiterList, Inner, set_flags}
use rapidfire.Channel.Waiters.{
  Side, receiving, sending, waiters, waiting, has, first_waker, wake, wake_each, notify_one,
  notify_all, notify_many, drop_first, clear, drop_many, cancel, unregister, sub_usize,
}
use rapidfire.Channel.Core.{close}
use rapidfire.Refine.Claim.{quiet}
use rapidfire.Parked.Invariant.{IsParked}
use rapidfire.Layout.{usize_mod}
use rapidfire.Parked.Leaving.{uncounted, parked, cancel_lem}
use rapidfire.Parked.Entries.{
  ids, others, others-All, remove_entry-others, length-remove_entry, not-has-All,
}

pub take-min : {B : Type 0} (n : ℕ) (l : List B) → take (min n (length l)) l ≡ take n l
take-min zero l = let e : min 0 (length l) ≡ 0 = omega arith in ap (λ k. take k l) e
take-min (suc n) [] = let e : min (suc n) 0 ≡ 0 = omega arith in ap (λ k. take k []) e
take-min (suc n) (x ∷ l) =
    let e : min (suc n) (suc (length l)) ≡ suc (min n (length l)) = omega arith in
    ap (λ k. take k (x ∷ l)) e ∙ ap (λ k. x ∷ k) (take-min n l)

-- The record of the calls after those for the entries of a list, in its order.
abbrev pub calls : {W : Type 0} → WaiterList W → List W → List W
calls [] k = k
calls ((id, w) ∷ l) k = calls l (w ∷ k)

module _ {A W : Type 0} where
  -- The entries of a list are woken in its order.
  abbrev pub waking : WaiterList W → Inner A W → Inner A W
  waking l s = record s { woken = calls l s.woken }

  pub wake_each_lem :
      (l : WaiterList W) (s : Inner A W) → wake_each l (quiet s) ≡ done tt (quiet (waking l s))
  unfolding wake_each wake
  wake_each_lem [] s = refl
  wake_each_lem ((id, w) ∷ l) s = wake_each_lem l (record s { woken = w ∷ s.woken })

  pub notify_all_lem :
      (s : Inner A W) (side : Side)
      → notify_all side (quiet s) ≡ done tt (quiet (waking (waiters side s) (clear side s)))
  unfolding notify_all clear
  notify_all_lem s receiving = wake_each_lem s.recv_waiters _
  notify_all_lem s sending = wake_each_lem s.send_waiters _

  pub notify_one_lem :
      (s : Inner A W) (side : Side)
      → notify_one side (quiet s)
        ≡ done tt (quiet (waking (take 1 (waiters side s)) (drop_first side s)))
  unfolding notify_one drop_first wake first_waker
  notify_one_lem s receiving = elim (List-cases s.recv_waiters) [
    | inl e ↦ rw (e, drop_first) refl
    | inr (x, l, e) ↦ rw (e, drop_first) refl
  ]
  notify_one_lem s sending = elim (List-cases s.send_waiters) [
    | inl e ↦ rw (e, drop_first) refl
    | inr (x, l, e) ↦ rw (e, drop_first) refl
  ]

  drop_first-drop_many :
      (s : Inner A W) (side : Side) → IsParked s → drop_first side s ≡ drop_many side 1 s
  unfolding drop_first drop_many
  drop_first-drop_many s receiving h = elim (List-cases s.recv_waiters) [
    | inl e ↦ let z : s.flags.waiting_receivers ≡ 0 = h.0.0 ∙ ap length e in rw (e, z) refl
    | inr (x, l, e) ↦ let m : min 1 (suc (length l)) ≡ 1 = omega arith in rw (e, m) refl
  ]
  drop_first-drop_many s sending h = elim (List-cases s.send_waiters) [
    | inl e ↦ let z : s.flags.waiting_senders ≡ 0 = h.1.0 ∙ ap length e in rw (e, z) refl
    | inr (x, l, e) ↦ let m : min 1 (suc (length l)) ≡ 1 = omega arith in rw (e, m) refl
  ]

  pub notify_many_wakes :
      (s : Inner A W) (side : Side) (limit : ℕ)
      → IsParked s
      → notify_many side limit (quiet s)
        ≡ done tt (quiet (waking (take limit (waiters side s)) (drop_many side limit s)))
  unfolding notify_many
  notify_many_wakes s side limit h = elim (Bool-cases (limit == 1)) [
    | inl e ↦
        let k : limit ≡ 1 = ground arith in
        rw (e, k)
          (notify_one_lem s side
            ∙ ap (λ t. done tt (quiet (waking (take 1 (waiters side s)) t)))
                (drop_first-drop_many s side h))
    | inr e ↦
        let k = take-min limit (waiters side s) in
        rw (e, k) (wake_each_lem (take limit (waiters side s)) (drop_many side limit s))
  ]

  cancel-empty : (s : Inner A W) (side : Side) (my : ℕ) → waiters side s ≡ [] → cancel side my s ≡ s
  unfolding cancel has
  cancel-empty s side my e = let k : has my (waiters side s) ≡ false = ap (has my) e in rw k refl

  pub no-waiters :
      (s : Inner A W) (side : Side)
      → IsParked s
      → (waiting side s == 0) ≡ true
      → waiters side s ≡ []
  no-waiters s receiving h z = elim (List-cases s.recv_waiters) [
    | inl e ↦ e
    | inr (x, l, e) ↦ let k = ap length e in ground (arith, h.0.0)
  ]
  no-waiters s sending h z = elim (List-cases s.send_waiters) [
    | inl e ↦ e
    | inr (x, l, e) ↦ let k = ap length e in ground (arith, h.1.0)
  ]

  -- A future that stops waiting without passing its notification on takes its entry off the list,
  -- and nothing else: also when the counter says that the list is empty, and it does not lock it.
  pub unregister_cancels :
      (s : Inner A W) (side : Side) (my : ℕ)
      → IsParked s
      → unregister side (some my) false (quiet s) ≡ done tt (quiet (cancel side my s))
  unfolding unregister
  unregister_cancels s side my h = elim (Bool-cases (waiting side s == 0)) [
    | inl z ↦
        rw z (ap (λ t. done tt (quiet t)) (sym (cancel-empty s side my (no-waiters s side h z))))
    | inr z ↦ elim (Bool-cases (has my (waiters side s))) [
      | inl e ↦ rw (z, e) refl
      | inr e ↦ rw (z, e) refl
    ]
  ]

  -- The state after a notification: the longest-waiting one is woken and off the list.
  abbrev pub passed_on : Side → WaiterList W → Inner A W → Inner A W
  passed_on side [] s = s
  passed_on side ((id, w) ∷ l) s = record (parked side l s) { woken = w ∷ s.woken }

  passed_on_lem :
      (s : Inner A W) (side : Side)
      → IsParked s
      → waking (take 1 (waiters side s)) (drop_first side s) ≡ passed_on side (waiters side s) s
  unfolding drop_first
  passed_on_lem s receiving h = elim (List-cases s.recv_waiters) [
    | inl e ↦ rw e refl
    | inr (x, l, e) ↦
        let c : sub_usize s.flags.waiting_receivers 1 ≡ length l =
          uncounted s.flags.waiting_receivers x l (h.0.0 ∙ ap length e)
            (subst (λ k. length k < usize_mod) e h.0.1) in
        rw (e, c) refl
  ]
  passed_on_lem s sending h = elim (List-cases s.send_waiters) [
    | inl e ↦ rw e refl
    | inr (x, l, e) ↦
        let c : sub_usize s.flags.waiting_senders 1 ≡ length l =
          uncounted s.flags.waiting_senders x l (h.1.0 ∙ ap length e)
            (subst (λ k. length k < usize_mod) e h.1.1) in
        rw (e, c) refl
  ]

  pub unregister_lem :
      (s : Inner A W) (side : Side) (my : ℕ)
      → unregister side (some my) true (quiet s)
        ≡ done tt (
            quiet (
              if has my (waiters side s)
              then cancel side my s
              else waking (take 1 (waiters side s)) (drop_first side s)))
  unfolding unregister cancel
  unregister_lem s side my = elim (Bool-cases (has my (waiters side s))) [
    | inl e ↦ rw e refl
    | inr e ↦ rw e (notify_one_lem s side)
  ]

  Distinct-waiters : (s : Inner A W) (side : Side) → IsParked s → Distinct (ids (waiters side s))
  Distinct-waiters s receiving h = h.0.3
  Distinct-waiters s sending h = h.1.3

  -- When the lists are counted and their ids differ: a future that is dropped is taken off the list
  -- and off the count, and the others stay as they were. If a notification had already taken its
  -- entry, so that no entry has its id, the notification is passed on: the longest-waiting one is
  -- woken and taken off, if there is one.
  pub unregister_forwards :
      (s : Inner A W) (side : Side) (my : ℕ)
      → IsParked s
      → unregister side (some my) true (quiet s)
        ≡ done tt (
            quiet (
              if length (others my (waiters side s)) == length (waiters side s)
              then passed_on side (waiters side s) s
              else parked side (others my (waiters side s)) s))
  unregister_forwards s side my h = elim (Bool-cases (has my (waiters side s))) [
    | inl e ↦
        let k = length-remove_entry my (waiters side s) e in
        let m = ap length (remove_entry-others my (waiters side s) (Distinct-waiters s side h)) in
        let z : (length (others my (waiters side s)) == length (waiters side s)) ≡ false =
          ground arith in
        unregister_lem s side my
        ∙ rw (e, z) (ap (λ t. done tt (quiet t)) (cancel_lem s side my h e))
    | inr e ↦
        let m = ap length (others-All my (waiters side s) (not-has-All my (waiters side s) e)) in
        let z : (length (others my (waiters side s)) == length (waiters side s)) ≡ true =
          ground arith in
        unregister_lem s side my ∙ rw (e, z) (ap (λ t. done tt (quiet t)) (passed_on_lem s side h))
  ]

  -- The state after closing.
  abbrev pub shut : Inner A W → Inner A W
  shut s = record s {
    flags = record s.flags { closed = true; waiting_receivers = 0; waiting_senders = 0 };
    recv_waiters = [];
    send_waiters = [];
    woken = calls s.send_waiters (calls s.recv_waiters s.woken);
  }

  -- The first closing marks the channel as closed and wakes every parked receiver, then every
  -- parked sender, each in the order in which they came, and leaves both lists empty. A later one
  -- changes nothing, and says so.
  pub close_wakes :
      (s : Inner A W)
      → close (quiet s)
        ≡ (if s.flags.closed then done false (quiet s) else done true (quiet (shut s)))
  unfolding close clear
  close_wakes s = elim (Bool-cases s.flags.closed) [
    | inl e ↦ rw e refl
    | inr e ↦
        let t = set_flags (λ f. record f { closed = true }) s in
        let k = notify_all_lem t receiving in
        let m = notify_all_lem (waking s.recv_waiters (clear receiving t)) sending in
        rw e (bind-done (notify_all receiving) _ k ∙ bind-done (notify_all sending) _ m)
  ]
