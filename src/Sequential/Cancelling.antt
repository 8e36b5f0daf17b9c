-- ===== src/Sequential/Cancelling.antt =====
-- A receive of src/lib.rs that is cancelled while it waits, by a thread that is alone.
use rapidfire.Prelude.{
  ℕ, suc, ◌≡◌, refl, none, some, Bool, true, false, [], ◌∷◌, ◌++◌, arith, ap, ◌∙◌,
}
use rapidfire.Layout.{add_usize}
use rapidfire.Sync.{done}
use rapidfire.Shared.{WaiterList, Queue, Inner, set_queue, set_flags}
use rapidfire.Channel.Waiters.{receiving, has, remove_entry, registered, enqueue, cancel, sub_usize}
use rapidfire.Channel.Futures.{pending, poll_recv, drop_recv}
use rapidfire.Refine.Holds.{Represents}
use rapidfire.Refine.Claim.{quiet}
use rapidfire.Parked.Invariant.{IsParked, not-has-next}
use rapidfire.Parked.Wakes.{unregister_lem}
use rapidfire.Sequential.Waiting.{polled_empty, poll_recv_refines}

module _ {W : Type 0} where
  has-last : (my : ℕ) (w : W) (l : WaiterList W) → has my (l ++ (my, w) ∷ []) ≡ true
  unfolding has
  has-last my w [] = ground arith
  has-last my w ((id, v) ∷ l) = ground (arith, has-last my w l)

  remove_entry-last :
      (my : ℕ) (w : W) (l : WaiterList W)
      → has my l ≡ false
      → remove_entry my (l ++ (my, w) ∷ []) ≡ l
  unfolding has remove_entry
  remove_entry-last my w [] e = ground arith
  remove_entry-last my w ((id, v) ∷ l) e = ground (arith, remove_entry-last my w l)

-- The next id is given out.
abbrev pub issued : {A W : Type 0} → Inner A W → Inner A W
issued s = set_flags (λ f. record f { next_waiter_id = add_usize f.next_waiter_id 1 }) s

module _ {A W : Type 0} where
  -- A registration that is taken back leaves the lists and counters as they were.
  cancel-registered :
      (s : Inner A W) (ww : W → W → Bool) (waker : W)
      → IsParked s
      → (let (id, t) = registered ww receiving none waker s in
          (has id t.recv_waiters ≡ true) × (cancel receiving id t ≡ issued s))
  unfolding registered enqueue cancel
  cancel-registered s ww waker h =
      let my = s.flags.next_waiter_id in
      let found = has-last my waker s.recv_waiters in
      let left = remove_entry-last my waker s.recv_waiters (not-has-next my s.recv_waiters h.0.2) in
      let count : sub_usize (add_usize s.flags.waiting_receivers 1) 1 ≡ s.flags.waiting_receivers =
        ground (arith, h.0) in
      (found, rw (found, left, count) refl)

  -- A receive that is polled on an open channel that holds nothing, and is dropped while it is
  -- pending, for a thread that is alone: it takes no value, its registration is gone, no other waiter
  -- is touched or woken, and the counters are as before; only the next waiter's id has moved on.
  pub cancelled_receive :
      (s : Inner A W) (fuel : ℕ) (ww : W → W → Bool) (waker : W)
      → Represents s.queue []
      → IsParked s
      → s.flags.closed ≡ false
      → (t : Inner A W) × (q' : Queue A) × (poll_recv ww (suc fuel) waker none (quiet s)
          ≡ done (pending, some s.flags.next_waiter_id) (quiet t))
        × (drop_recv (some s.flags.next_waiter_id) (quiet t)
            ≡ done tt (quiet (issued (set_queue (λ _. q') s))))
        × Represents q' []
        × (q'.capacity ≡ s.queue.capacity)
        × (q'.tail.index ≡ s.queue.tail.index)
  unfolding drop_recv registered
  cancelled_receive s fuel ww waker r h e =
      let (q', p, r', c, l) = poll_recv_refines s fuel ww waker none r h in
      let s1 = set_queue (λ _. q') s in
      let t = (registered ww receiving none waker s1).1 in
      let (found, gone) = cancel-registered s1 ww waker h in
      (
        t,
        q',
        p ∙ ap (λ b. polled_empty ww waker b s1) e,
        unregister_lem t receiving s.flags.next_waiter_id ∙ rw (found, gone) refl,
        r',
        c,
        l,
      )
