-- ===== src/Exclusive/RecvMany.antt =====
-- The polls of the future of `recv_many` of src/mpsc.rs, for a thread that is alone.
use rapidfire.Prelude.{
  ℕ, zero, suc, ◌+◌, ◌-◌, ◌≤◌, ◌≡◌, ◌≢◌, refl, Bool, false, ◌==◌, if◌then◌else◌, List, [], ◌∷◌,
  ◌++◌, length, take, drop, min, length-drop, arith, ap, sym, ◌∙◌, subst, append_assoc, Bool-cases,
  List-cases, inl, inr, ok, Option, none,
}
use rapidfire.Layout.{unbounded}
use rapidfire.Sync.{done, bind-done}
use rapidfire.Shared.{Queue, Inner, set_queue}
use rapidfire.Channel.Waiters.{receiving, sending, drop_first}
use rapidfire.Channel.Futures.{ready}
use rapidfire.Mpsc.Receiver.{
  start, awaiting, complete, try_recv_many_ready, fill_ready, poll_recv, await_first,
  poll_recv_many,
}
use rapidfire.Refine.Holds.{Contains}
use rapidfire.Refine.Claim.{quiet}
use rapidfire.Parked.Invariant.{IsParked, drop_first-IsParked}
use rapidfire.Sequential.Attempt.{woken_one}
use rapidfire.Sequential.Withdrawn.{withdrawn, withdrawn-IsParked, withdrawn-queue}
use rapidfire.Exclusive.Trying.{single_poll_recv_refines}
use rapidfire.Exclusive.Waking.{
  take-take, drop-drop, IsServed, IsServed-then, try_recv_many_ready_lem,
}
use rapidfire.Exclusive.Many.{fill_ready_lem}

module _ {A W : Type 0} where
  -- The value that the inner `recv` takes.
  drop_first_lem :
      (s : Inner A W)
      → ((drop_first sending s).send_waiters ≡ drop 1 s.send_waiters)
        × ((drop_first sending s).woken ≡ s.woken)
        × ((drop_first sending s).recv_waiters ≡ s.recv_waiters)
        × ((drop_first sending s).flags.closed ≡ s.flags.closed)
        × ((drop_first sending s).queue ≡ s.queue)
        × ((drop_first sending s).flags.next_waiter_id ≡ s.flags.next_waiter_id)
  unfolding drop_first
  drop_first_lem s = elim (List-cases s.send_waiters) [
    | inl n ↦ rw (n, drop_first) (n, refl, refl, refl, refl, refl)
    | inr (x, l, n) ↦ rw (n, drop_first) (refl, refl, refl, refl, refl, refl)
  ]

  IsServed-first :
      (s : Inner A W) (q' : Queue A)
      → (s.queue.capacity == unbounded) ≡ false
      → IsParked s
      → q'.capacity ≡ s.queue.capacity
      → q'.tail.index ≡ s.queue.tail.index
      → IsServed s (woken_one sending (set_queue (λ _. q') s)) 1
  IsServed-first s q' e h c t =
      let (left, woken, receivers, closed, queue, next_id) =
        drop_first_lem (set_queue (λ _. q') s) in
      record {
        parked = drop_first-IsParked (set_queue (λ _. q') s) sending h;
        senders = rw e left;
        woken = rw (e, woken) refl;
        receivers = receivers;
        closed = closed;
        capacity = ap (λ q. q.capacity) queue ∙ c;
        tail = ap (λ q. q.tail.index) queue ∙ t;
        next_id = next_id;
      }

  queue-one :
      (s : Inner A W) (q' : Queue A)
      → (if s.queue.capacity == unbounded
          then set_queue (λ _. q') s
          else woken_one sending (set_queue (λ _. q') s)).queue
        ≡ q'
  queue-one s q' = elim (Bool-cases (s.queue.capacity == unbounded)) [
    | inl e ↦ rw e refl
    | inr e ↦ rw e ((drop_first_lem (set_queue (λ _. q') s)).4)
  ]

  IsServed-one :
      (s : Inner A W) (q' : Queue A)
      → IsParked s
      → q'.capacity ≡ s.queue.capacity
      → q'.tail.index ≡ s.queue.tail.index
      → IsServed s
          (if s.queue.capacity == unbounded
            then set_queue (λ _. q') s
            else woken_one sending (set_queue (λ _. q') s))
          1
  IsServed-one s q' h c t = elim (Bool-cases (s.queue.capacity == unbounded)) [
    | inl e ↦ rw e (record {
      parked = h;
      senders = rw e refl;
      woken = rw e refl;
      receivers = refl;
      closed = refl;
      capacity = c;
      tail = t;
      next_id = refl;
    })
    | inr e ↦ rw e (IsServed-first s q' e h c t)
  ]

  -- What remains of a poll that has taken `k` values.
  many-start :
      (s t u : Inner A W) (fuel : ℕ) (ww : W → W → Bool) (waker : W) (buffer more all : List A)
      (limit k total : ℕ)
      → limit ≢ 0
      → k ≢ 0
      → try_recv_many_ready buffer limit (quiet s) ≡ done (more, k) (quiet t)
      → fill_ready fuel more limit k (quiet t) ≡ done (all, total) (quiet u)
      → poll_recv_many ww fuel waker buffer limit start (quiet s)
        ≡ done (ready (ok total), all, complete) (quiet u)
  unfolding poll_recv_many
  many-start s t u fuel ww waker buffer more all limit k total room some_taken p q =
      let a : (limit == 0) ≡ false = ground arith in
      let b : (k == 0) ≡ false = ground arith in
      rw a (
        bind-done (try_recv_many_ready buffer limit) _ p
        ∙ rw b (bind-done (fill_ready fuel more limit k) _ q))

  -- The first poll of `recv_many`, for a thread that is alone, with a limit that is not 0, on a
  -- channel that contains some values, with fuel for the limit: it is ready, the values are appended
  -- to the buffer up to the limit, and the queue contains the rest.
  pub recv_many_takes :
      (s : Inner A W) {xs : List A} (fuel : ℕ) (ww : W → W → Bool) (waker : W) (buffer : List A)
      (limit : ℕ)
      → Contains s.queue xs
      → IsParked s
      → xs ≢ []
      → limit ≢ 0
      → limit ≤ fuel
      → (t : Inner A W) × (poll_recv_many ww fuel waker buffer limit start (quiet s)
          ≡ done
              (
                ready (ok (min limit (length xs))),
                buffer ++ take (min limit (length xs)) xs,
                complete,
              )
              (quiet t))
        × Contains t.queue (drop (min limit (length xs)) xs)
        × IsServed s t (min limit (length xs))
  recv_many_takes s {xs} fuel ww waker buffer limit r h some_value room enough =
      let (k, le, short, some_taken, (t, p, r', served)) =
        try_recv_many_ready_lem s buffer limit r h in
      let z = some_taken room some_value in
      let l = length-drop k xs in
      let m = min (limit - k) (length (drop k xs)) in
      let total : k + m ≡ min limit (length xs) = omega (arith, l) in
      let (u, q, r'', more) =
        fill_ready_lem fuel t (drop k xs) (buffer ++ take k xs) limit k (omega (arith, z, room)) r'
          served.parked in
      let together : (buffer ++ take k xs) ++ take m (drop k xs) ≡ buffer ++ take (k + m) xs =
        append_assoc buffer (take k xs) (take m (drop k xs))
        ∙ ap (λ l. buffer ++ l) (take-take k m xs) in
      (
        u,
        many-start s t u fuel ww waker buffer _ _ limit k _ room z p q ∙ (λ i.
            done
              (ready (ok (total i)), (together ∙ ap (λ n. buffer ++ take n xs) total) i, complete)
              (quiet u)),
        subst (λ l. Contains u.queue l) (drop-drop k m xs ∙ ap (λ n. drop n xs) total) r'',
        subst (IsServed s u) total (IsServed-then s t u k m served more),
      )

  many-resumed :
      (s t u : Inner A W) (fuel : ℕ) (ww : W → W → Bool) (waker : W) (buffer all : List A)
      (limit total : ℕ) (id : Option ℕ) (x : A)
      → poll_recv ww fuel waker id (quiet s) ≡ done (ready (ok x), none) (quiet t)
      → fill_ready fuel (buffer ++ x ∷ []) limit 1 (quiet t) ≡ done (all, total) (quiet u)
      → poll_recv_many ww fuel waker buffer limit (awaiting id) (quiet s)
        ≡ done (ready (ok total), all, complete) (quiet u)
  unfolding poll_recv_many await_first
  many-resumed s t u fuel ww waker buffer all limit total id x p q =
      bind-done (poll_recv ww fuel waker id) _ p
      ∙ bind-done (fill_ready fuel (buffer ++ x ∷ []) limit 1) _ q

  -- A poll of `recv_many` that waits in its inner `recv`, for a thread that is alone, with a limit
  -- that is not 0, on a channel that contains some values, with fuel for the limit: it is ready, the
  -- values are appended to the buffer up to the limit, and the queue contains the rest. The
  -- registration is taken back first.
  pub recv_many_resumes :
      (s : Inner A W) (xs : List A) (fuel : ℕ) (ww : W → W → Bool) (waker : W) (buffer : List A)
      (limit : ℕ) (id : Option ℕ)
      → Contains s.queue xs
      → IsParked s
      → xs ≢ []
      → limit ≢ 0
      → limit ≤ fuel
      → (t : Inner A W) × (poll_recv_many ww fuel waker buffer limit (awaiting id) (quiet s)
          ≡ done
              (
                ready (ok (min limit (length xs))),
                buffer ++ take (min limit (length xs)) xs,
                complete,
              )
              (quiet t))
        × Contains t.queue (drop (min limit (length xs)) xs)
        × IsServed (withdrawn receiving id s) t (min limit (length xs))
  recv_many_resumes s xs zero ww waker buffer limit id r h some_value room enough =
      absurd (omega (arith, room, enough))
  recv_many_resumes s [] (suc fuel) ww waker buffer limit id r h some_value room enough =
      absurd (some_value refl)
  recv_many_resumes s (x ∷ xs) (suc fuel) ww waker buffer limit id r h some_value room enough =
      let s0 = withdrawn receiving id s in
      let e = withdrawn-queue s receiving id in
      let (q', p, r', c, t) = single_poll_recv_refines s fuel ww waker id r h in
      let served =
        IsServed-one s0 q' (withdrawn-IsParked s receiving id h) (c ∙ sym (ap (λ q. q.capacity) e))
          (t ∙ sym (ap (λ q. q.tail.index) e)) in
      let s1 =
        if s0.queue.capacity == unbounded
        then set_queue (λ _. q') s0
        else woken_one sending (set_queue (λ _. q') s0) in
      let m = min (limit - 1) (length xs) in
      let total : 1 + m ≡ min limit (suc (length xs)) = omega (arith, room) in
      let next : suc m ≡ min limit (suc (length xs)) = omega (arith, room) in
      let (u, q, r'', more) =
        fill_ready_lem (suc fuel) s1 xs (buffer ++ x ∷ []) limit 1 (omega (arith, enough))
          (subst (λ q. Contains q xs) (sym (queue-one s0 q')) r') served.parked in
      (
        u,
        many-resumed s s1 u (suc fuel) ww waker buffer _ limit _ id x
              (p
                ∙ ap
                    (λ q.
                      done (ready (ok x), none)
                        (quiet (
                          if q.capacity == unbounded
                          then set_queue (λ _. q') s0
                          else woken_one sending (set_queue (λ _. q') s0))))
                    (sym e))
              q
            ∙ (λ i.
                done
                  (
                    ready (ok (total i)),
                    (append_assoc buffer (x ∷ []) (take m xs)
                          ∙ ap (λ n. buffer ++ take n (x ∷ xs)) next)
                        i,
                    complete,
                  )
                  (quiet u)),
        subst (λ n. Contains u.queue (drop n (x ∷ xs))) next r'',
        subst (IsServed s0 u) total (IsServed-then s0 s1 u 1 m served more),
      )
