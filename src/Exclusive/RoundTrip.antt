-- ===== src/Exclusive/RoundTrip.antt =====
-- Messages that are sent with `try_send` of src/lib.rs and received with `recv_many` of src/mpsc.rs,
-- by a thread that is alone.
use rapidfire.Prelude.{
  ℕ, suc, ◌+◌, ◌*◌, ◌≤◌, ◌<◌, ◌≡◌, ◌≢◌, refl, Bool, true, false, List, [], ◌∷◌, ◌++◌, length, map,
  take, drop, min, length-append, arith, ap, sym, ◌∙◌, subst, append_assoc, append-nil, List-cases,
  inl, inr, Result, ok,
}
use rapidfire.Layout.{usize_mod}
use rapidfire.Sync.{done, bind-done, return, ◌>>=◌}
use rapidfire.Shared.{Inner, set_queue}
use rapidfire.Queue.Memory.{Act}
use rapidfire.Channel.Waiters.{receiving}
use rapidfire.Channel.Core.{TrySendError, try_send}
use rapidfire.Channel.Futures.{ready}
use rapidfire.Mpsc.Receiver.{start, complete, poll_recv_many}
use rapidfire.Fifo
use rapidfire.Refine.Holds.{Represents, Contains, Represents-Contains}
use rapidfire.Refine.Claim.{quiet}
use rapidfire.Parked.Invariant.{IsParked, drop_first-IsParked}
use rapidfire.Sequential.Attempt.{woken_one, drop_first-queue}
use rapidfire.Sequential.Trying.{sent, try_send_refines}
use rapidfire.Exclusive.RecvMany.{recv_many_takes}

module _ {A W : Type 0} where
  -- Messages are sent one after the other; the answers.
  abbrev pub send_all : ℕ → List A → Act A W (List (Result (Unit {0}) (TrySendError A)))
  send_all fuel [] = return []
  send_all fuel (msg ∷ msgs) =
      let rest = send_all fuel msgs in do r ← try_send fuel msg; rs ← rest; return (r ∷ rs)

  -- One message on an open channel that has room.
  send_one :
      (s : Inner A W) (xs : List A) (fuel : ℕ) (msg : A)
      → Represents s.queue xs
      → IsParked s
      → s.flags.closed ≡ false
      → length xs < s.queue.capacity
      → s.queue.tail.index + 256 < usize_mod
      → (t : Inner A W) × (try_send (suc (suc fuel)) msg (quiet s) ≡ done (ok tt) (quiet t))
        × Represents t.queue (xs ++ msg ∷ [])
        × IsParked t
        × (t.flags.closed ≡ false)
        × (t.queue.capacity ≡ s.queue.capacity)
        × (t.queue.tail.index ≤ s.queue.tail.index + 2)
  send_one s xs fuel msg r h live room low =
      let k : Fifo.push s.queue.capacity xs msg ≡ (true, xs ++ msg ∷ []) = ground arith in
      elim (try_send_refines s fuel msg r h low) [
        | inl (e, p) ↦ absurd (ground arith)
        | inr (e, q', p, r', c, l) ↦
            let (queue, closed) = drop_first-queue (set_queue (λ _. q') s) receiving in
            (
              woken_one receiving (set_queue (λ _. q') s),
              p ∙ ap (λ (y : Bool × List A). sent msg y.0 (set_queue (λ _. q') s)) k,
              subst (λ q. Represents q (xs ++ msg ∷ [])) (sym queue)
                  (subst (λ y. Represents q' y.1) k r'),
              drop_first-IsParked (set_queue (λ _. q') s) receiving h,
              closed ∙ live,
              ap (λ q. q.capacity) queue ∙ c,
              subst (λ q. q.tail.index ≤ s.queue.tail.index + 2) (sym queue) l,
            )
      ]

  pub send_all_lem :
      (msgs xs : List A) (s : Inner A W) (fuel : ℕ)
      → Represents s.queue xs
      → IsParked s
      → s.flags.closed ≡ false
      → length xs + length msgs ≤ s.queue.capacity
      → s.queue.tail.index + length msgs * 2 + 256 < usize_mod
      → (t : Inner A W) × (send_all (suc (suc fuel)) msgs (quiet s)
          ≡ done (map (λ _. ok tt) msgs) (quiet t))
        × Represents t.queue (xs ++ msgs)
        × IsParked t
  send_all_lem [] xs s fuel r h live room low =
      (s, refl, subst (λ l. Represents s.queue l) (sym (append-nil xs)) r, h)
  send_all_lem (msg ∷ msgs) xs s fuel r h live room low =
      let (t, p, r1, h1, open1, c, l) =
        send_one s xs fuel msg r h live (omega (arith, room)) (omega (arith, low)) in
      let n = length-append xs (msg ∷ []) in
      let (u, q, r2, h2) =
        send_all_lem msgs (xs ++ msg ∷ []) t fuel r1 h1 open1 (omega (arith, room, c, n))
          (omega (arith, low, l)) in
      (
        u,
        bind-done (try_send (suc (suc fuel)) msg) _ p
            ∙ bind-done (send_all (suc (suc fuel)) msgs) _ q,
        subst (λ l. Represents u.queue l) (append_assoc xs (msg ∷ []) msgs) r2,
        h2,
      )

take_all : {A : Type 0} (xs : List A) → take (length xs) xs ≡ xs
take_all [] = refl
take_all (x ∷ xs) = ap (λ l. x ∷ l) (take_all xs)

drop-length : {A : Type 0} (xs : List A) → drop (length xs) xs ≡ []
drop-length [] = refl
drop-length (x ∷ xs) = drop-length xs

-- Some messages are sent on an open channel that holds nothing and has room for them: all are taken
-- in. Then one poll of `recv_many`, with a limit of at least their number and fuel for the limit, is
-- ready with that number: the buffer has the messages appended, in the order in which they were
-- sent, and the queue contains nothing. The thread is alone.
pub sent_then_received :
    {A W : Type 0} (s : Inner A W) (msgs : List A) (fuel more : ℕ) (ww : W → W → Bool) (waker : W)
    (buffer : List A) (limit : ℕ)
    → Represents s.queue []
    → IsParked s
    → s.flags.closed ≡ false
    → msgs ≢ []
    → length msgs ≤ s.queue.capacity
    → s.queue.tail.index + length msgs * 2 + 256 < usize_mod
    → length msgs ≤ limit
    → limit ≤ more
    → (t : Inner A W) × (u : Inner A W) × (send_all (suc (suc fuel)) msgs (quiet s)
        ≡ done (map (λ _. ok tt) msgs) (quiet t))
      × (poll_recv_many ww more waker buffer limit start (quiet t)
          ≡ done (ready (ok (length msgs)), buffer ++ msgs, complete) (quiet u))
      × Contains u.queue []
sent_then_received s msgs fuel more ww waker buffer limit r h live some_msg room low fits enough =
    let (t, p, r1, h1) = send_all_lem msgs [] s fuel r h live (omega (arith, room)) low in
    let one : length msgs ≢ 0 = elim (List-cases msgs) [
      | inl e ↦ absurd (some_msg e)
      | inr (x, l, e) ↦ omega (arith, ap length e)
    ] in
    let (u, q, r2, served) =
      recv_many_takes t more ww waker buffer limit (Represents-Contains r1) h1 some_msg
        (omega (arith, one, fits)) enough in
    let n : min limit (length msgs) ≡ length msgs = omega (arith, fits) in
    (
      t,
      u,
      p,
      q ∙ (λ i.
          done (ready (ok (n i)), buffer ++ (ap (λ k. take k msgs) n ∙ take_all msgs) i, complete)
            (quiet u)),
      subst (λ l. Contains u.queue l) (ap (λ k. drop k msgs) n ∙ drop-length msgs) r2,
    )
