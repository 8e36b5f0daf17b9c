-- ===== src/Sequential/Draining.antt =====
-- A closed channel of src/lib.rs that is drained by a thread that is alone.
use rapidfire.Prelude.{
  ℕ, zero, suc, ◌≡◌, refl, Bool, true, ◌==◌, if◌then◌else◌, List, [], ◌∷◌, ◌++◌, length, map,
  Result, ok, err, ap, sym, ◌∙◌, subst, Bool-cases, inl, inr,
}
use rapidfire.Layout.{unbounded}
use rapidfire.Sync.{done, bind-done, return, ◌>>=◌}
use rapidfire.Shared.{Queue, Inner, set_queue}
use rapidfire.Queue.Memory.{Act}
use rapidfire.Channel.Waiters.{sending}
use rapidfire.Channel.Core.{TryRecvError, try_recv}
use rapidfire.Refine.Holds.{Represents}
use rapidfire.Refine.Claim.{quiet}
use rapidfire.Parked.Invariant.{IsParked, drop_first-IsParked}
use rapidfire.Sequential.Attempt.{woken_one, drop_first-queue}
use rapidfire.Sequential.Trying.{try_recv_refines}

module _ {A W : Type 0} where
  -- A number of receives, one after the other; the answers.
  abbrev pub receive_all : ℕ → ℕ → Act A W (List (Result A TryRecvError))
  receive_all fuel zero = return []
  receive_all fuel (suc n) =
      let rest = receive_all fuel n in do r ← try_recv fuel; rs ← rest; return (r ∷ rs)

  -- What a receive of the oldest value leaves.
  after_first :
      (s : Inner A W) (q' : Queue A) (xs : List A)
      → Represents q' xs
      → IsParked s
      → (t : Inner A W) × ((if s.queue.capacity == unbounded
            then set_queue (λ _. q') s
            else woken_one sending (set_queue (λ _. q') s))
          ≡ t)
        × Represents t.queue xs
        × IsParked t
        × (t.flags.closed ≡ s.flags.closed)
  after_first s q' xs r h = elim (Bool-cases (s.queue.capacity == unbounded)) [
    | inl e ↦ (set_queue (λ _. q') s, rw e refl, r, h, refl)
    | inr e ↦
        let (queue, closed) = drop_first-queue (set_queue (λ _. q') s) sending in
        (
          woken_one sending (set_queue (λ _. q') s),
          rw e refl,
          subst (λ q. Represents q xs) (sym queue) r,
          drop_first-IsParked (set_queue (λ _. q') s) sending h,
          closed,
        )
  ]

  -- On a closed channel that holds `xs`, for a thread that is alone, with fuel for one attempt each:
  -- one receive more than `xs` has values gives them all, in their order, and then the error that
  -- the channel is closed.
  pub closed_drains :
      (xs : List A) (s : Inner A W) (fuel : ℕ)
      → Represents s.queue xs
      → IsParked s
      → s.flags.closed ≡ true
      → (t : Inner A W) × (receive_all (suc fuel) (suc (length xs)) (quiet s)
          ≡ done (map (λ x. ok x) xs ++ err TryRecvError.closed ∷ []) (quiet t))
        × Represents t.queue []
  closed_drains [] s fuel r h e =
      let (q', p, r', c, t) = try_recv_refines s fuel r h in
      (
        set_queue (λ _. q') s,
        bind-done (try_recv (suc fuel)) _ (
            p
            ∙ ap
                (λ (b : Bool).
                  done (err (if b then TryRecvError.closed else TryRecvError.empty))
                    (quiet (set_queue (λ _. q') s)))
                e),
        r',
      )
  closed_drains (x ∷ xs) s fuel r h e =
      let (q', p, r', c, t) = try_recv_refines s fuel r h in
      let (s', same, r1, h1, closed) = after_first s q' xs r' h in
      let (u, q, r2) = closed_drains xs s' fuel r1 h1 (closed ∙ e) in
      (
        u,
        bind-done (try_recv (suc fuel)) _ (p ∙ ap (λ t. done (ok x) (quiet t)) same)
            ∙ bind-done (receive_all (suc fuel) (suc (length xs))) _ q,
        r2,
      )
