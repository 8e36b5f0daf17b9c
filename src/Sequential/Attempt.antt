-- ===== src/Sequential/Attempt.antt =====
-- What the receivers' attempts to receive have in common, for a thread that is alone.
use rapidfire.Prelude.{
  ℕ, suc, ◌≡◌, refl, Option, none, some, Bool, false, not, ◌==◌, if◌then◌else◌, List, [], ◌∷◌, take,
  Result, ok, err, ap, ◌∙◌, sym, Bool-cases, List-cases, inl, inr,
}
use rapidfire.Layout.{unbounded}
use rapidfire.Sync.{World, Outcome, done, bind-done, return, ◌>>=◌, ◌>>◌}
use rapidfire.Shared.{Queue, Inner, set_queue}
use rapidfire.Queue.Memory.{Act}
use rapidfire.Queue.Observe.{is_empty_seqcst}
use rapidfire.Channel.Waiters.{Side, receiving, sending, waiters, waiting, drop_first, notify_one}
use rapidfire.Channel.Core.{TryRecvError, RecvState, recv_state_when_empty, retry_while_busy}
use rapidfire.Fifo
use rapidfire.Refine.Holds.{Contains}
use rapidfire.Refine.Claim.{quiet}
use rapidfire.Refine.Pops.{with_wake}
use rapidfire.Parked.Invariant.{IsParked}
use rapidfire.Parked.Wakes.{waking, notify_one_lem, no-waiters}
use rapidfire.Sequential.Observe.{is_empty_seqcst_lem}

module _ {A W : Type 0} where
  -- The longest-waiting entry of a list is woken and taken off it.
  abbrev pub woken_one : Side → Inner A W → Inner A W
  woken_one side s = waking (take 1 (waiters side s)) (drop_first side s)

  woken_one-empty : (s : Inner A W) (side : Side) → waiters side s ≡ [] → woken_one side s ≡ s
  unfolding drop_first
  woken_one-empty s receiving e = rw (e, drop_first) (ap (λ l. record s { recv_waiters = l }) e)
  woken_one-empty s sending e = rw (e, drop_first) (ap (λ l. record s { send_waiters = l }) e)

  -- A notification changes the lists of waiters and the record of the calls.
  pub drop_first-queue :
      (s : Inner A W) (side : Side)
      → ((drop_first side s).queue ≡ s.queue) × ((drop_first side s).flags.closed ≡ s.flags.closed)
  unfolding drop_first
  drop_first-queue s receiving = elim (List-cases s.recv_waiters) [
    | inl n ↦ rw (n, drop_first) (refl, refl)
    | inr (x, l, n) ↦ rw (n, drop_first) (refl, refl)
  ]
  drop_first-queue s sending = elim (List-cases s.send_waiters) [
    | inl n ↦ rw (n, drop_first) (refl, refl)
    | inr (x, l, n) ↦ rw (n, drop_first) (refl, refl)
  ]

  -- The counter says whether to notify.
  pub notify_if_waiting :
      (s : Inner A W) (side : Side)
      → IsParked s
      → (if not (waiting side s == 0) then notify_one side else return tt) (quiet s)
        ≡ done tt (quiet (woken_one side s))
  notify_if_waiting s side h = elim (Bool-cases (waiting side s == 0)) [
    | inl e ↦
        rw e (ap (λ t. done tt (quiet t)) (sym (woken_one-empty s side (no-waiters s side h e))))
    | inr e ↦ rw e (notify_one_lem s side)
  ]

  -- What a receive attempt leaves, from a channel that holds a list: the queue of `t`, and a sender
  -- woken if the channel is bounded and a value was taken.
  abbrev pub attempted : ℕ → List A → Inner A W → Outcome (Inner A W) (Result A RecvState)
  attempted capacity [] t =
      done (err (if t.flags.closed then RecvState.closed else RecvState.empty)) (quiet t)
  attempted capacity (x ∷ xs) t =
      done (ok x) (quiet (if capacity == unbounded then t else woken_one sending t))

  abbrev pub reply_to_pop : Option (A × Bool) → Act A W (Result A RecvState)
  reply_to_pop (some (msg, wake)) = do
    if wake then notify_one sending else return tt
    return (ok msg)
  reply_to_pop none = do state ← recv_state_when_empty; return (err state)

  pub recv_state_lem :
      (s : Inner A W)
      → Contains s.queue []
      → recv_state_when_empty (quiet s)
        ≡ done (if s.flags.closed then RecvState.closed else RecvState.empty) (quiet s)
  unfolding recv_state_when_empty
  recv_state_lem s r = elim (Bool-cases s.flags.closed) [
    | inl e ↦ simp e (bind-done is_empty_seqcst _ (is_empty_seqcst_lem s r))
    | inr e ↦ simp e
  ]

  pub after_pop :
      (s : Inner A W) (q' : Queue A) (xs : List A)
      → IsParked s
      → Contains q' (Fifo.pop xs).1
      → reply_to_pop
          (with_wake
            (Fifo.pop xs).0
            (if s.queue.capacity == unbounded then false else not (waiting sending s == 0)))
          (quiet (set_queue (λ _. q') s))
        ≡ attempted s.queue.capacity xs (set_queue (λ _. q') s)
  after_pop s q' [] h r =
      bind-done recv_state_when_empty _ (recv_state_lem (set_queue (λ _. q') s) r)
  after_pop s q' (x ∷ xs) h r = elim (Bool-cases (s.queue.capacity == unbounded)) [
    | inl e ↦ rw e refl
    | inr e ↦ rw e (
        bind-done (if not (waiting sending s == 0) then notify_one sending else return tt) _
          (notify_if_waiting (set_queue (λ _. q') s) sending h))
  ]

  -- The same for `try_recv`, which is never busy then.
  abbrev pub received : ℕ → List A → Inner A W → Outcome (Inner A W) (Result A TryRecvError)
  received capacity [] t =
      done (err (if t.flags.closed then TryRecvError.closed else TryRecvError.empty)) (quiet t)
  received capacity (x ∷ xs) t =
      done (ok x) (quiet (if capacity == unbounded then t else woken_one sending t))

  pub retry_lem :
      (fuel : ℕ) (attempt : Act A W (Result A RecvState)) {w : World (Inner A W)} (capacity : ℕ)
      (xs : List A) (t : Inner A W)
      → attempt w ≡ attempted capacity xs t
      → retry_while_busy (suc fuel) attempt w ≡ received capacity xs t
  unfolding retry_while_busy
  retry_lem fuel attempt capacity [] t p = elim (Bool-cases t.flags.closed) [
    | inl e ↦ simp e (
        bind-done attempt _ (
          p
          ∙ ap
              (λ (b : Bool). done (err (if b then RecvState.closed else RecvState.empty)) (quiet t))
              e))
    | inr e ↦ simp e (
        bind-done attempt _ (
          p
          ∙ ap
              (λ (b : Bool). done (err (if b then RecvState.closed else RecvState.empty)) (quiet t))
              e))
  ]
  retry_lem fuel attempt capacity (x ∷ xs) t p = bind-done attempt _ p

  -- What both receivers have in common: an attempt that takes the oldest value, on a queue that `P`
  -- says to contain a list.
  pub record IsAttempt (attempt : Act A W (Result A RecvState)) (P : Queue A → List A → Type 0)
      : Type 0 where
    pub contains : {q : Queue A} {xs : List A} → P q xs → Contains q xs
    pub takes :
        (s : Inner A W) (xs : List A)
        → P s.queue xs
        → IsParked s
        → (q' : Queue A) × (attempt (quiet s)
            ≡ attempted s.queue.capacity xs (set_queue (λ _. q') s))
          × P q' (Fifo.pop xs).1
          × (q'.capacity ≡ s.queue.capacity)
          × (q'.tail.index ≡ s.queue.tail.index)
    -- Also while the lists of waiters change.
    pub finds_none :
        (s : Inner A W)
        → P s.queue []
        → (q' : Queue A) × (attempt (quiet s)
            ≡ attempted s.queue.capacity [] (set_queue (λ _. q') s))
          × P q' []
          × (q'.capacity ≡ s.queue.capacity)
          × (q'.tail.index ≡ s.queue.tail.index)
