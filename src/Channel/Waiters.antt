-- ===== src/Channel/Waiters.antt =====
-- `WaiterList` of src/lib.rs. What a thread does while it holds a list's lock is one access; a
-- waker is woken after the lock is released. `will_wake` is the method of std's `Waker`.
use rapidfire.Prelude.{
  ℕ, ◌+◌, ◌-◌, ◌%◌, Option, none, some, Bool, false, not, ◌||◌, ◌==◌, if◌then◌else◌, [], ◌∷◌, ◌++◌,
  length, take, drop, min,
}
use rapidfire.Layout.{usize_mod, add_usize}
use rapidfire.Sync.{◌>>=◌, ◌>>◌, return, load, store, fetch}
use rapidfire.Shared.{WaiterList, Inner, set_flags}
use rapidfire.Queue.Memory.{Act}

-- The two lists: `recv_waiters` with `waiting_receivers`, `send_waiters` with `waiting_senders`.
pub data Side : Type 0 where
  receiving sending : Side

abbrev pub sub_usize : ℕ → ℕ → ℕ
sub_usize a b = (a + usize_mod - b) % usize_mod

module _ {A W : Type 0} where
  abbrev pub waiters : Side → Inner A W → WaiterList W
  waiters receiving s = s.recv_waiters
  waiters sending s = s.send_waiters

  abbrev pub set_waiters : Side → WaiterList W → Inner A W → Inner A W
  set_waiters receiving l s = record s { recv_waiters = l }
  set_waiters sending l s = record s { send_waiters = l }

  abbrev pub waiting : Side → Inner A W → ℕ
  waiting receiving s = s.flags.waiting_receivers
  waiting sending s = s.flags.waiting_senders

  abbrev pub set_waiting : Side → ℕ → Inner A W → Inner A W
  set_waiting receiving n = set_flags λ f. record f { waiting_receivers = n }
  set_waiting sending n = set_flags λ f. record f { waiting_senders = n }

module _ {W : Type 0} where
  -- Whether a list has an entry with an id.
  unfoldable pub has : ℕ → WaiterList W → Bool
  has my [] = false
  has my ((id, w) ∷ l) = id == my || has my l

  -- The list without its first entry of an id.
  unfoldable pub remove_entry : ℕ → WaiterList W → WaiterList W
  remove_entry my [] = []
  remove_entry my ((id, w) ∷ l) = if id == my then l else (id, w) ∷ remove_entry my l

  unfoldable pub refresh : (W → W → Bool) → ℕ → W → WaiterList W → WaiterList W
  refresh will_wake my waker [] = []
  refresh will_wake my waker ((id, w) ∷ l) =
      if id == my
      then (id, if will_wake w waker then w else waker) ∷ l
      else (id, w) ∷ refresh will_wake my waker l

  unfoldable pub first_waker : WaiterList W → Option W
  first_waker [] = none
  first_waker ((id, w) ∷ l) = some w

module _ {A W : Type 0} where
  -- A new entry at the back of the list.
  unfoldable pub enqueue : Side → ℕ → W → Inner A W → Inner A W
  enqueue side my waker s =
      set_waiting side (add_usize (waiting side s) 1)
        (set_waiters side (waiters side s ++ (my, waker) ∷ []) s)

  -- The locked part of `register`: the id that the future has then, and the state.
  unfoldable pub registered : (W → W → Bool) → Side → Option ℕ → W → Inner A W → ℕ × Inner A W
  unfolding enqueue
  registered will_wake side none waker s =
      let my = s.flags.next_waiter_id in
      (
        my,
        enqueue side my waker
            (set_flags (λ f. record f { next_waiter_id = add_usize f.next_waiter_id 1 }) s),
      )
  registered will_wake side (some my) waker s =
      if has my (waiters side s)
      then (my, set_waiters side (refresh will_wake my waker (waiters side s)) s)
      else (my, enqueue side my waker s)

  unfoldable pub register : (W → W → Bool) → Side → Option ℕ → W → Act A W ℕ
  register will_wake side id waker =
      fetch (λ s. (registered will_wake side id waker s).0)
        (λ s. (registered will_wake side id waker s).1)

  -- `Waker::wake` runs code of the executor: it is recorded.
  unfoldable pub wake : W → Act A W (Unit {0})
  wake w = store λ s. record s { woken = w ∷ s.woken }

  -- The locked part of `notify_one`.
  unfoldable pub drop_first : Side → Inner A W → Inner A W
  drop_first side s = elim (waiters side s) [
    | [] ↦ s
    | e ∷ l ↦ set_waiting side (sub_usize (waiting side s) 1) (set_waiters side l s)
  ]

  unfoldable pub notify_one : Side → Act A W (Unit {0})
  notify_one side = do
    waker ← fetch (λ s. first_waker (waiters side s)) (drop_first side)
    elim waker [ none ↦ return tt | some w ↦ wake w ]

  unfoldable pub wake_each : WaiterList W → Act A W (Unit {0})
  wake_each [] = return tt
  wake_each ((id, w) ∷ l) = let rest = wake_each l in do wake w; rest

  -- The locked part of `notify_all`.
  unfoldable pub clear : Side → Inner A W → Inner A W
  clear side s = set_waiting side 0 (set_waiters side [] s)

  unfoldable pub notify_all : Side → Act A W (Unit {0})
  unfolding clear
  notify_all side = do entries ← fetch (waiters side) (clear side); wake_each entries

  -- The locked part of `notify_many`.
  unfoldable pub drop_many : Side → ℕ → Inner A W → Inner A W
  drop_many side limit s =
      let n = min limit (length (waiters side s)) in
      set_waiting side (sub_usize (waiting side s) n) (set_waiters side (drop n (waiters side s)) s)

  unfoldable pub notify_many : Side → ℕ → Act A W (Unit {0})
  unfolding drop_many
  notify_many side limit = if limit == 1 then notify_one side else (do
    entries ←
        fetch (λ s. take (min limit (length (waiters side s))) (waiters side s))
          (drop_many side limit)
    wake_each entries)

  -- The locked part of `unregister`, if the entry is there.
  unfoldable pub cancel : Side → ℕ → Inner A W → Inner A W
  cancel side my s =
      if has my (waiters side s)
      then set_waiting side (sub_usize (waiting side s) 1)
          (set_waiters side (remove_entry my (waiters side s)) s)
      else s

  -- The future's id is taken: it has none afterwards.
  unfoldable pub unregister : Side → Option ℕ → Bool → Act A W (Unit {0})
  unregister side none forward = return tt
  unregister side (some my) forward = do
    gone ← if forward then return false else (do n ← load (waiting side); return (n == 0))
    if gone then return tt else (do
      found ← fetch (λ s. has my (waiters side s)) (cancel side my)
      if found || not forward then return tt else notify_one side)
