-- ===== src/Queue/Backoff.antt =====
-- `Backoff` of src/queue.rs: how long a waiting loop polls before it gives up its thread. The state
-- is the counter; `spin_loop` and `yield_now` are what a call did, as a list.
pub mod Bounds
use rapidfire.Prelude.{ℕ, ◌+◌, ◌-◌, ◌^◌, Bool, true, false, ltb, leb, if◌then◌else◌, min}

abbrev pub spin_limit : ℕ
spin_limit = 6

abbrev pub tight_polls : ℕ
tight_polls = 64

abbrev pub snooze_limit : ℕ
snooze_limit = tight_polls + 8

pub data Pause : Type 0 where
  pauses : ℕ → Pause
  yields : Pause

-- A new counter and the number of `spin_loop` calls.
unfoldable pub spin : ℕ → ℕ × ℕ
spin c = (if leb c spin_limit then c + 1 else c, 2 ^ min c spin_limit)

unfoldable pub snooze : ℕ → ℕ × Pause
snooze c =
    if ltb c tight_polls
    then (c + 1, pauses 1)
    else if ltb c snooze_limit
    then (c + 1, pauses (2 ^ (c - tight_polls)))
    else (c, yields)

unfoldable pub snooze_bounded : ℕ → ℕ × Bool
unfolding snooze
snooze_bounded c = if leb snooze_limit c then (c, false) else ((snooze c).0, true)
