-- ===== src/Tests/Backoff.antt =====
-- The theorem on `Backoff` at a concrete input.
use rapidfire.Prelude.{◌≡◌, ◌≤◌, refl, min, ltb}
use rapidfire.Queue.Backoff.{yields, snooze, snooze_bounded}
use rapidfire.Queue.Backoff.Bounds.{snoozes, snoozes_bounded}

all_pauses : (snoozes 80 0).1 ≡ 319
unfolding snooze
all_pauses = refl

snoozes_bounded_example :
    ((snoozes 80 0).1 ≤ 319)
    × ((snoozes 80 0).0 ≡ min 80 72)
    × (72 ≤ 80 → snooze (snoozes 80 0).0 ≡ (72, yields))
    × ((snooze_bounded (snoozes 80 0).0).1 ≡ ltb 80 72)
snoozes_bounded_example = snoozes_bounded 80
