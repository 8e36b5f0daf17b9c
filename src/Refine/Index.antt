-- ===== src/Refine/Index.antt =====
-- The positions of the values: the value with number `k`, counted from the first one ever sent,
-- stands at position `pos k`, past one sentinel for each full block before it.
use rapidfire.Prelude.{ℕ, ◌+◌, ◌-◌, ◌*◌, ◌/◌, ◌%◌, ◌<◌, ◌≡◌, ◌==◌, if◌then◌else◌, arith}
use rapidfire.Layout.{block_cap, offset_of, lap_of, start_of, written_tag, usize_mod, items_between}

abbrev pub pos : ℕ → ℕ
pos k = k + k / 63

pub lap_of-pos : (k : ℕ) → lap_of (pos k) ≡ k / 63
lap_of-pos k = omega arith

pub offset_of-pos : (k : ℕ) → offset_of (pos k) ≡ k % 63
offset_of-pos k = omega arith

pub start_of-pos : (k : ℕ) → start_of (pos k) ≡ k / 63 * 64
start_of-pos k = omega arith

-- `items_between` counts the values between two positions: it leaves the sentinels out.
pub items_between-pos : (h t : ℕ) → items_between (pos h) (pos t) ≡ t - h
unfolding items_between
items_between-pos h t = ground arith

-- The position at which the next value goes: past a sentinel.
abbrev pub next_pos : ℕ → ℕ
next_pos p = if offset_of p == block_cap then p + 1 else p

-- A tail on a sentinel counts as the position after it.
pub items_between-next_pos :
    (h p : ℕ) → items_between (pos h) p ≡ items_between (pos h) (next_pos p)
unfolding items_between
items_between-next_pos h p = ground arith

-- Tags of different laps differ, and no tag is the 0 of a fresh slot.
pub written_tag-injective :
    (k l : ℕ) → k * 4 < usize_mod → l * 4 < usize_mod → written_tag k ≡ written_tag l → k ≡ l
written_tag-injective k l hk hl e = omega arith
