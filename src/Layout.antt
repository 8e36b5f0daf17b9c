-- ===== src/Layout.antt =====
-- The positions of src/queue.rs: constants, slot tags, counting. The build is the default one, with
-- LAP_SHIFT = 6 (`fcrs_small_blocks` and `loom` set 2); a `usize` has 64 bits.
use rapidfire.Prelude.{ℕ, ◌+◌, ◌-◌, ◌*◌, ◌/◌, ◌%◌, leb, if◌then◌else◌}

abbrev pub lap_shift : ℕ
lap_shift = 6

-- `1 << LAP_SHIFT`
abbrev pub lap : ℕ
lap = 64

abbrev pub block_cap : ℕ
block_cap = 63

-- 2 ^ 64
abbrev pub usize_mod : ℕ
usize_mod = 18446744073709551616

-- `usize::MAX`, as the `start` of a block outside the chain
abbrev pub pooled : ℕ
pooled = 18446744073709551615

-- `usize::MAX`, as a capacity
abbrev pub unbounded : ℕ
unbounded = 18446744073709551615

abbrev pub contention_window : ℕ
contention_window = 64

-- `+` on `usize`, which wraps (an atomic `fetch_add` always, `+` in a release build).
abbrev pub add_usize : ℕ → ℕ → ℕ
add_usize a b = (a + b) % usize_mod

-- `position & OFFSET_MASK`
abbrev pub offset_of : ℕ → ℕ
offset_of p = p % 64

-- `position >> LAP_SHIFT`
abbrev pub lap_of : ℕ → ℕ
lap_of p = p / 64

-- `position & !OFFSET_MASK`
abbrev pub start_of : ℕ → ℕ
start_of p = p - p % 64

-- `(lap << 2) | TAG_WRITTEN`: the shift leaves the two low bits clear.
abbrev pub written_tag : ℕ → ℕ
written_tag l = l * 4 % usize_mod + 1

-- The subtractions do not go below 0 where they are made.
unfoldable pub items_between : ℕ → ℕ → ℕ
items_between head tail = if leb tail head then 0 else tail - head - (lap_of tail - lap_of head)
