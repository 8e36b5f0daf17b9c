-- ===== src/Tests/Retired.antt =====
-- The drop of a queue with retired blocks, at a concrete queue.
use rapidfire.Prelude.{
  ℕ, zero, suc, ◌+◌, ◌%◌, ◌/◌, ◌<◌, ◌≡◌, refl, some, none, ◌==◌, if◌then◌else◌, List, [], ◌∷◌,
  length, All, Distinct, get_elem?, arith,
}
use rapidfire.Layout.{written_tag}
use rapidfire.Shared.{Slot, Block, Queue}
use rapidfire.Queue.Teardown.{drop_queue}
use rapidfire.Refine.Holds.{Holds}
use rapidfire.Release.Blocks.{settled, drop_queue_frees}

-- Its first slot has been written in the first lap.
abbrev slot_of : ℕ → Slot ℕ
slot_of o =
    if o == 0 then record { value = some 7; state = 1 } else record { value = none; state = 0 }

abbrev used_block : Block ℕ
used_block = record { start = 0; next = none; prev = none; read_marks = λ _. 0; slots = slot_of }

abbrev three_blocks : ℕ
three_blocks = 3

-- A queue that holds one value. The chain has one of its three blocks, and the other two are retired:
-- their readers had not left when the last of their slots was claimed.
abbrev with_retired : Queue ℕ
with_retired = record {
  head = record { index = 0; block = 0; cached = 0; contended = 0 };
  tail = record { index = 1; block = 0; cached = 0; contended = 0 };
  spare = none;
  pool = record { ready = []; retired = 2 ∷ 1 ∷ [] };
  capacity = 4;
  memory = λ _. used_block;
  allocated = 3;
}

held_value :
    (i x : ℕ)
    → get_elem? (7 ∷ []) i ≡ some x
    → ((slot_of ((0 + i) % 63)).value ≡ some x)
      × ((slot_of ((0 + i) % 63)).state ≡ written_tag ((0 + i) / 63))
held_value zero x e = (e, refl)
held_value (suc i) x e = cc

with_retired-Holds : Holds (settled with_retired) 0 (λ _. 0) (7 ∷ [])
with_retired-Holds = record {
  in_range = omega arith;
  head_index = refl;
  tail_index = refl;
  head_block = refl;
  tail_block = refl;
  cached = (0, refl, omega arith);
  starts = λ l p r. omega arith;
  links = λ l p r. absurd (omega arith);
  alive = λ l p r. omega arith;
  apart = λ k l p r t. absurd (omega arith);
  values = held_value;
  tags = λ a o l p k r e. ground arith;
  free = (
    (omega arith, λ l p r e. absurd (omega arith)),
    ((omega arith, λ l p r e. absurd (omega arith)), tt),
  );
  distinct = (((λ e. absurd (omega arith)), tt), (tt, tt));
  none_retired = refl;
  ends = refl;
  counted = refl;
  within = λ h. omega arith;
}

drop_queue_frees_example :
    (blocks : List ℕ) × (drop_queue with_retired ≡ some (7 ∷ [], blocks))
    × Distinct blocks
    × All (λ b. b < 3) blocks
    × (length blocks ≡ three_blocks)
drop_queue_frees_example = drop_queue_frees with_retired (0, (λ _. 0), with_retired-Holds)
