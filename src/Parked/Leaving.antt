-- ===== src/Parked/Leaving.antt =====
-- A waiter list and its counter after an entry has left, in src/lib.rs.
use rapidfire.Prelude.{ℕ, suc, ◌≡◌, refl, true, List, ◌∷◌, length, ◌<◌, Distinct, arith, ap}
use rapidfire.Shared.{WaiterList, Inner}
use rapidfire.Channel.Waiters.{Side, receiving, sending, waiters, has, cancel, sub_usize}
use rapidfire.Parked.Invariant.{IsParked}
use rapidfire.Layout.{usize_mod}
use rapidfire.Parked.Entries.{ids, others, remove_entry-others, length-remove_entry}

-- The count of a list after its first entry is gone.
pub uncounted :
    {B : Type 0} (n : ℕ) (x : B) (l : List B)
    → n ≡ length (x ∷ l)
    → length (x ∷ l) < usize_mod
    → sub_usize n 1 ≡ length l
uncounted n x l h k =
    let e : n ≡ suc (length l) = h in let m : suc (length l) < usize_mod = k in omega arith

-- The count of a list after the entry of an id is gone.
counted :
    {W : Type 0} (n my : ℕ) (l : WaiterList W)
    → n ≡ length l
    → length l < usize_mod
    → Distinct (ids l)
    → has my l ≡ true
    → sub_usize n 1 ≡ length (others my l)
counted n my l h k d e =
    let m = length-remove_entry my l e in
    let o = ap length (remove_entry-others my l d) in omega arith

module _ {A W : Type 0} where
  -- The state with this list of one side, counted.
  abbrev pub parked : Side → WaiterList W → Inner A W → Inner A W
  parked receiving l s = record s {
    flags = record s.flags { waiting_receivers = length l };
    recv_waiters = l;
  }
  parked sending l s = record s {
    flags = record s.flags { waiting_senders = length l };
    send_waiters = l;
  }

  pub cancel_lem :
      (s : Inner A W) (side : Side) (my : ℕ)
      → IsParked s
      → has my (waiters side s) ≡ true
      → cancel side my s ≡ parked side (others my (waiters side s)) s
  unfolding cancel
  cancel_lem s receiving my h e =
      let l = s.recv_waiters in
      let k = remove_entry-others my l h.0.3 in
      let c : sub_usize s.flags.waiting_receivers 1 ≡ length (others my l) =
        counted s.flags.waiting_receivers my l h.0.0 h.0.1 h.0.3 e in
      rw (e, k, c) refl
  cancel_lem s sending my h e =
      let l = s.send_waiters in
      let k = remove_entry-others my l h.1.3 in
      let c : sub_usize s.flags.waiting_senders 1 ≡ length (others my l) =
        counted s.flags.waiting_senders my l h.1.0 h.1.1 h.1.3 e in
      rw (e, k, c) refl
