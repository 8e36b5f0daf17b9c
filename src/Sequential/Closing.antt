-- ===== src/Sequential/Closing.antt =====
-- The handles of src/lib.rs that go away: `Drop` of `Sender`.
use rapidfire.Prelude.{
  ℕ, zero, suc, ◌<◌, ◌≡◌, refl, Bool, true, false, ◌==◌, if◌then◌else◌, arith, ap, ◌∙◌,
}
use rapidfire.Layout.{usize_mod}
use rapidfire.Sync.{done, bind-done, return, ◌>>◌}
use rapidfire.Shared.{Inner, set_flags}
use rapidfire.Queue.Memory.{Act}
use rapidfire.Channel.Core.{close}
use rapidfire.Channel.Waiters.{sub_usize}
use rapidfire.Channel.Handles.{drop_sender}
use rapidfire.Refine.Claim.{quiet}
use rapidfire.Parked.Wakes.{shut, close_wakes}

module _ {A W : Type 0} where
  -- A channel that has a number of senders.
  abbrev pub with_senders : ℕ → Inner A W → Inner A W
  with_senders n = set_flags λ f. record f { senders = n }

  -- That many senders are dropped, one after the other.
  abbrev pub drop_senders : ℕ → Act A W (Unit {0})
  drop_senders zero = return tt
  drop_senders (suc n) = drop_sender >> drop_senders n

  drop_sender-other :
      (n : ℕ) (s : Inner A W)
      → suc (suc n) < usize_mod
      → drop_sender (quiet (with_senders (suc (suc n)) s))
        ≡ done tt (quiet (with_senders (suc n) s))
  unfolding drop_sender
  drop_sender-other n s h =
      let e : (suc (suc n) == 1) ≡ false = ground arith in
      let k : sub_usize (suc (suc n)) 1 ≡ suc n = ground arith in simp (e, k) refl

  drop_sender-last :
      (s : Inner A W)
      → s.flags.closed ≡ false
      → drop_sender (quiet (with_senders 1 s)) ≡ done tt (quiet (shut (with_senders 0 s)))
  unfolding drop_sender
  drop_sender-last s e = bind-done close _ (
      close_wakes (with_senders 0 s)
      ∙ ap
          (λ (b : Bool).
            if b
            then done false (quiet (with_senders 0 s))
            else done true (quiet (shut (with_senders 0 s))))
          e)

  -- On an open channel with one more senders than a number, dropping that many leaves it open with
  -- one sender, and all else as it was; dropping the last one too closes it, which wakes all that
  -- are parked.
  pub last_drop_closes :
      (n : ℕ) (s : Inner A W)
      → suc n < usize_mod
      → s.flags.closed ≡ false
      → (drop_senders n (quiet (with_senders (suc n) s)) ≡ done tt (quiet (with_senders 1 s)))
        × (drop_senders (suc n) (quiet (with_senders (suc n) s))
            ≡ done tt (quiet (shut (with_senders 0 s))))
  last_drop_closes zero s h e = (refl, bind-done drop_sender _ (drop_sender-last s e))
  last_drop_closes (suc n) s h e =
      let k = drop_sender-other n s (omega arith) in
      let (a, b) = last_drop_closes n s (omega arith) e in
      (bind-done drop_sender _ k ∙ a, bind-done drop_sender _ k ∙ b)
