-- ===== src/Threads/Capacity.antt =====
-- The head and the tail of a bounded queue of src/queue.rs when any number of pushes and pops
-- interleave.
use rapidfire.Prelude.{
  ℕ, suc, ◌+◌, ◌≤◌, ◌<◌, ◌≡◌, ◌≢◌, refl, sym, ◌∙◌, subst, Option, Result, Bool, true, false, ◌⊎◌,
  arith,
}
use mathlib.Core.Bool.{true≢false}
use rapidfire.Layout.{unbounded, usize_mod, items_between}
use rapidfire.Shared.{Inner}
use rapidfire.Threads.Program.{Program, ◌>>=◌}
use rapidfire.Threads.Push.{push}
use rapidfire.Threads.Filling.{push-Admits}
use rapidfire.Threads.Pop.{pop}
use rapidfire.Threads.Consuming.{pop-Consumes}
use rapidfire.Threads.System.{System, Step, turn, Reach, here, later}
use rapidfire.Threads.Seeking.{tail_index}
use rapidfire.Threads.Roles.{head_index, Idle, Consumes-Idle, Consumes-bind}
use rapidfire.Threads.Accesses.{Step-IsBounded, head-access}
use rapidfire.Threads.Indices.{Role, producing, consuming, is_finishing, Plays, IsBounded}
use rapidfire.Threads.Admitting.{cached_head, Anything, Admits-bind, Admits-Idle}

not_true : (b : Bool) → (b ≡ true → ⊥) → b ≡ false
not_true true h = absurd (h refl)
not_true false h = refl

module _ {A W R : Type 0} where
  IsBounded-wider :
      (limit : ℕ) {heads heads' tails tails' : ℕ} (s : System (Inner A W) R)
      → heads ≤ heads'
      → tails ≤ tails'
      → IsBounded limit heads tails s
      → IsBounded limit heads' tails' s
  IsBounded-wider limit s a b c = record {
    role = c.role;
    plays = c.plays;
    alone = c.alone;
    behind = c.behind;
    room = c.room;
    heads_bound = let d = c.heads_bound in omega arith;
    tails_bound = let d = c.tails_bound in omega arith;
  }

  -- The programs of the threads: a push or a pop, with what the caller does after it, which moves
  -- neither index; any other call that moves neither.
  pub data Actor (limit : ℕ) : Program (Inner A W) R → Type 0 where
    pushing :
        (fuel : ℕ) (wake_flag : Inner A W → ℕ) (value : A)
        (rest : Result Bool A → Program (Inner A W) R)
        → ((r : Result Bool A) → Idle (rest r))
        → Actor limit (push fuel limit wake_flag value >>= rest)
    popping :
        (fuel : ℕ) (wake_flag : Inner A W → ℕ) (rest : Option (A × Bool) → Program (Inner A W) R)
        → ((r : Option (A × Bool)) → Idle (rest r))
        → Actor limit (pop fuel limit wake_flag >>= rest)
    bystander : (prog : Program (Inner A W) R) → Idle prog → Actor limit prog

  -- The role in which a thread starts.
  Actor-Plays :
      (limit head : ℕ) (prog : Program (Inner A W) R)
      → limit ≢ unbounded
      → Actor limit prog
      → (r : Role) × (is_finishing r ≡ false) × Plays limit head r prog
  Actor-Plays limit head _ l (pushing fuel flag value rest h) = (
    producing head,
    refl,
    (
      omega arith,
      Admits-bind limit Anything Anything head (push fuel limit flag value) rest
          (push-Admits A W fuel limit head flag value l)
          (λ lo r _. Admits-Idle limit lo (rest r) (h r)),
    ),
  )
  Actor-Plays limit head _ l (popping fuel flag rest h) = (
    consuming,
    refl,
    Consumes-bind (pop fuel limit flag) rest (pop-Consumes A W fuel limit flag) h,
  )
  Actor-Plays limit head _ l (bystander prog h) = (consuming, refl, Consumes-Idle prog h)

  reach-IsBounded :
      (limit : ℕ) (start s : System (Inner A W) R) (n : ℕ)
      → limit ≢ unbounded
      → ((i : ℕ) → Actor limit (start.thread i))
      → cached_head start.shared ≤ head_index start.shared
      → items_between (head_index start.shared) (tail_index start.shared) ≤ limit
      → head_index start.shared + n < usize_mod
      → tail_index start.shared + n < usize_mod
      → Reach start n s
      → IsBounded limit (head_index start.shared + n) (tail_index start.shared + n) s
  reach-IsBounded limit start _ _ l actors behind room sh st here =
      let starts =
        λ (i : ℕ). Actor-Plays limit (head_index start.shared) (start.thread i) l (actors i) in
      record {
        role = λ i. (starts i).0;
        plays = λ i. (starts i).2;
        alone = λ i j a. absurd (true≢false (sym a ∙ (starts i).1));
        behind = behind;
        room = room;
        heads_bound = omega arith;
        tails_bound = omega arith;
      }
  reach-IsBounded limit start t (suc n) l actors behind room sh st (later {s = s} r step) =
      IsBounded-wider limit t (omega arith) (omega arith) (
        Step-IsBounded limit (head_index start.shared + n) (tail_index start.shared + n) s t
          (omega arith) (omega arith)
          (reach-IsBounded limit start s n l actors behind room (omega arith) (omega arith) r) step)

  -- Any number of threads push to a bounded queue and pop from it, their accesses interleave in any
  -- way, and weak exchanges may fail. Let the queue hold no more values than its capacity at first,
  -- its cached head be behind its head, and the accesses be too few for the indices to wrap. Then
  -- never do more values lie between the head and the tail than the capacity.
  pub capacity_kept :
      (limit n : ℕ) (start s : System (Inner A W) R)
      → limit ≢ unbounded
      → ((i : ℕ) → Actor limit (start.thread i))
      → cached_head start.shared ≤ head_index start.shared
      → items_between (head_index start.shared) (tail_index start.shared) ≤ limit
      → head_index start.shared + n < usize_mod
      → tail_index start.shared + n < usize_mod
      → Reach start n s
      → items_between (head_index s.shared) (tail_index s.shared) ≤ limit
  capacity_kept limit n start s l actors behind room sh st r =
      let c = reach-IsBounded limit start s n l actors behind room sh st r in c.room

  -- Any number of threads push to a bounded queue and pop from it, as `capacity_kept` has it. Then
  -- the next access of any thread leaves the head where it is or moves it by exactly one; the store
  -- with which a pop moves the head over a sentinel is such an access too.
  pub head_advances :
      (limit n : ℕ) (start s t : System (Inner A W) R)
      → limit ≢ unbounded
      → ((i : ℕ) → Actor limit (start.thread i))
      → cached_head start.shared ≤ head_index start.shared
      → items_between (head_index start.shared) (tail_index start.shared) ≤ limit
      → head_index start.shared + suc n < usize_mod
      → tail_index start.shared + suc n < usize_mod
      → Reach start n s
      → Step s t
      → (head_index t.shared ≡ head_index s.shared)
        ⊎ (head_index t.shared ≡ suc (head_index s.shared))
  head_advances limit n start s _ l actors behind room sh st r (turn i weak f k eq) =
      let c = reach-IsBounded limit start s n l actors behind room (omega arith) (omega arith) r in
      head-access limit (head_index start.shared + n) (tail_index start.shared + n) s weak f k c
        (omega arith) (c.role i)
        (subst (Plays limit (head_index s.shared) (c.role i)) eq (c.plays i))
