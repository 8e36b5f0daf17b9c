-- ===== src/Interference/After.antt =====
-- Postconditions of the actions of Sync: a call returns, and its postcondition holds then.
use rapidfire.Sync.{World, Outcome, done, starved, fault, panicked, M, ◌>>=◌}

abbrev pub After : {S R : Type 0} → (R → World S → Type 0) → Outcome S R → Type 0
After Q (done r w) = Q r w
After Q starved = ⊥
After Q fault = ⊥
After Q panicked = ⊥

After-outcome :
    {S R P : Type 0} (o : Outcome S R) (f : R → M S P) (w : World S) (Q : R → World S → Type 0)
    (Q' : P → World S → Type 0)
    → After Q o
    → ((r : R) (w' : World S) → Q r w' → After Q' (f r w'))
    → After Q' (((λ _. o) >>= f) w)
After-outcome (done r w') f w Q Q' h k = k r w' h
After-outcome starved f w Q Q' h k = absurd h
After-outcome fault f w Q Q' h k = absurd h
After-outcome panicked f w Q Q' h k = absurd h

-- What holds after a call holds before the next.
pub After-bind :
    {S R P : Type 0} (m : M S R) (f : R → M S P) (w : World S) (Q : R → World S → Type 0)
    (Q' : P → World S → Type 0)
    → After Q (m w)
    → ((r : R) (w' : World S) → Q r w' → After Q' (f r w'))
    → After Q' ((m >>= f) w)
After-bind m f w Q Q' h k = After-outcome (m w) f w Q Q' h k

-- A postcondition follows from a stronger one.
pub After-weaken :
    {S R : Type 0} (o : Outcome S R) (Q Q' : R → World S → Type 0)
    → After Q o
    → ((r : R) (w : World S) → Q r w → Q' r w)
    → After Q' o
After-weaken (done r w) Q Q' h k = k r w h
After-weaken starved Q Q' h k = h
After-weaken fault Q Q' h k = h
After-weaken panicked Q Q' h k = h

-- A call ends: it returns, and its postcondition holds then, or the memory that it finds makes it
-- fault. It does not run out of fuel.
abbrev pub Reaches : {S R : Type 0} → (R → World S → Type 0) → Outcome S R → Type 0
Reaches Q (done r w) = Q r w
Reaches Q starved = ⊥
Reaches Q fault = Unit
Reaches Q panicked = Unit

pub After-Reaches :
    {S R : Type 0} (Q : R → World S → Type 0) (o : Outcome S R) → After Q o → Reaches Q o
After-Reaches Q (done r w) h = h
After-Reaches Q starved h = h
After-Reaches Q fault h = tt
After-Reaches Q panicked h = tt

pub Reaches-bind :
    {S R P : Type 0} (m : M S R) (f : R → M S P) (w : World S) (Q : R → World S → Type 0)
    (Q' : P → World S → Type 0)
    → Reaches Q (m w)
    → ((r : R) (w' : World S) → Q r w' → Reaches Q' (f r w'))
    → Reaches Q' ((m >>= f) w)
Reaches-bind {S} {R} m f w Q Q' h k = go (m w) h
  where
    go : (o : Outcome S R) → Reaches Q o → Reaches Q' (((λ _. o) >>= f) w)
    go (done r w') h = k r w' h
    go starved h = h
    go fault h = tt
    go panicked h = tt
