-- ===== src/Prelude/Worklist.antt =====
-- `for len(queue) > 0 { id := queue[0]; queue = queue[1:]; … }`: the breadth-first loops of the
-- program, over fuel, with one rule that gives both their end and their invariant.
use Prim.Native.Nat.{ℕ, zero, suc, ◌+◌, ◌≤◌}
use mathlib.Core.Option.{Option, none, some}
use mathlib.Core.List.{List, [], ◌∷◌}
use native.Mathlib.Omega.{arith}
use agentfab.Prelude.Lists.{length}

-- What a round does: it returns from the function, or goes on with its variables and the queue.
pub data Round (A S R : Type 0) : Type 0 where
  stop : R → Round A S R
  go : S → List A → Round A S R

-- How the loop ends: by a return, or with an empty queue. `none` says that the fuel ran out.
pub data Ending (S R : Type 0) : Type 0 where
  returned : R → Ending S R
  emptied : S → Ending S R

module _ {A S R : Type 0} where
  abbrev pub resume : (S → List A → Option (Ending S R)) → Round A S R → Option (Ending S R)
  resume rest (stop r) = some (returned r)
  resume rest (go s queue) = rest s queue

  unfoldable pub drain : ℕ → (A → S → List A → Round A S R) → S → List A → Option (Ending S R)
  drain fuel body s [] = some (emptied s)
  drain zero body s (x ∷ queue) = none
  drain (suc fuel) body s (x ∷ queue) = resume (drain fuel body) (body x s queue)

  module _ (P : S → List A → Type 0) (Q : R → Type 0) (measure : S → ℕ) where
    -- A round keeps the invariant, and takes an item off the queue for good.
    abbrev pub Keeps : S → List A → Round A S R → Type 0
    Keeps s queue (stop r) = Q r
    Keeps s queue (go s' queue') =
        P s' queue' × (measure s' + length queue' ≤ measure s + length queue)

    abbrev pub Ends : Option (Ending S R) → Type 0
    Ends none = ⊥
    Ends (some (returned r)) = Q r
    Ends (some (emptied s)) = P s []

    resume-Ends :
        (rest : S → List A → Option (Ending S R)) (s : S) (queue : List A) {n : ℕ}
        → measure s + length queue ≤ n
        → ((s' : S) (queue' : List A)
            → measure s' + length queue' ≤ n
            → P s' queue'
            → Ends (rest s' queue'))
        → (r : Round A S R) → Keeps s queue r
        → Ends (resume rest r)
    resume-Ends rest s queue h next (stop r) k = k
    resume-Ends rest s queue h next (go s' queue') k = next s' queue' (omega arith) k.0

    -- With fuel for the measure and the queue the loop ends, and its invariant holds there.
    pub drain-Ends :
        (body : A → S → List A → Round A S R)
        → ((x : A) (s : S) (queue : List A) → P s (x ∷ queue) → Keeps s queue (body x s queue))
        → (fuel : ℕ) (s : S) (queue : List A) → measure s + length queue ≤ fuel
        → P s queue
        → Ends (drain fuel body s queue)
    unfolding drain
    drain-Ends body keep fuel s [] h p = p
    drain-Ends body keep zero s (x ∷ queue) h p = absurd (omega arith)
    drain-Ends body keep (suc fuel) s (x ∷ queue) h p =
        resume-Ends (drain fuel body) s queue (omega arith) (drain-Ends body keep fuel)
          (body x s queue) (keep x s queue p)
