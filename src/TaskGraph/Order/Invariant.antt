-- ===== src/TaskGraph/Order/Invariant.antt =====
-- What the loop of `TopologicalSort` in internal/taskgraph/dag.go keeps, where no two tasks have
-- one ID.
use mathlib.Core.List.{append_assoc}
use agentfab.Prelude.{
  In-map, ◌∙◌, ℕ, ◌+◌, String, List, [], ◌∷◌, ◌++◌, ◌==◌, eq_iff, ◌≡◌, sym, ◌⊎◌, inl, inr, In,
  In-append, In-append_left, In-append_right, arith, Bool-cases, ◌≢◌, insert,
}
use agentfab.Prelude.Int.{pos}
use agentfab.TaskGraph.{TaskNode}
use agentfab.TaskGraph.Dependents.{DependsOn}
use agentfab.TaskGraph.Order.{degree, Sorting}
use agentfab.TaskGraph.Order.Degrees.{Distinct, ids, count, blocked, degree-insert, total}

-- Each text stands behind all that it depends on.
abbrev pub Follows : List TaskNode → List String → List String → Type 0
Follows tasks seen [] = Unit
Follows tasks seen (x ∷ xs) =
    ((d : String) → DependsOn tasks d x → In d seen) × Follows tasks (x ∷ seen) xs

pub Follows-snoc :
    (tasks : List TaskNode) (seen xs : List String) (x : String)
    → Follows tasks seen xs
    → ((d : String) → DependsOn tasks d x → In d seen ⊎ In d xs)
    → Follows tasks seen (xs ++ x ∷ [])
Follows-snoc tasks seen [] x f h =
    ((λ d dep. elim (h d dep) [ inl m ↦ m | inr none_left ↦ absurd none_left ]), tt)
Follows-snoc tasks seen (y ∷ xs) x f h = (
  f.0,
  Follows-snoc tasks (y ∷ seen) xs x f.1 (λ d dep. elim (h d dep) [
    | inl m ↦ inl (inr m)
    | inr (inl e) ↦ inl (inl e)
    | inr (inr m) ↦ inr m
  ]),
)

Distinct-snoc : (xs : List String) (x : String) → Distinct xs → ¬ In x xs → Distinct (xs ++ x ∷ [])
Distinct-snoc [] x d h = ((λ m. m), tt)
Distinct-snoc (y ∷ xs) x d h = (
  λ m. elim (In-append y xs (x ∷ []) m) [
    | inl old ↦ d.0 old
    | inr (inl e) ↦ h (inl (sym e))
    | inr (inr none_left) ↦ none_left
  ],
  Distinct-snoc xs x d.1 (λ m. h (inr m)),
)

pub Distinct-middle :
    (xs : List String) (x : String) (ys : List String) → Distinct (xs ++ x ∷ ys) → ¬ In x xs
Distinct-middle [] x ys d m = m
Distinct-middle (y ∷ xs) x ys d (inl e) = d.0 (In-append_right y xs (x ∷ ys) (inl (sym e)))
Distinct-middle (y ∷ xs) x ys d (inr m) = Distinct-middle xs x ys d.1 m

pub unique_task :
    (tasks : List TaskNode) (t u : TaskNode)
    → Distinct (ids tasks)
    → In t tasks
    → In u tasks
    → t.id ≡ u.id
    → t ≡ u
unique_task [] t u d m k e = elim m [ ]
unique_task (x ∷ ts) t u d (inl a) (inl b) e = a ∙ sym b
unique_task (x ∷ ts) t u d (inl a) (inr k) e =
    absurd (d.0 (In-map (λ (t : TaskNode). t.id) u ts k (cc)))
unique_task (x ∷ ts) t u d (inr m) (inl b) e =
    absurd (d.0 (In-map (λ (t : TaskNode). t.id) t ts m (cc)))
unique_task (x ∷ ts) t u d (inr m) (inr k) e = unique_task ts t u d.1 m k e

module _ (tasks : List TaskNode) (distinct : Distinct (ids tasks)) where
  -- While the dependents `cs` of the last item are still to be looked at.
  pub record Inv (cs : List String) (s : Sorting) (queue : List String) : Type 0 where
    pub degrees :
        (t : TaskNode)
        → In t tasks
        → degree s.in_degree t.id ≡ pos (blocked s.sorted t.depends_on + count t.id cs)
    pub known :
        (c : String)
        → In c (s.sorted ++ queue)
        → (t : TaskNode) × In t tasks
          × (t.id ≡ c)
          × (blocked s.sorted t.depends_on + count t.id cs ≡ 0)
    pub free :
        (t : TaskNode)
        → In t tasks
        → blocked s.sorted t.depends_on + count t.id cs ≡ 0
        → In t.id (s.sorted ++ queue)
    pub once : Distinct (s.sorted ++ queue)
    pub follows : Follows tasks [] s.sorted
    pub named : (c : String) → In c cs → (t : TaskNode) × In t tasks × (t.id ≡ c)

  abbrev pub P : Sorting → List String → Type 0
  P s queue = Inv [] s queue

  abbrev pub Q : ⊥ → Type 0
  Q _ = ⊥

  abbrev pub measure : Sorting → ℕ
  measure s = total s.in_degree

  -- The in-degree of the dependent `c` of the item goes down to `k`.
  module _ {c : String} {cs : List String} {s : Sorting} {queue : List String}
      (inv : Inv (c ∷ cs) s queue) (t : TaskNode) (m : In t tasks) (e : t.id ≡ c) where
    abbrev pub left : ℕ
    left = blocked s.sorted t.depends_on + count t.id cs

    abbrev pub lowered : Sorting
    lowered = record s { in_degree = insert c (pos left) s.in_degree }

    pub degree_before : degree s.in_degree c ≡ pos (left + 1)
    unfolding count
    degree_before = ground (arith, inv.degrees t m, eq_iff c t.id)

    degrees_after :
        (u : TaskNode)
        → In u tasks
        → degree lowered.in_degree u.id ≡ pos (blocked s.sorted u.depends_on + count u.id cs)
    unfolding count
    degrees_after u k = elim (Bool-cases (c == u.id)) [
      | inl same ↦
          let eq : t ≡ u = unique_task tasks t u distinct m k (e ∙ (eq_iff c u.id).0 same) in
          rw (← eq) (degree-insert c t.id (pos left) s.in_degree ∙ ground (arith, eq_iff c t.id))
      | inr other ↦ degree-insert c u.id (pos left) s.in_degree ∙ ground (arith, inv.degrees u k)
    ]

    -- An item that is already queued is not a dependent any more.
    known_after :
        (z : String)
        → In z (s.sorted ++ queue)
        → (u : TaskNode) × In u tasks
          × (u.id ≡ z)
          × (blocked s.sorted u.depends_on + count u.id cs ≡ 0)
    unfolding count
    known_after z k = let (u, l, n, h) = inv.known z k in (u, l, n, omega arith)

    fresh : ¬ In c (s.sorted ++ queue)
    unfolding count
    fresh k = let (u, l, n, h) = inv.known c k in ground (arith, eq_iff c u.id)

    pub keep-Inv : left ≢ 0 → Inv cs lowered queue
    unfolding count
    keep-Inv some_left = record {
      degrees = degrees_after;
      known = known_after;
      free = λ u k h. elim (Bool-cases (c == u.id)) [
        | inl same ↦
            let eq : t ≡ u = unique_task tasks t u distinct m k (e ∙ (eq_iff c u.id).0 same) in
            absurd (some_left (rw (← eq) at h))
        | inr other ↦ inv.free u k (ground arith)
      ];
      once = inv.once;
      follows = inv.follows;
      named = λ d k. inv.named d (inr k);
    }

    pub push-Inv : left ≡ 0 → Inv cs lowered (queue ++ c ∷ [])
    unfolding count
    push-Inv none_left = record {
      degrees = degrees_after;
      known = λ z k.
          elim (In-append z (s.sorted ++ queue) (c ∷ [])
            (rw (← append_assoc s.sorted queue (c ∷ [])) at k)) [
              | inl old ↦ known_after z old
              | inr (inl new) ↦ (t, m, e ∙ sym new, none_left)
              | inr (inr nothing) ↦ absurd nothing
            ];
      free = λ u k h. rw (← append_assoc s.sorted queue (c ∷ [])) (elim (Bool-cases (c == u.id)) [
        | inl same ↦
            In-append_right u.id (s.sorted ++ queue) (c ∷ []) (inl (sym ((eq_iff c u.id).0 same)))
        | inr other ↦ In-append_left u.id (s.sorted ++ queue) (c ∷ []) (inv.free u k (ground arith))
      ]);
      once =
          rw (← append_assoc s.sorted queue (c ∷ []))
            (Distinct-snoc (s.sorted ++ queue) c inv.once fresh);
      follows = inv.follows;
      named = λ d k. inv.named d (inr k);
    }
