-- ===== src/Knowledge/Cold/Moved.antt =====
-- What internal/knowledge/cold.go, MoveToCold, takes from the active graph, and where it puts it.
use agentfab.Prelude.{
  ℕ, String, List, [], ◌∷◌, ◌++◌, map, Bool, true, false, ◌&&◌, ◌||◌, ◌==◌, eq_iff, eq_refl, ◌≡◌,
  refl, sym, ap, subst, ◌∙◌, inl, inr, if◌then◌else◌, none, some, Table, lookup, lookup-insert,
  insert, lookup-delete, select, In, contains_absent, contains, arith, Bool-cases,
}
use agentfab.Knowledge.{Node}
use agentfab.Knowledge.Merge.Merged.{Distinct}
use agentfab.Knowledge.Cold.{Storage, Move, move_node, move_if, move_nodes}

-- The keys of what a test picks.
abbrev pub picked : (Node → Bool) → Table Node → List String
picked test ps = map (λ (p : String × Node). p.0) (select (λ (p : String × Node). test p.1) ps)

abbrev pub ids_of : Table Node → List String
ids_of ps = map (λ (p : String × Node). p.0) ps

contains-append :
    (xs ys : List String) (k : String) → contains (xs ++ ys) k ≡ (contains xs k || contains ys k)
unfolding contains
contains-append [] ys k = refl
contains-append (x ∷ xs) ys k = ground (arith, contains-append xs ys k)

picked-In :
    (test : Node → Bool) (ps : Table Node) (id : String)
    → In id (picked test ps)
    → In id (ids_of ps)
unfolding select
picked-In test [] id m = elim m [ ]
picked-In test (p ∷ ps) id m = elim (Bool-cases (test p.1)) [
  | inl t ↦ elim (rw t at m) [ inl e ↦ inl e | inr r ↦ inr (picked-In test ps id r) ]
  | inr f ↦ inr (picked-In test ps id (rw f at m))
]

In-ids_of : (ps : Table Node) (id : String) (n : Node) → In (id, n) ps → In id (ids_of ps)
In-ids_of [] id n m = elim m [ ]
In-ids_of (p ∷ ps) id n (inl e) = inl (ap (λ (q : String × Node). q.0) e)
In-ids_of (p ∷ ps) id n (inr m) = inr (In-ids_of ps id n m)

not_picked :
    (test : Node → Bool) (ps : Table Node) (id : String)
    → ¬ In id (ids_of ps)
    → contains (picked test ps) id ≡ false
not_picked test ps id h = contains_absent (picked test ps) id (λ m. h (picked-In test ps id m))

contains-picked :
    (test : Node → Bool) (p : String × Node) (ps : Table Node) (id : String)
    → contains (picked test (p ∷ ps)) id ≡ ((test p.1 && p.0 == id) || contains (picked test ps) id)
unfolding select contains
contains-picked test p ps id = elim (Bool-cases (test p.1)) [
  | inl t ↦ rw t refl
  | inr f ↦ rw f refl
]

-- A key that stands once is picked exactly if its node is.
pub picked_iff :
    (test : Node → Bool) (ps : Table Node) (id : String) (n : Node)
    → Distinct (ids_of ps)
    → In (id, n) ps
    → contains (picked test ps) id ≡ test n
picked_iff test [] id n d m = elim m [ ]
picked_iff test (p ∷ ps) id n d (inl e) =
    let key : id ≡ p.0 = ap (λ (q : String × Node). q.0) e in
    let value : test n ≡ test p.1 = ap (λ (q : String × Node). test q.1) e in
    let absent = not_picked test ps id (λ i. d.0 (subst (λ k. In k (ids_of ps)) key i)) in
    contains-picked test p ps id ∙ ground (arith, absent, eq_iff p.0 id, key, value)
picked_iff test (p ∷ ps) id n d (inr m) =
    let other =
      λ (e : p.0 ≡ id). d.0 (subst (λ k. In k (ids_of ps)) (sym e) (In-ids_of ps id n m)) in
    contains-picked test p ps id
    ∙ ground (arith, picked_iff test ps id n d.1 m, eq_iff p.0 id, other)

pub lookup-In : (ps : Table Node) (id : String) (n : Node) → lookup id ps ≡ some n → In (id, n) ps
unfolding lookup
lookup-In [] id n h = absurd (cc h)
lookup-In ((k, x) ∷ ps) id n h = elim (Bool-cases (k == id)) [
  | inl t ↦ inl (ground (arith, eq_iff k id))
  | inr f ↦ inr (lookup-In ps id n (rw f at h))
]

-- What an insertion under another key leaves was there.
In-insert :
    (key id : String) (new x : Node) (ps : Table Node)
    → (key == id) ≡ false
    → In (id, x) (insert key new ps)
    → In (id, x) ps
unfolding insert
In-insert key id new x [] apart (inl e) =
    absurd (cc (apart, (eq_iff key id).1 (sym (ap (λ (q : String × Node). q.0) e))))
In-insert key id new x [] apart (inr m) = elim m [ ]
In-insert key id new x ((at, w) ∷ ps) apart m = elim (Bool-cases (at == key)) [
  | inl t ↦ elim (rw t at m) [
    | inl e ↦
        absurd (
          ground (arith, apart, t, eq_iff key id, eq_iff at key, ap (λ (q : String × Node). q.0) e))
    | inr k ↦ inr k
  ]
  | inr f ↦ elim (rw f at m) [ inl e ↦ inl e | inr k ↦ inr (In-insert key id new x ps apart k) ]
]

module _ (st : Storage) (now : ℕ) (test : Node → Bool) where
  -- One turn of the loop.
  move_if-active :
      (p : String × Node) (m : Move st) (id : String)
      → lookup id (move_if st now test p m).active
        ≡ (if test p.1 && p.0 == id then none else lookup id m.active)
  unfolding move_if move_node
  move_if-active p m id = ground (arith, lookup-delete p.0 id m.active)

  move_if-cold :
      (p : String × Node) (m : Move st) (id : String)
      → lookup id (move_if st now test p m).cold ≡ (
          if test p.1 && p.0 == id
          then some (record p.1 { updated_at = now })
          else lookup id m.cold)
  unfolding move_if move_node
  move_if-cold p m id =
      ground (arith, lookup-insert p.0 id (record p.1 { updated_at = now }) m.cold)

  move_if-moved :
      (p : String × Node) (m : Move st) (id : String)
      → contains (move_if st now test p m).moved id
        ≡ (contains m.moved id || (test p.1 && p.0 == id))
  unfolding move_if move_node contains
  move_if-moved p m id = ground (arith, contains-append m.moved (p.0 ∷ []) id)

  pub move_nodes-active :
      (ps : Table Node) (m : Move st) (id : String)
      → lookup id (move_nodes st now test ps m).active
        ≡ (if contains (picked test ps) id then none else lookup id m.active)
  unfolding move_nodes select contains
  move_nodes-active [] m id = refl
  move_nodes-active (p ∷ ps) m id =
      move_nodes-active ps (move_if st now test p m) id
      ∙ rw (move_if-active p m id) (rw (contains-picked test p ps id) (ground arith))

  pub move_nodes-moved :
      (ps : Table Node) (m : Move st) (id : String)
      → contains (move_nodes st now test ps m).moved id
        ≡ (contains m.moved id || contains (picked test ps) id)
  unfolding move_nodes select contains
  move_nodes-moved [] m id = ground arith
  move_nodes-moved (p ∷ ps) m id =
      move_nodes-moved ps (move_if st now test p m) id
      ∙ rw (move_if-moved p m id) (rw (contains-picked test p ps id) (ground arith))

  move_nodes-other :
      (ps : Table Node) (m : Move st) (id : String)
      → contains (picked test ps) id ≡ false
      → lookup id (move_nodes st now test ps m).cold ≡ lookup id m.cold
  unfolding move_nodes
  move_nodes-other [] m id h = refl
  move_nodes-other (p ∷ ps) m id h =
      let apart = sym (contains-picked test p ps id) ∙ h in
      move_nodes-other ps (move_if st now test p m) id (ground (arith, apart))
      ∙ move_if-cold p m id
      ∙ ground (arith, apart)

  -- The cold graph has a node that does not move only if it had it.
  move_if-old :
      (p : String × Node) (m : Move st) (id : String) (x : Node)
      → (test p.1 && p.0 == id) ≡ false
      → In (id, x) (move_if st now test p m).cold
      → In (id, x) m.cold
  unfolding move_if move_node
  move_if-old p m id x apart k = elim (Bool-cases (test p.1)) [
    | inl t ↦
        In-insert p.0 id (record p.1 { updated_at = now }) x m.cold (ground (arith, apart, t))
          (rw t at k)
    | inr f ↦ rw f at k
  ]

  pub move_nodes-old :
      (ps : Table Node) (m : Move st) (id : String) (x : Node)
      → contains (picked test ps) id ≡ false
      → In (id, x) (move_nodes st now test ps m).cold
      → In (id, x) m.cold
  unfolding move_nodes
  move_nodes-old [] m id x h k = k
  move_nodes-old (p ∷ ps) m id x h k =
      let apart = sym (contains-picked test p ps id) ∙ h in
      move_if-old p m id x (ground (arith, apart))
        (move_nodes-old ps (move_if st now test p m) id x (ground (arith, apart)) k)

  pub move_nodes-cold :
      (ps : Table Node) (m : Move st) (id : String) (n : Node)
      → Distinct (ids_of ps)
      → In (id, n) ps
      → test n ≡ true
      → lookup id (move_nodes st now test ps m).cold ≡ some (record n { updated_at = now })
  unfolding move_nodes
  move_nodes-cold [] m id n d i t = elim i [ ]
  move_nodes-cold (p ∷ ps) m id n d (inl e) t =
      subst
        (λ (q : String × Node).
          lookup id (move_nodes st now test ps (move_if st now test q m)).cold
          ≡ some (record n { updated_at = now }))
        e
        (move_nodes-other ps (move_if st now test (id, n) m) id (
            not_picked test ps id
              (λ i. d.0 (subst (λ k. In k (ids_of ps)) (ap (λ (q : String × Node). q.0) e) i)))
          ∙ move_if-cold (id, n) m id
          ∙ rw t (rw (eq_refl id) refl))
  move_nodes-cold (p ∷ ps) m id n d (inr i) t =
      move_nodes-cold ps (move_if st now test p m) id n d.1 i t
