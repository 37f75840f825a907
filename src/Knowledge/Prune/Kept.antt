-- ===== src/Knowledge/Prune/Kept.antt =====
-- What internal/knowledge/prune.go keeps, and what it evicts.
use mathlib.Core.List.{Perm, Permᴰ}
use mathlib.Core.Logic.{∥∥₁_elim}
use native.Mathlib.Nat.{ℕ_set}
use agentfab.Prelude.{
  ℕ, zero, suc, ◌+◌, ◌-◌, ◌≤◌, String, List, [], ◌∷◌, ◌++◌, Bool, true, false, not, ◌&&◌, map, ◌==◌,
  eq_iff, ◌≡◌, ◌≢◌, eq_sym, refl, sym, ap, ◌∙◌, inl, inr, if◌then◌else◌, ltb, none, Table, delete,
  lookup, lookup-delete, select, length, length-map, In, In-select, contains, In-contains, arith,
  Bool-cases,
}
use agentfab.Knowledge.{Node}
use agentfab.Knowledge.Prune.{delete_all, ids_where, Ranked, ranked, take, Sort, excess_ids}

Permᴰ-length-select :
    {A : Type 0} (p : A → Bool) {xs ys : List A}
    → Permᴰ xs ys
    → length (select p xs) ≡ length (select p ys)
unfolding select
Permᴰ-length-select p Permᴰ.nil = refl
Permᴰ-length-select p (Permᴰ.cons {a = a} {b = b} e h) =
    ground (arith, Permᴰ-length-select p h, ap p e)
Permᴰ-length-select p (Permᴰ.swap e f) = ground (arith, ap p e, ap p f)
Permᴰ-length-select p (Permᴰ.trans h k) = Permᴰ-length-select p h ∙ Permᴰ-length-select p k

pub Perm-length-select :
    {A : Type 0} (p : A → Bool) {xs ys : List A}
    → Perm xs ys
    → length (select p xs) ≡ length (select p ys)
Perm-length-select p h = ∥∥₁_elim h (ℕ_set _ _) (Permᴰ-length-select p)

pub length-select_split {ℓ} :
    {A : Type ℓ} (p : A → Bool) (xs : List A)
    → length (select p xs) + length (select (λ x. not (p x)) xs) ≡ length xs
unfolding select
length-select_split p [] = refl
length-select_split p (x ∷ xs) = ground (arith, length-select_split p xs)

length-select-map :
    {A B : Type 0} (f : A → B) (p : B → Bool) (xs : List A)
    → length (select p (map f xs)) ≡ length (select (λ x. p (f x)) xs)
unfolding select
length-select-map f p [] = refl
length-select-map f p (x ∷ xs) = ground (arith, length-select-map f p xs)

select-select :
    {A : Type 0} (p q r : A → Bool) (xs : List A)
    → ((x : A) → (q x && p x) ≡ r x)
    → select p (select q xs) ≡ select r xs
unfolding select
select-select p q r [] h = refl
select-select p q r (x ∷ xs) h = ground (arith, select-select p q r xs h, h x)

select_all : {A : Type 0} (xs : List A) → select (λ _. true) xs ≡ xs
unfolding select
select_all [] = refl
select_all (x ∷ xs) = ap (λ ys. x ∷ ys) (select_all xs)

delete-select :
    (id : String) (nodes : Table Node)
    → delete id nodes ≡ select (λ (p : String × Node). not (p.0 == id)) nodes
unfolding select delete
delete-select id [] = refl
delete-select id ((k, n) ∷ rest) = ground (arith, delete-select id rest)

pub delete_all-select :
    (ids : List String) (nodes : Table Node)
    → delete_all ids nodes ≡ select (λ (p : String × Node). not (contains ids p.0)) nodes
unfolding delete_all contains
delete_all-select [] nodes = sym (select_all nodes)
delete_all-select (x ∷ ids) nodes =
    delete_all-select ids (delete x nodes)
    ∙ ap (select _) (delete-select x nodes)
    ∙ select-select _ _ _ nodes (λ p. ground (arith, eq_sym p.0 x))

pub lookup-delete_all :
    (ids : List String) (nodes : Table Node) (id : String)
    → lookup id (delete_all ids nodes) ≡ (if contains ids id then none else lookup id nodes)
unfolding delete_all contains
lookup-delete_all [] nodes id = refl
lookup-delete_all (x ∷ ids) nodes id =
    ground (arith, lookup-delete_all ids (delete x nodes) id, lookup-delete x id nodes)

pub In-delete_all :
    (ids : List String) (nodes : Table Node) (p : String × Node)
    → In p (delete_all ids nodes)
    → In p nodes × (contains ids p.0 ≡ false)
In-delete_all ids nodes p m =
    let (k, t) =
      In-select (λ (p : String × Node). not (contains ids p.0)) p nodes
        (rw (delete_all-select ids nodes) at m) in
    (k, ground arith)

ids_where-In :
    (test : Node → Bool) (nodes : Table Node) (p : String × Node)
    → In p nodes
    → test p.1 ≡ true
    → contains (ids_where test nodes) p.0 ≡ true
unfolding ids_where contains
ids_where-In test [] p m h = elim m [ ]
ids_where-In test ((k, n) ∷ rest) p (inl e) h =
    let t : test n ≡ true = ap (λ (q : String × Node). test q.1) (sym e) ∙ h in
    rw t (ground (arith, eq_iff k p.0, ap (λ (q : String × Node). q.0) (sym e)))
ids_where-In test ((k, n) ∷ rest) p (inr m) h = ground (arith, ids_where-In test rest p m h)

true-ne-false : true ≢ false
true-ne-false h = cc h

-- What is left after what fails a test has gone.
pub left-passes :
    (test : Node → Bool) (nodes : Table Node) (p : String × Node)
    → In p (delete_all (ids_where test nodes) nodes)
    → In p nodes × (test p.1 ≡ false)
left-passes test nodes p m =
    let (k, c) = In-delete_all (ids_where test nodes) nodes p m in
    (
      k,
      elim (Bool-cases (test p.1)) [
        | inl t ↦ absurd (true-ne-false (sym (ids_where-In test nodes p k t) ∙ c))
        | inr f ↦ f
      ],
    )

pub delete_all-append :
    (ids more : List String) (nodes : Table Node)
    → delete_all more (delete_all ids nodes) ≡ delete_all (ids ++ more) nodes
unfolding delete_all
delete_all-append [] more nodes = refl
delete_all-append (id ∷ ids) more nodes = delete_all-append ids more (delete id nodes)

-- The first of a list are counted by their IDs.
take-counted :
    (k : ℕ) (rs : List Ranked) (ids : List String)
    → ((id : String) → In id (map (λ r. r.id) (take k rs)) → contains ids id ≡ true)
    → k ≤ length rs
    → k ≤ length (select (λ (r : Ranked). contains ids r.id) rs)
unfolding take select
take-counted zero rs ids h le = omega arith
take-counted (suc k) [] ids h le = omega arith
take-counted (suc k) (r ∷ rs) ids h le =
    let first = h r.id (inl refl) in
    let rest = take-counted k rs ids (λ id m. h id (inr m)) (omega arith) in ground arith

module _ (sort : Sort) (sorts : (rs : List Ranked) → Perm (sort rs) rs) where
  length-delete_all :
      (ids : List String) (k : ℕ) (nodes : Table Node)
      → k ≤ length (select (λ (r : Ranked). contains ids r.id) (sort (map ranked nodes)))
      → length (delete_all ids nodes) + k ≤ length nodes
  length-delete_all ids k nodes le = rw (delete_all-select ids nodes) (
      omega (
        arith,
        le,
        length-select_split (λ (p : String × Node). contains ids p.0) nodes,
        length-select-map ranked (λ (r : Ranked). contains ids r.id) nodes,
        Perm-length-select (λ (r : Ranked). contains ids r.id) (sorts (map ranked nodes)),
      ))

  length-sort : (rs : List Ranked) → length (sort rs) ≡ length rs
  length-sort rs =
      sym (ap length (select_all (sort rs)))
      ∙ Perm-length-select (λ _. true) (sorts rs)
      ∙ ap length (select_all rs)

  pub excess-length :
      (limit : ℕ) (nodes : Table Node)
      → length (delete_all (excess_ids sort limit nodes) nodes) ≤ limit
  unfolding excess_ids delete_all
  excess-length limit nodes = elim (Bool-cases (ltb limit (length nodes))) [
    | inl t ↦
        let k = length nodes - limit in
        let rs = sort (map ranked nodes) in
        let ids = map (λ (r : Ranked). r.id) (take k rs) in
        let le =
          take-counted k rs ids (In-contains ids)
            (omega (arith, length-sort (map ranked nodes), length-map ranked nodes)) in
        let fits : length (delete_all ids nodes) + k ≤ length nodes =
          length-delete_all ids k nodes le in
        rw t (ground arith)
    | inr f ↦ rw f (ground arith)
  ]
