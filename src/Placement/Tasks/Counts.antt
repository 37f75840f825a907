-- ===== src/Placement/Tasks/Counts.antt =====
-- The counts of tasks in flight of internal/conductor/scheduler.go go up and down together.
use agentfab.Prelude.{
  ℕ, ◌+◌, ◌<◌, String, true, false, ◌==◌, eq_iff, eq_refl, ◌≡◌, refl, ap, ◌∙◌, inl, inr,
  if◌then◌else◌, Table, lookup-insert, arith, Bool-cases,
}
use agentfab.Prelude.Int.{
  ℤ, pos, leb_ℤ, increment, decrement, increment-pos, decrement_pos, max_int,
}
use agentfab.Placement.{
  Scheduler, count, bump, drop_one, acquire_instance, release_instance, instance_load, node_load,
}

count_bump :
    (k x : String) (m : Table ℤ)
    → count x (bump k m) ≡ (if k == x then increment (count k m) else count x m)
count_bump k x m = ground (arith, lookup-insert k x (increment (count k m)) m)

count_drop :
    (k x : String) (m : Table ℤ)
    → leb_ℤ (count k m) (pos 0) ≡ false
    → count x (drop_one k m) ≡ (if k == x then decrement (count k m) else count x m)
count_drop k x m h = rw h (ground (arith, lookup-insert k x (decrement (count k m)) m))

-- A count that has gone up goes back.
count-drop_bump :
    (k x : String) (m : Table ℤ) (n : ℕ)
    → count k m ≡ pos n
    → n < max_int
    → count x (drop_one k (bump k m)) ≡ count x m
count-drop_bump k x m n h small =
    let up : count k (bump k m) ≡ pos (n + 1) =
      count_bump k k m ∙ rw (eq_refl k) (ap increment h ∙ increment-pos n small) in
    let down : decrement (count k (bump k m)) ≡ pos n = decrement_pos up in
    count_drop k x (bump k m) (rw up (ground arith))
    ∙ ground (arith, down, h, count_bump k x m, eq_iff k x)

-- The counts of a scheduler, each of them from 0 and not at the end of the integers.
abbrev pub IsCount : Table ℤ → Type 0
IsCount m = (k : String) → (n : ℕ) × (count k m ≡ pos n) × (n < max_int)

release-acquire_instance :
    (i n : String) (s : Scheduler) (x : String)
    → IsCount s.instance_in_flight
    → IsCount s.node_in_flight
    → (instance_load (release_instance i n (acquire_instance i n s)) x ≡ instance_load s x)
      × (node_load (release_instance i n (acquire_instance i n s)) x ≡ node_load s x)
unfolding release_instance acquire_instance instance_load node_load
release-acquire_instance i n s x instances nodes = elim (Bool-cases (i == "")) [
  | inl t ↦ rw t (refl, refl)
  | inr f ↦ rw f (
    (let (k, h, small) = instances i in count-drop_bump i x s.instance_in_flight k h small),
    elim (Bool-cases (n == "")) [
      | inl t ↦ rw t refl
      | inr g ↦ rw g (let (k, h, small) = nodes n in count-drop_bump n x s.node_in_flight k h small)
    ],
  )
]

acquire_nothing : (i n : String) (s : Scheduler) → (i == "") ≡ true → acquire_instance i n s ≡ s
unfolding acquire_instance
acquire_nothing i n s t = rw t refl

-- `finishTaskPlacement` leaves the counts alone where there was no instance.
pub given_back :
    (i n : String) (s : Scheduler) (x : String)
    → IsCount s.instance_in_flight
    → IsCount s.node_in_flight
    → (instance_load
          (if i == ""
            then acquire_instance i n s
            else release_instance i n (acquire_instance i n s))
          x
        ≡ instance_load s x)
      × (node_load
            (if i == ""
              then acquire_instance i n s
              else release_instance i n (acquire_instance i n s))
            x
          ≡ node_load s x)
given_back i n s x instances nodes = elim (Bool-cases (i == "")) [
  | inl t ↦
      let none_there = acquire_nothing i n s t in
      rw t (ap (λ y. instance_load y x) none_there, ap (λ y. node_load y x) none_there)
  | inr f ↦ rw f (release-acquire_instance i n s x instances nodes)
]
