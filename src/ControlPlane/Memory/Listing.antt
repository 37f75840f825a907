-- ===== src/ControlPlane/Memory/Listing.antt =====
-- What `ListInstances` of internal/controlplane/memory.go returns.
use agentfab.Prelude.{
  ℕ, String, List, [], ◌∷◌, true, ◌==◌, eq_iff, ◌≡◌, ◌⊎◌, inl, inr, ◌↔◌, values, sort_by,
  insert_sorted, In, In-select, select-In, select, arith, Bool-cases,
}
use Prim.Native.String.{compare}
use text.Mathlib.Text.{is_lt}
use agentfab.ControlPlane.{AgentInstance, InstanceFilter}
use agentfab.ControlPlane.Memory.{MemoryStore}
use agentfab.ControlPlane.Memory.Members.{normalize, state_code, fits, matches, list_instances}

module _ {A : Type 0} (key : A → String) where
  insert_sorted-In : (x y : A) (xs : List A) → In y (insert_sorted key x xs) ↔ ((y ≡ x) ⊎ In y xs)
  unfolding insert_sorted
  insert_sorted-In x y [] = ((λ m. m), (λ m. m))
  insert_sorted-In x y (z ∷ zs) =
      let ih = insert_sorted-In x y zs in
      elim (Bool-cases (is_lt (compare (key z) (key x)))) [
        | inr before ↦ rw before ((λ m. m), (λ m. m))
        | inl behind ↦ rw behind (
          λ m. elim m [
            | inl e ↦ inr (inl e)
            | inr k ↦ elim (ih.0 k) [ inl e ↦ inl e | inr j ↦ inr (inr j) ]
          ],
          λ m. elim m [
            | inl e ↦ inr (ih.1 (inl e))
            | inr (inl e) ↦ inl e
            | inr (inr k) ↦ inr (ih.1 (inr k))
          ],
        )
      ]

  sort_by-In : (y : A) (xs : List A) → In y (sort_by key xs) ↔ In y xs
  unfolding sort_by
  sort_by-In y [] = ((λ m. m), (λ m. m))
  sort_by-In y (x ∷ xs) =
      let (to, from) = insert_sorted-In x y (sort_by key xs) in
      let (down, up) = sort_by-In y xs in
      (
        λ m. elim (to m) [ inl e ↦ inl e | inr k ↦ inr (down k) ],
        λ m. from (elim m [ inl e ↦ inl e | inr k ↦ inr (up k) ]),
      )

-- A part of a filter lets a text through.
abbrev pub Allows : String → String → Type 0
Allows wanted actual = (wanted ≡ "") ⊎ (actual ≡ wanted)

fits_iff : (wanted actual : String) → (fits wanted actual ≡ true) ↔ Allows wanted actual
fits_iff wanted actual = (
  λ h. elim (Bool-cases (wanted == "")) [
    | inl e ↦ inl ((eq_iff wanted "").0 e)
    | inr e ↦ inr ((eq_iff actual wanted).0 (ground arith))
  ],
  λ h. elim h [
    | inl e ↦ ground (arith, eq_iff wanted "")
    | inr e ↦ ground (arith, eq_iff actual wanted)
  ],
)

-- `ListInstances` marks what was not heard of and then returns exactly the instances of the store whose
-- profile, node and state the filter allows; an empty part of the filter allows everything.
pub list_instances-In :
    (s : MemoryStore) (f : InstanceFilter) (now : ℕ) (i : AgentInstance)
    → In i (list_instances s f now).1 ↔ (
        In i (values (normalize s now).instances)
        × Allows f.profile i.profile
        × Allows f.node_id i.node_id
        × Allows (state_code f.state) (state_code i.state))
unfolding list_instances matches
list_instances-In s f now i =
    let all = values (normalize s now).instances in
    let (to, from) = sort_by-In (λ (x : AgentInstance). x.id) i (select (matches f) all) in
    (
      λ m.
          let (k, h) = In-select (matches f) i all (to m) in
          (
            k,
            (fits_iff f.profile i.profile).0 (ground arith),
            (fits_iff f.node_id i.node_id).0 (ground arith),
            (fits_iff (state_code f.state) (state_code i.state)).0 (ground arith),
          ),
      λ (k, a, b, c).
          let a' = (fits_iff f.profile i.profile).1 a in
          let b' = (fits_iff f.node_id i.node_id).1 b in
          let c' = (fits_iff (state_code f.state) (state_code i.state)).1 c in
          from (select-In (matches f) i all k (ground arith)),
    )
