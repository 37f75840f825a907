-- ===== src/ControlPlane/Memory/TaskLeases/Cases.antt =====
-- The maps of maps of internal/controlplane/memory.go, and the stores that its task lease methods
-- leave.
use agentfab.Prelude.{
  ℕ, ◌+◌, String, [], ◌≡◌, ◌==◌, eq_iff, if◌then◌else◌, none, some, Table, lookup, insert, delete,
  or_zero, lookup-insert, lookup-delete, arith, Option-cases, inl, inr,
}
use agentfab.Prelude.Int.{ℤ, pos_part}
use agentfab.ControlPlane.{TaskLease}
use agentfab.ControlPlane.Memory.{MemoryStore}
use agentfab.ControlPlane.Memory.TaskLeases.{
  acquire_task_lease, renew_task_lease, get_task_lease, release_task_lease, lookup₂, insert₂,
  delete₂, ensure, with_maps, fresh, grant,
}

module _ {ℓ} {V : Type ℓ} where
  pub lookup₂-ensure :
      (k r t : String) (m : Table (Table V)) → lookup₂ r t (ensure k m) ≡ lookup₂ r t m
  unfolding lookup
  lookup₂-ensure k r t m = ground (arith, lookup-insert k r [] m, eq_iff k r)

  pub lookup₂-insert₂ :
      (k j r t : String) (v : V) (m : Table (Table V))
      → lookup₂ r t (insert₂ k j v m)
        ≡ (if k == r then (if j == t then some v else lookup₂ r t m) else lookup₂ r t m)
  lookup₂-insert₂ k j r t v m = ground (
    arith,
    lookup-insert k r (insert j v (or_zero [] (lookup k m))) m,
    lookup-insert j t v (or_zero [] (lookup k m)),
    eq_iff k r,
  )

  pub lookup₂-delete₂ :
      (k j r t : String) (m : Table (Table V))
      → lookup₂ r t (delete₂ k j m)
        ≡ (if k == r then (if j == t then none else lookup₂ r t m) else lookup₂ r t m)
  lookup₂-delete₂ k j r t m = ground (
    arith,
    lookup-insert k r (delete j (or_zero [] (lookup k m))) m,
    lookup-delete j t (or_zero [] (lookup k m)),
    eq_iff k r,
  )

abbrev pub renewed : TaskLease → ℤ → ℕ → TaskLease
renewed old ttl now = record old { last_heartbeat_at = now; expires_at = now + pos_part ttl }

module _ {κ} (P : MemoryStore → Type κ) (s : MemoryStore) where
  pub acquire_task_cases :
      (l : TaskLease) (ttl : ℤ) (now : ℕ)
      → P s
      → P (with_maps s l)
      → P (grant (with_maps s l) (fresh (with_maps s l) l (pos_part ttl) now)).0
      → P (acquire_task_lease s l ttl now).0
  unfolding acquire_task_lease
  acquire_task_cases l ttl now same refused new = ground arith

  pub renew_task_cases :
      (l : TaskLease) (ttl : ℤ) (now : ℕ)
      → P s
      → ((old : TaskLease)
          → lookup₂ l.request_id l.task_id s.leases ≡ some old
          → P (record s { leases = insert₂ l.request_id l.task_id (renewed old ttl now) s.leases }))
      → P (renew_task_lease s l ttl now).0
  unfolding renew_task_lease
  renew_task_cases l ttl now same more = elim (Option-cases (lookup l.request_id s.leases)) [
    | inl e ↦ ground arith
    | inr (of_request, e) ↦ elim (Option-cases (lookup l.task_id of_request)) [
      | inl e' ↦ ground arith
      | inr (old, e') ↦ ground (arith, more old)
    ]
  ]

  pub get_task_cases :
      (request_id task_id : String) (now : ℕ)
      → P s
      → P (record s { leases = delete₂ request_id task_id s.leases })
      → P (get_task_lease s request_id task_id now).0
  unfolding get_task_lease
  get_task_cases request_id task_id now same gone = ground arith

  pub release_task_cases :
      (l : TaskLease)
      → P s
      → P (record s { leases = delete₂ l.request_id l.task_id s.leases })
      → P (record s { leases = delete l.request_id s.leases })
      → P (release_task_lease s l)
  unfolding release_task_lease
  release_task_cases l same gone all_gone = ground arith
