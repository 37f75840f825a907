-- ===== src/ControlPlane/FileStore/Atomic.antt =====
-- The file of internal/controlplane/file.go is replaced as a whole or not at all, whatever fails.
use agentfab.Prelude.{
  Bool, true, false, not, ap, ◌≡◌, refl, ◌⊎◌, inl, inr, Option, none, some, Result, ok, err,
  if-elim,
}
use agentfab.ControlPlane.Memory.{MemoryStore, StoreError, Method}
use agentfab.ControlPlane.FileStore.{
  Json, World, FileMethod, FileError, refused, change, Faults, with_file_lock, load_locked,
  save_locked, with_state, with_mutable_state, after_load, save_after, keep_after, after_save,
  replace_file, creates_temp, writes, syncs, closes, sets_mode, renames, opens_lock, takes_lock,
  failed, not_encoded, not_decoded, fabric_mismatch,
}
use agentfab.ControlPlane.FileStore.Leases as FileLeases
use agentfab.ControlPlane.FileStore.Members as FileMembers
use agentfab.ControlPlane.FileStore.Records as FileRecords
use agentfab.ControlPlane.Memory.Steps.{
  acquires_leader, renews_leader, gets_leader, releases_leader, upserts_attested_node,
  registers_node, heartbeats_node, gets_node, lists_nodes, registers_instance, heartbeats_instance,
  gets_instance, lists_instances, removes_instance, upserts_request, upserts_task,
  acquires_profile_lease, renews_profile_lease, gets_profile_lease, releases_profile_lease,
  acquires_task_lease, renews_task_lease, gets_task_lease, releases_task_lease,
}
use agentfab.ControlPlane.FileStore.Calls.{
  calls, gets_attested_node, gets_request, lists_tasks, lists_requests, attested_found, finished,
  instance_found, instances_listed, leader_found, leader_renewed, leader_taken, node_found,
  nodes_listed, profile_found, profile_renewed, profile_taken, task_renewed, request_found,
  requests_listed, task_found, task_taken, tasks_listed, Operation, Answer, settled, file_step,
  is_failure,
}

-- Without an error, of the store or of the system.
abbrev pub succeeded : Option Answer → Bool
succeeded none = false
succeeded (some a) = not (is_failure a)

module _ (j : Json) where
  -- The file is as it was, or the method succeeded and the file holds the state of its store.
  abbrev pub IsReplaced : World j → World j → Bool → Type 0
  IsReplaced w after fine =
      (after.file ≡ w.file)
      ⊎ ((b : j.Bytes) × (after.file ≡ some b) × (j.encode after.store ≡ some b) × (fine ≡ true))

  abbrev succeeds : {A : Type 0} → Result FileError A → Bool
  succeeds (ok a) = true
  succeeds (err e) = false

  -- A record, so that a method can be read off its statement.
  record MethodReplaces {A : Type 0} (w : World j) (r : FileMethod j A) : Type 0 where
    replaced : IsReplaced w r.0 (succeeds r.1)

  unchanged :
      {A : Type 0} (w : World j) (r : FileMethod j A) → r.0.file ≡ w.file → MethodReplaces w r
  unchanged w r e = record { replaced = inl e }

  module _ {A : Type 0} (io : Faults) (w : World j) where
    replace_file-Replaces :
        (a : A) (s : MemoryStore) (o : Option j.Bytes)
        → j.encode s ≡ o
        → MethodReplaces w (
            after_save j a (
              record { store = s; file = (replace_file j io w.file o).0 },
              (replace_file j io w.file o).1,
            ))
    unfolding replace_file
    replace_file-Replaces a s none e = record { replaced = inl refl }
    replace_file-Replaces a s (some b) e =
        let P : Option j.Bytes × Result FileError (Unit {0}) → Type 0 =
          λ p. MethodReplaces w (after_save j a (record { store = s; file = p.0 }, p.1)) in
        if-elim P (io creates_temp) (unchanged w _ refl) (
          if-elim P (io writes) (unchanged w _ refl) (
            if-elim P (io syncs) (unchanged w _ refl) (
              if-elim P (io closes) (unchanged w _ refl) (
                if-elim P (io sets_mode) (unchanged w _ refl) (
                  if-elim P (io renames) (unchanged w _ refl)
                    (record { replaced = inr (b, refl, e, refl) }))))))

    save_after-Replaces : (r : Method A) → MethodReplaces w (save_after j io w r)
    unfolding save_locked
    save_after-Replaces (s, err e) = unchanged w _ refl
    save_after-Replaces (s, ok a) = replace_file-Replaces a s (j.encode s) refl

    after_load-Replaces :
        (body : MemoryStore → Method A) (r : Result FileError MemoryStore)
        → MethodReplaces w (after_load j (save_after j io) body w r)
    after_load-Replaces body (ok s) = save_after-Replaces (body s)
    after_load-Replaces body (err e) = unchanged w _ refl

    keep_after-keeps : (r : Method A) → (keep_after j w r).0.file ≡ w.file
    keep_after-keeps (t, ok a) = refl
    keep_after-keeps (t, err e) = refl

    after_load-keeps :
        (body : MemoryStore → Method A) (r : Result FileError MemoryStore)
        → (after_load j (keep_after j) body w r).0.file ≡ w.file
    after_load-keeps body (ok s) = keep_after-keeps (body s)
    after_load-keeps body (err e) = refl

    with_mutable_state-Replaces :
        (body : MemoryStore → Method A) → MethodReplaces w (with_mutable_state j io body w)
    unfolding with_mutable_state with_file_lock
    with_mutable_state-Replaces body =
        if-elim (MethodReplaces w) (io opens_lock) (unchanged w _ refl) (
          if-elim (MethodReplaces w) (io takes_lock) (unchanged w _ refl)
            (after_load-Replaces body (load_locked j io w)))

    with_state-Replaces :
        (body : MemoryStore → Method A) → MethodReplaces w (with_state j io body w)
    unfolding with_state with_file_lock
    with_state-Replaces body = if-elim (MethodReplaces w) (io opens_lock) (unchanged w _ refl) (
        if-elim (MethodReplaces w) (io takes_lock) (unchanged w _ refl)
          (unchanged w _ (after_load-keeps body (load_locked j io w))))

    change-Replaces :
        (o : Option StoreError) (body : MemoryStore → Method A)
        → MethodReplaces w (change j io o body w)
    unfolding change
    change-Replaces (some e) body = unchanged w _ refl
    change-Replaces none body = with_mutable_state-Replaces body

    settled-Replaces :
        (f : Result StoreError A → Answer) (r : FileMethod j A)
        → ((a : A) → is_failure (f (ok a)) ≡ false)
        → MethodReplaces w r
        → IsReplaced w (settled j f r).0 (succeeded (settled j f r).1)
    settled-Replaces f (x, ok a) fine h = elim h.replaced [
      | inl y ↦ inl y
      | inr (b, p, q, n) ↦ inr (b, p, q, ap not (fine a))
    ]
    settled-Replaces f (x, err (refused e)) fine h = elim h.replaced [
      | inl y ↦ inl y
      | inr (b, p, q, n) ↦ absurd (cc n)
    ]
    settled-Replaces f (x, err (failed e)) fine h = h.replaced
    settled-Replaces f (x, err not_encoded) fine h = h.replaced
    settled-Replaces f (x, err not_decoded) fine h = h.replaced
    settled-Replaces f (x, err (fabric_mismatch a b)) fine h = h.replaced

  -- Whatever steps of the system fail, a method leaves the file as it was, or it returns no error and the
  -- file holds the state that its store then has.
  pub file_step-IsReplaced :
      (io : Faults) (w : World j) (o : Operation)
      → IsReplaced w (file_step j io w o).0 (succeeded (file_step j io w o).1)
  unfolding file_step FileLeases.acquire_leader FileLeases.renew_leader FileLeases.get_leader
      FileLeases.release_leader FileLeases.acquire_profile_lease FileLeases.renew_profile_lease
      FileLeases.get_profile_lease FileLeases.release_profile_lease FileLeases.acquire_task_lease
      FileLeases.renew_task_lease FileLeases.get_task_lease FileLeases.release_task_lease
      FileMembers.register_node FileMembers.heartbeat_node FileMembers.get_node
      FileMembers.list_nodes FileMembers.register_instance FileMembers.heartbeat_instance
      FileMembers.get_instance FileMembers.list_instances FileMembers.remove_instance
      FileRecords.upsert_attested_node FileRecords.get_attested_node FileRecords.upsert_request
      FileRecords.get_request FileRecords.list_requests FileRecords.upsert_task
      FileRecords.list_tasks
  file_step-IsReplaced io w (calls (acquires_leader a b c d)) =
      settled-Replaces io w leader_taken (FileLeases.acquire_leader j io a b c d w) (λ _. refl)
        (change-Replaces io w _ _)
  file_step-IsReplaced io w (calls (renews_leader a b c)) =
      settled-Replaces io w leader_renewed (FileLeases.renew_leader j io a b c w) (λ _. refl)
        (change-Replaces io w _ _)
  file_step-IsReplaced io w (calls (gets_leader a)) =
      settled-Replaces io w leader_found (FileLeases.get_leader j io a w) (λ _. refl)
        (change-Replaces io w _ _)
  file_step-IsReplaced io w (calls (releases_leader a)) =
      settled-Replaces io w finished (FileLeases.release_leader j io a w) (λ _. refl)
        (change-Replaces io w _ _)
  file_step-IsReplaced io w (calls (upserts_attested_node a)) =
      settled-Replaces io w finished (FileRecords.upsert_attested_node j io a w) (λ _. refl)
        (change-Replaces io w _ _)
  file_step-IsReplaced io w (calls (registers_node a b c)) =
      settled-Replaces io w finished (FileMembers.register_node j io a b c w) (λ _. refl)
        (change-Replaces io w _ _)
  file_step-IsReplaced io w (calls (heartbeats_node a b c d)) =
      settled-Replaces io w finished (FileMembers.heartbeat_node j io a b c d w) (λ _. refl)
        (change-Replaces io w _ _)
  file_step-IsReplaced io w (calls (gets_node a b)) =
      settled-Replaces io w node_found (FileMembers.get_node j io a b w) (λ _. refl)
        (with_state-Replaces io w _)
  file_step-IsReplaced io w (calls (lists_nodes a)) =
      settled-Replaces io w nodes_listed (FileMembers.list_nodes j io a w) (λ _. refl)
        (with_state-Replaces io w _)
  file_step-IsReplaced io w (calls (registers_instance a b c)) =
      settled-Replaces io w finished (FileMembers.register_instance j io a b c w) (λ _. refl)
        (change-Replaces io w _ _)
  file_step-IsReplaced io w (calls (heartbeats_instance a b c d)) =
      settled-Replaces io w finished (FileMembers.heartbeat_instance j io a b c d w) (λ _. refl)
        (change-Replaces io w _ _)
  file_step-IsReplaced io w (calls (gets_instance a b)) =
      settled-Replaces io w instance_found (FileMembers.get_instance j io a b w) (λ _. refl)
        (with_state-Replaces io w _)
  file_step-IsReplaced io w (calls (lists_instances a b)) =
      settled-Replaces io w instances_listed (FileMembers.list_instances j io a b w) (λ _. refl)
        (with_state-Replaces io w _)
  file_step-IsReplaced io w (calls (removes_instance a)) =
      settled-Replaces io w finished (FileMembers.remove_instance j io a w) (λ _. refl)
        (change-Replaces io w _ _)
  file_step-IsReplaced io w (calls (upserts_request a b)) =
      settled-Replaces io w finished (FileRecords.upsert_request j io a b w) (λ _. refl)
        (change-Replaces io w _ _)
  file_step-IsReplaced io w (calls (upserts_task a b)) =
      settled-Replaces io w finished (FileRecords.upsert_task j io a b w) (λ _. refl)
        (change-Replaces io w _ _)
  file_step-IsReplaced io w (calls (acquires_profile_lease a b c)) =
      settled-Replaces io w profile_taken (FileLeases.acquire_profile_lease j io a b c w)
        (λ _. refl) (change-Replaces io w _ _)
  file_step-IsReplaced io w (calls (renews_profile_lease a b c)) =
      settled-Replaces io w profile_renewed (FileLeases.renew_profile_lease j io a b c w)
        (λ _. refl) (change-Replaces io w _ _)
  file_step-IsReplaced io w (calls (gets_profile_lease a b)) =
      settled-Replaces io w profile_found (FileLeases.get_profile_lease j io a b w) (λ _. refl)
        (change-Replaces io w _ _)
  file_step-IsReplaced io w (calls (releases_profile_lease a)) =
      settled-Replaces io w finished (FileLeases.release_profile_lease j io a w) (λ _. refl)
        (change-Replaces io w _ _)
  file_step-IsReplaced io w (calls (acquires_task_lease a b c)) =
      settled-Replaces io w task_taken (FileLeases.acquire_task_lease j io a b c w) (λ _. refl)
        (change-Replaces io w _ _)
  file_step-IsReplaced io w (calls (renews_task_lease a b c)) =
      settled-Replaces io w task_renewed (FileLeases.renew_task_lease j io a b c w) (λ _. refl)
        (change-Replaces io w _ _)
  file_step-IsReplaced io w (calls (gets_task_lease a b c)) =
      settled-Replaces io w task_found (FileLeases.get_task_lease j io a b c w) (λ _. refl)
        (change-Replaces io w _ _)
  file_step-IsReplaced io w (calls (releases_task_lease a)) =
      settled-Replaces io w finished (FileLeases.release_task_lease j io a w) (λ _. refl)
        (change-Replaces io w _ _)
  file_step-IsReplaced io w (gets_attested_node a) =
      settled-Replaces io w attested_found (FileRecords.get_attested_node j io a w) (λ _. refl)
        (with_state-Replaces io w _)
  file_step-IsReplaced io w (gets_request a) =
      settled-Replaces io w request_found (FileRecords.get_request j io a w) (λ _. refl)
        (with_state-Replaces io w _)
  file_step-IsReplaced io w (lists_tasks a) =
      settled-Replaces io w tasks_listed (FileRecords.list_tasks j io a w) (λ _. refl)
        (with_state-Replaces io w _)
  file_step-IsReplaced io w lists_requests =
      settled-Replaces io w requests_listed (FileRecords.list_requests j io w) (λ _. refl)
        (with_state-Replaces io w _)
