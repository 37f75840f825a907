-- ===== src/ControlPlane/FileStore/Refinement.antt =====
-- The stores of internal/controlplane/file.go on one file, against the store of memory.go.
use agentfab.Prelude.{
  ℕ, String, List, [], ◌∷◌, map, false, if◌then◌else◌, ◌==◌, ◌≡◌, refl, sym, subst, ◌∙◌, ap, ◌⊎◌,
  inl, inr, Option, none, some, lookup, Result, ok, err, is_err, if-elim, arith, All, eq_iff,
}
use agentfab.ControlPlane.Memory.{MemoryStore, StoreError, Method, new_memory_store}
use agentfab.ControlPlane.FileStore.{
  Json, RoundTrips, World, FileMethod, change, with_state, with_mutable_state, with_file_lock,
  load_locked, load_file, load_state, save_locked, replace_file, save_after, keep_after, or_fabric,
}
use agentfab.ControlPlane.FileStore.Calls.{
  file_answers, memory_answer, memory_next, shared_next, shared_answers, calls, gets_attested_node,
  gets_request, lists_tasks, lists_requests, attested_found, finished, instance_found,
  instances_listed, leader_found, leader_renewed, leader_taken, node_found, nodes_listed,
  profile_found, profile_renewed, profile_taken, task_renewed, request_found, requests_listed,
  task_found, task_taken, tasks_listed, Operation, Answer, settled, file_step,
}
use agentfab.ControlPlane.Memory.Steps.{
  serve, acquires_leader, renews_leader, gets_leader, releases_leader, upserts_attested_node,
  registers_node, heartbeats_node, gets_node, lists_nodes, registers_instance, heartbeats_instance,
  gets_instance, lists_instances, removes_instance, upserts_request, upserts_task,
  acquires_profile_lease, renews_profile_lease, gets_profile_lease, releases_profile_lease,
  acquires_task_lease, renews_task_lease, gets_task_lease, releases_task_lease,
}
use agentfab.ControlPlane.FileStore.Leases as FileLeases
use agentfab.ControlPlane.FileStore.Members as FileMembers
use agentfab.ControlPlane.FileStore.Records as FileRecords
use agentfab.ControlPlane.Memory.Leader
use agentfab.ControlPlane.Memory.Members
use agentfab.ControlPlane.Memory.Records
use agentfab.ControlPlane.Memory.ProfileLeases
use agentfab.ControlPlane.Memory.TaskLeases

-- What a method that may first refuse does to the state, and what is saved.
abbrev checked : {A : Type 0} → Option StoreError → MemoryStore → Method A → Method A
checked (some e) d r = (d, err e)
checked none d r = r

abbrev kept : {A : Type 0} → MemoryStore → Method A → MemoryStore
kept d (s, r) = if is_err r then d else s

module _ (j : Json) (trips : RoundTrips j) where
  -- The file holds a state of the fabric.
  record Holds (fabric : String) (file : Option j.Bytes) (d : MemoryStore) : Type 0 where
    names : d.fabric ≡ fabric
    holds :
        ((file ≡ none) × (d ≡ new_memory_store fabric))
        ⊎ ((b : j.Bytes) × (file ≡ some b) × (j.decode b ≡ some d))

  or_fabric-same : (s d : MemoryStore) → d.fabric ≡ s.fabric → or_fabric j s d ≡ d
  or_fabric-same s d e =
      if-elim (λ t. t ≡ d) (d.fabric == "") (sym (ap (λ f. record d { fabric = f }) e)) refl

  load_state-same : (s d : MemoryStore) → d.fabric ≡ s.fabric → load_state j s (some d) ≡ ok d
  unfolding load_state
  load_state-same s d e = ground (arith, or_fabric-same s d e, eq_iff d.fabric s.fabric)

  module _ {fabric : String} (w : World j) (d : MemoryStore) (h : Holds fabric w.file d)
      (same : w.store.fabric ≡ fabric) where
    load_locked-ok : load_locked j (λ _. false) w ≡ ok d
    unfolding load_locked load_file
    load_locked-ok = elim h.holds [
      | inl (p, q) ↦ rw p (ap (λ f. ok (new_memory_store f)) same ∙ ap ok (sym q))
      | inr (b, p, q) ↦ rw p (rw q (load_state-same w.store d (h.names ∙ sym same)))
    ]

    save_locked-Holds :
        (s : MemoryStore)
        → s.fabric ≡ fabric
        → ((b : j.Bytes) × (save_locked j (λ _. false) (record w { store = s })
              ≡ (record { store = s; file = some b }, ok tt))
            × (j.decode b ≡ some s))
    unfolding save_locked replace_file
    save_locked-Holds s e = let (b, p, q) = trips.back s in (b, rw p refl, q)

    module _ {A : Type 0} (f : Result StoreError A → Answer) where
      -- What a caller sees of a method, and the file after it.
      abbrev Serves : FileMethod j A → Result StoreError A → MemoryStore → Type 0
      Serves r a next = ((settled j f r).1 ≡ some (f a)) × Holds fabric (settled j f r).0.file next

      save_after-Serves :
          (r : Method A)
          → (kept d r).fabric ≡ fabric
          → Serves (save_after j (λ _. false) w r) r.1 (kept d r)
      save_after-Serves (s, err e) n = (refl, h)
      save_after-Serves (s, ok a) n =
          let (b, p, q) = save_locked-Holds s n in
          rw p (refl, record { names = n; holds = inr (b, refl, q) })

      change-Serves :
          (o : Option StoreError) (body : MemoryStore → Method A)
          → (kept d (checked o d (body d))).fabric ≡ fabric
          → Serves
              (change j (λ _. false) o body w)
              (checked o d (body d)).1
              (kept d (checked o d (body d)))
      unfolding change with_mutable_state with_file_lock
      change-Serves (some e) body n = (refl, h)
      change-Serves none body n = rw load_locked-ok (save_after-Serves (body d) n)

      keep_after-Serves : (r : Method A) → Serves (keep_after j w r) r.1 d
      keep_after-Serves (s, err e) = (refl, h)
      keep_after-Serves (s, ok a) = (refl, h)

      with_state-Serves :
          (body : MemoryStore → Method A) → Serves (with_state j (λ _. false) body w) (body d).1 d
      unfolding with_state with_file_lock
      with_state-Serves body = rw load_locked-ok (keep_after-Serves (body d))

      method-Serves :
          (o : Option StoreError) (body : MemoryStore → Method A) (m : Method A)
          → checked o d (body d) ≡ m
          → (kept d m).fabric ≡ d.fabric
          → Serves (change j (λ _. false) o body w) m.1 (kept d m)
      method-Serves o body m e n =
          subst (λ x. Serves (change j (λ _. false) o body w) x.1 (kept d x)) e
            (change-Serves o body (ap (λ x. (kept d x).fabric) e ∙ n ∙ h.names))

    abbrev Refines : World j × Option Answer → Operation → Type 0
    Refines r o = (r.1 ≡ some (memory_answer d o)) × Holds fabric r.0.file (shared_next d o)

    read_in-answer :
        (a b : String) (c : ℕ)
        → (FileLeases.read_in d a b c (lookup a d.leases)).1 ≡ (TaskLeases.get_task_lease d a b c).1
    unfolding FileLeases.read_in FileLeases.read_over TaskLeases.get_task_lease TaskLeases.read_in
        TaskLeases.read_over
    read_in-answer a b c = ground arith

    read_in-fabric :
        (a b : String) (c : ℕ)
        → (FileLeases.read_in d a b c (lookup a d.leases)).0.fabric ≡ d.fabric
    unfolding FileLeases.read_in FileLeases.read_over FileLeases.drop_lease
    read_in-fabric a b c = ground arith

    step-Refines : (o : Operation) → Refines (file_step j (λ _. false) w o) o
    unfolding file_step FileLeases.acquire_leader FileLeases.renew_leader FileLeases.get_leader
        FileLeases.release_leader FileLeases.acquire_profile_lease FileLeases.renew_profile_lease
        FileLeases.get_profile_lease FileLeases.release_profile_lease FileLeases.acquire_task_lease
        FileLeases.renew_task_lease FileLeases.get_task_lease FileLeases.release_task_lease
        FileMembers.register_node FileMembers.heartbeat_node FileMembers.get_node
        FileMembers.list_nodes FileMembers.register_instance FileMembers.heartbeat_instance
        FileMembers.get_instance FileMembers.list_instances FileMembers.remove_instance
        FileRecords.upsert_attested_node FileRecords.get_attested_node FileRecords.upsert_request
        FileRecords.get_request FileRecords.list_requests FileRecords.upsert_task
        FileRecords.list_tasks shared_next memory_answer memory_next serve Leader.acquire_leader
        Leader.renew_leader Leader.get_leader Leader.release_leader
        ProfileLeases.acquire_profile_lease ProfileLeases.renew_profile_lease
        ProfileLeases.get_profile_lease ProfileLeases.release_profile_lease
        TaskLeases.acquire_task_lease TaskLeases.renew_task_lease TaskLeases.get_task_lease
        TaskLeases.release_task_lease Members.register_node Members.heartbeat_node Members.get_node
        Members.list_nodes Members.register_instance Members.heartbeat_instance Members.get_instance
        Members.list_instances Members.remove_instance Records.upsert_attested_node
        Records.get_attested_node Records.upsert_request Records.get_request Records.list_requests
        Records.upsert_task Records.list_tasks
    step-Refines (calls (acquires_leader a b c d)) =
        method-Serves leader_taken _ _ _ (ground arith) (ground arith)
    step-Refines (calls (renews_leader a b c)) =
        method-Serves leader_renewed _ _ _ (ground arith) (ground arith)
    step-Refines (calls (gets_leader a)) =
        method-Serves leader_found _ _ _ (ground arith) (ground arith)
    step-Refines (calls (releases_leader a)) =
        method-Serves finished _ _ _ (ground arith) (ground arith)
    step-Refines (calls (upserts_attested_node a)) =
        method-Serves finished _ _ _ (ground arith) (ground arith)
    step-Refines (calls (registers_node a b c)) =
        method-Serves finished _ _ _ (ground arith) (ground arith)
    step-Refines (calls (heartbeats_node a b c d)) =
        method-Serves finished _ _ _ (ground arith) (ground arith)
    step-Refines (calls (gets_node a b)) = with_state-Serves node_found _
    step-Refines (calls (lists_nodes a)) = with_state-Serves nodes_listed _
    step-Refines (calls (registers_instance a b c)) =
        method-Serves finished _ _ _ (ground arith) (ground arith)
    step-Refines (calls (heartbeats_instance a b c d)) =
        method-Serves finished _ _ _ (ground arith) (ground arith)
    step-Refines (calls (gets_instance a b)) = with_state-Serves instance_found _
    step-Refines (calls (lists_instances a b)) = with_state-Serves instances_listed _
    step-Refines (calls (removes_instance a)) =
        method-Serves finished _ _ _ (ground arith) (ground arith)
    step-Refines (calls (upserts_request a b)) =
        method-Serves finished _ _ _ (ground arith) (ground arith)
    step-Refines (calls (upserts_task a b)) =
        method-Serves finished _ _ _ (ground arith) (ground arith)
    step-Refines (calls (acquires_profile_lease a b c)) =
        method-Serves profile_taken _ _ _ (ground arith) (ground arith)
    step-Refines (calls (renews_profile_lease a b c)) =
        method-Serves profile_renewed _ _ _ (ground arith) (ground arith)
    step-Refines (calls (gets_profile_lease a b)) =
        method-Serves profile_found _ _ _ (ground arith) (ground arith)
    step-Refines (calls (releases_profile_lease a)) =
        method-Serves finished _ _ _ (ground arith) (ground arith)
    step-Refines (calls (acquires_task_lease a b c)) =
        method-Serves task_taken _ _ _ (ground arith) (ground arith)
    step-Refines (calls (renews_task_lease a b c)) =
        method-Serves task_renewed _ _ _ (ground arith) (ground arith)
    step-Refines (calls (gets_task_lease a b c)) =
        let r = FileLeases.read_in d a b c (lookup a d.leases) in
        rw (sym (read_in-answer a b c))
          (method-Serves task_found _ _ (FileLeases.found r) refl (read_in-fabric a b c))
    step-Refines (calls (releases_task_lease a)) =
        method-Serves finished _ _ _ (ground arith) (ground arith)
    step-Refines (gets_attested_node a) = with_state-Serves attested_found _
    step-Refines (gets_request a) = with_state-Serves request_found _
    step-Refines (lists_tasks a) = with_state-Serves tasks_listed _
    step-Refines lists_requests = with_state-Serves requests_listed _

  answers-shared :
      {fabric : String} (file : Option j.Bytes) (d : MemoryStore)
      → Holds fabric file d
      → (history : List (MemoryStore × Operation))
      → All (λ (c : MemoryStore × Operation). c.0.fabric ≡ fabric) history
      → file_answers j file history ≡ map some (shared_answers d (map (λ c. c.1) history))
  unfolding file_answers shared_answers
  answers-shared file d held [] h = refl
  answers-shared file d held ((s, o) ∷ rest) (e, h) =
      let (a, next) = step-Refines (record { store = s; file = file }) d held e o in
      rw a (
        ap (λ l. some (memory_answer d o) ∷ l)
          (answers-shared (file_step j (λ _. false) (record { store = s; file = file }) o).0.file
            (shared_next d o) next rest h))

  -- Whatever processes of a fabric call the stores on one file, in whatever order, if no step of the system
  -- fails: each call answers what the store in memory answers on one shared state, which starts empty.
  pub file_answers-shared :
      (fabric : String) (history : List (MemoryStore × Operation))
      → All (λ (c : MemoryStore × Operation). c.0.fabric ≡ fabric) history
      → file_answers j none history
        ≡ map some (shared_answers (new_memory_store fabric) (map (λ c. c.1) history))
  unfolding new_memory_store
  file_answers-shared fabric history h =
      answers-shared none _ (record { names = refl; holds = inl (refl, refl) }) history h
