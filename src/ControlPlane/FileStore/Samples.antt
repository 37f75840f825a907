-- ===== src/ControlPlane/FileStore/Samples.antt =====
-- Two processes on one file of internal/controlplane/file.go, and a disk that fails.
use agentfab.Prelude.{List, [], ◌∷◌, map, true, false, ◌≡◌, refl, none, some, err}
use agentfab.Prelude.Int.{pos}
use agentfab.ControlPlane.{TaskLease}
use agentfab.ControlPlane.Memory.{MemoryStore, new_memory_store}
use agentfab.ControlPlane.Memory.Steps.{acquires_leader, acquires_task_lease, gets_task_lease}
use agentfab.ControlPlane.FileStore.{
  Json, RoundTrips, World, Faults, fabric_mismatch, renames, new_file_store,
}
use agentfab.ControlPlane.FileStore.Calls.{
  Operation, calls, file_step, file_answers, shared_answers,
}
use agentfab.ControlPlane.FileStore.Atomic.{IsReplaced, file_step-IsReplaced, succeeded}
use agentfab.ControlPlane.FileStore.Refinement.{file_answers-shared}

-- An encoding that keeps the state as it is.
abbrev plain : Json
plain = record { Bytes = MemoryStore; encode = some; decode = some }

abbrev plain-RoundTrips : RoundTrips plain
plain-RoundTrips = record { back = λ s. (s, refl, refl) }

abbrev process : MemoryStore
process = new_memory_store "fab"

abbrev lease : TaskLease
lease = record {
  request_id = "r";
  task_id = "t";
  profile = "p";
  owner_id = "a";
  execution_node = "n";
  assigned_instance = "i";
  epoch = 0;
  acquired_at = 0;
  last_heartbeat_at = 0;
  expires_at = 0;
}

-- Two processes ask for the lead, and one for a lease of a task.
abbrev two_processes : List (MemoryStore × Operation)
two_processes =
    (process, calls (acquires_leader "a" "host-a" (pos 10) 100))
    ∷ (process, calls (acquires_leader "b" "host-b" (pos 10) 105))
    ∷ (process, calls (acquires_task_lease lease (pos 10) 106))
    ∷ (process, calls (gets_task_lease "r" "t" 120))
    ∷ (process, calls (acquires_leader "b" "host-b" (pos 10) 120))
    ∷ []

file_answers-shared_example :
    file_answers plain none two_processes
    ≡ map some (shared_answers (new_memory_store "fab") (map (λ c. c.1) two_processes))
unfolding new_memory_store
file_answers-shared_example =
    file_answers-shared plain plain-RoundTrips "fab" two_processes
      (refl, (refl, (refl, (refl, (refl, tt)))))

abbrev failing_disk : Faults
failing_disk renames = true
failing_disk s = false

abbrev before : World plain
before = record { store = process; file = some process }

abbrev asks : Operation
asks = calls (acquires_leader "a" "host-a" (pos 10) 100)

file_step-IsReplaced_example :
    IsReplaced plain before
      (file_step plain failing_disk before asks).0
      (succeeded (file_step plain failing_disk before asks).1)
file_step-IsReplaced_example = file_step-IsReplaced plain failing_disk before asks

-- A store of another fabric does not open the file.
opens_own_fabric :
    (new_file_store plain (λ _. false) "other" (some process)).1
    ≡ err (fabric_mismatch "fab" "other")
unfolding new_file_store
opens_own_fabric = refl
