-- ===== src/ControlPlane/FileStore.antt =====
-- internal/controlplane/file.go: the store whose state is a file that all its processes share. A method
-- takes the lock of the file, reads the state, changes it and writes it back. Which steps of the operating
-- system fail is an argument of each method; the files for a lock and for a state not yet renamed into
-- place are seen only in what they make fail. The fields of a FileStore beside its paths, and those of the
-- state that the file holds, are those of a MemoryStore, so that record stands for all three. Where a
-- method returns values beside an error, the error alone is modelled.
pub mod Members
pub mod Records
pub mod Leases
pub mod Atomic
pub mod Calls
pub mod Refinement
mod Samples
use agentfab.Prelude.{
  String, Bool, true, false, not, ◌&&◌, ◌==◌, if◌then◌else◌, ◌≡◌, Option, none, some, Result, ok,
  err,
}
use agentfab.ControlPlane.Memory.{MemoryStore, StoreError, Method, new_memory_store}

-- The package encoding/json, on the state: what `MarshalIndent` and `Unmarshal` do.
pub record Json : Type 1 where
  pub Bytes : Type 0
  pub encode : MemoryStore → Option Bytes
  pub decode : Bytes → Option MemoryStore

-- The documented round trip. An empty map is left out of the file and made again by `ensureMaps`.
pub record RoundTrips (j : Json) : Type 0 where
  pub back : (s : MemoryStore) → (b : j.Bytes) × (j.encode s ≡ some b) × (j.decode b ≡ some s)

-- The steps of the operating system.
pub data Step : Type 0 where
  makes_dir opens_lock takes_lock reads creates_temp writes syncs closes sets_mode renames : Step

-- Where it fails.
abbrev pub Faults : Type 0
Faults = Step → Bool

pub data FileError : Type 0 where
  refused : StoreError → FileError
  failed : Step → FileError
  not_encoded not_decoded : FileError
  fabric_mismatch : String → String → FileError

module _ (j : Json) where
  -- A process's store and the file; none is a file that is not there.
  pub record World : Type 0 where
    pub store : MemoryStore
    pub file : Option j.Bytes

  abbrev pub FileMethod : Type 0 → Type 0
  FileMethod A = World × Result FileError A

  unfoldable pub with_file_lock : {A : Type 0} → Faults → World → FileMethod A → FileMethod A
  with_file_lock io w rest =
      if io opens_lock
      then (w, err (failed opens_lock))
      else if io takes_lock
      then (w, err (failed takes_lock))
      else rest

  abbrev or_fabric : MemoryStore → MemoryStore → MemoryStore
  or_fabric s st = if st.fabric == "" then record st { fabric = s.fabric } else st

  load_state : MemoryStore → Option MemoryStore → Result FileError MemoryStore
  load_state s none = err not_decoded
  load_state s (some st) =
      if not (st.fabric == "") && (not (s.fabric == "") && not (st.fabric == s.fabric))
      then err (fabric_mismatch st.fabric s.fabric)
      else ok (or_fabric s st)

  load_file : MemoryStore → Option j.Bytes → Result FileError MemoryStore
  unfolding load_state
  load_file s none = ok (new_memory_store s.fabric)
  load_file s (some b) = load_state s (j.decode b)

  unfoldable pub load_locked : Faults → World → Result FileError MemoryStore
  unfolding load_file
  load_locked io w = if io reads then err (failed reads) else load_file w.store w.file

  -- The file as it is left, beside the result.
  replace_file :
      Faults → Option j.Bytes → Option j.Bytes → Option j.Bytes × Result FileError (Unit {0})
  replace_file io old none = (old, err not_encoded)
  replace_file io old (some b) =
      if io creates_temp
      then (old, err (failed creates_temp))
      else if io writes
      then (old, err (failed writes))
      else if io syncs
      then (old, err (failed syncs))
      else if io closes
      then (old, err (failed closes))
      else if io sets_mode
      then (old, err (failed sets_mode))
      else if io renames
      then (old, err (failed renames))
      else (some b, ok tt)

  unfoldable pub save_locked : Faults → World → FileMethod (Unit {0})
  unfolding replace_file
  save_locked io w =
      let (file, r) = replace_file io w.file (j.encode w.store) in (record w { file = file }, r)

  abbrev after_save : {A : Type 0} → A → FileMethod (Unit {0}) → FileMethod A
  after_save a (w, ok _) = (w, ok a)
  after_save a (w, err e) = (w, err e)

  -- What follows `fn()`.
  abbrev save_after : {A : Type 0} → Faults → World → Method A → FileMethod A
  save_after io w (s, err e) = (record w { store = s }, err (refused e))
  save_after io w (s, ok a) = after_save a (save_locked io (record w { store = s }))

  abbrev keep_after : {A : Type 0} → World → Method A → FileMethod A
  keep_after w (s, err e) = (record w { store = s }, err (refused e))
  keep_after w (s, ok a) = (record w { store = s }, ok a)

  -- What follows `loadLocked()`.
  abbrev after_load :
      {A : Type 0}
      → (World → Method A → FileMethod A)
      → (MemoryStore → Method A)
      → World
      → Result FileError MemoryStore
      → FileMethod A
  after_load next body w (err e) = (w, err e)
  after_load next body w (ok s) = next w (body s)

  unfoldable pub with_state :
      {A : Type 0} → Faults → (MemoryStore → Method A) → World → FileMethod A
  unfolding with_file_lock load_locked
  with_state io body w = with_file_lock io w (after_load keep_after body w (load_locked io w))

  unfoldable pub with_mutable_state :
      {A : Type 0} → Faults → (MemoryStore → Method A) → World → FileMethod A
  unfolding with_file_lock load_locked save_locked
  with_mutable_state io body w =
      with_file_lock io w (after_load (save_after io) body w (load_locked io w))

  -- A method that first returns an error of its own, if there is one, and then changes the state.
  unfoldable pub change :
      {A : Type 0} → Faults → Option StoreError → (MemoryStore → Method A) → World → FileMethod A
  unfolding with_mutable_state
  change io (some e) body w = (w, err (refused e))
  change io none body w = with_mutable_state io body w

  abbrev after_open : World → Result FileError MemoryStore → FileMethod (Unit {0})
  after_open w (err e) = (w, err e)
  after_open w (ok s) = (record w { store = s }, ok tt)

  -- `NewFileStore` on the file; if it fails there is no store.
  unfoldable pub new_file_store : Faults → String → Option j.Bytes → FileMethod (Unit {0})
  unfolding with_file_lock load_locked new_memory_store
  new_file_store io fabric file =
      let w : World = record { store = new_memory_store fabric; file = file } in
      if io makes_dir
      then (w, err (failed makes_dir))
      else with_file_lock io w (after_open w (load_locked io w))
