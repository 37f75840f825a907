-- ===== src/Knowledge/Cold/Restore.antt =====
-- internal/knowledge/cold.go, RestoreFromCold, and curate.go, SwapCurated: nodes that come back from the cold
-- graph, and those that go there because a curated graph does without them.
pub mod Returned
use Prim.Native.String.{◌++◌ as str_append}
use agentfab.Prelude.{
  ℕ, String, List, [], ◌∷◌, ◌++◌, Bool, not, ◌&&◌, ◌==◌, if◌then◌else◌, Option, none, some, Table,
  lookup, insert, delete, select, Result, ok, err,
}
use agentfab.Prelude.Int.{ℤ, increment}
use agentfab.Loop.{is_empty}
use agentfab.Knowledge.{
  Node, Edge, Graph, new_graph, ColdStorageOpts, retention_days, is_there, is_connected,
}
use agentfab.Knowledge.Curation.{is_missing}
use agentfab.Knowledge.Cold.{
  Storage, ColdError, nil_graph, copy_doc, archive_doc, load_cold, save_cold, purge_cold_expired,
  touches, or_new,
}

module _ (st : Storage) where
  unfoldable pub unarchive_doc : st.Disk → Node → st.Disk
  unfolding copy_doc
  unarchive_doc disk n =
      if not (n.file_path == "")
      then copy_doc st disk (str_append "cold_storage/" n.file_path) n.file_path
      else disk

  pub record Restoring : Type 0 where
    pub disk : st.Disk
    pub active : Graph
    pub cold : Graph
    pub restored : List String

  unfoldable pub restore_node : String → Option Node → Restoring → Restoring
  unfolding unarchive_doc
  restore_node id none r = r
  restore_node id (some n) r = record {
    disk = unarchive_doc r.disk n;
    active = record r.active { nodes = insert id n r.active.nodes };
    cold = record r.cold { nodes = delete id r.cold.nodes };
    restored = id ∷ r.restored;
  }

  unfoldable pub restore_nodes : List String → Restoring → Restoring
  unfolding restore_node
  restore_nodes [] r = r
  restore_nodes (id ∷ ids) r = restore_nodes ids (restore_node id (lookup id r.cold.nodes) r)

  -- An edge that touches a node that came back leaves the cold graph, and is active if both its ends are.
  unfoldable pub restore_edges : Restoring → Restoring
  restore_edges r = record r {
    active = record r.active {
      edges =
          r.active.edges
          ++ select (λ e. touches r.restored e && is_connected r.active.nodes e) r.cold.edges;
    };
    cold = record r.cold { edges = select (λ e. not (touches r.restored e)) r.cold.edges };
  }

  unfoldable pub restore_all : List String → Restoring → Restoring
  unfolding restore_nodes restore_edges
  restore_all ids r =
      let after = restore_nodes ids r in
      if is_empty after.restored then after else restore_edges after

  unfoldable pub restore_from_cold :
      st.Disk → Option Graph → Option Graph → List String → Result ColdError Restoring
  unfolding restore_all
  restore_from_cold disk none cold ids = err nil_graph
  restore_from_cold disk (some active) none ids = err nil_graph
  restore_from_cold disk (some active) (some cold) ids =
      ok (restore_all ids (record { disk = disk; active = active; cold = cold; restored = [] }))

  -- The nodes that the curated graph does without.
  unfoldable pub archive_removed :
      ℕ → Graph → Table Node → st.Disk × Table Node → st.Disk × Table Node
  unfolding archive_doc
  archive_removed now curated [] w = w
  archive_removed now curated ((id, n) ∷ ps) (disk, cold) = archive_removed now curated ps (
      if is_missing curated id
      then (archive_doc st disk n, insert id (record n { updated_at = now }) cold)
      else (disk, cold))

  unfoldable pub removed_ids : Graph → Table Node → List String
  removed_ids curated [] = []
  removed_ids curated ((id, n) ∷ ps) =
      let ids = removed_ids curated ps in if is_missing curated id then id ∷ ids else ids

  abbrev or_empty : Result ColdError (Option Graph) → Graph
  or_empty (ok g) = or_new g
  or_empty (err e) = new_graph

  abbrev numbered : Graph → Graph → Result ColdError (Unit {0}) → Result ColdError Graph
  numbered original curated (err e) = err e
  numbered original curated (ok _) = ok (record curated { version = increment original.version })

  -- The curated graph with its version, if the cold graph could be saved.
  unfoldable pub swap_curated :
      ℕ → st.Disk → Graph → Graph → ColdStorageOpts → st.Disk × Result ColdError Graph
  unfolding archive_removed removed_ids load_cold save_cold purge_cold_expired retention_days
      increment new_graph
  swap_curated now disk original curated opts =
      let cold = or_empty (load_cold st disk) in
      let (copied, nodes) = archive_removed now curated original.nodes (disk, cold.nodes) in
      let removed = removed_ids curated original.nodes in
      let gone = record cold {
        nodes = nodes;
        edges = cold.edges ++ select (touches removed) original.edges;
      } in
      let (kept, _) = purge_cold_expired now (retention_days opts) gone in
      let (after, r) = save_cold st copied (record kept { updated_at = now }) in
      (after, numbered original curated r)
