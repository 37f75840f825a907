-- ===== src/Knowledge/Cold.antt =====
-- internal/knowledge/cold.go, and SwapCurated of curate.go: nodes that are not used leave the active graph
-- for a graph in cold storage, and come back from there. The storage of the agent is a parameter.
pub mod Moved
pub mod Conserved
pub mod Restore
use Prim.Native.String.{◌++◌ as str_append}
use agentfab.Prelude.{
  ℕ, ◌+◌, ◌-◌, String, List, [], ◌∷◌, ◌++◌, map, Bool, true, false, not, ◌&&◌, ◌||◌, ◌==◌, ◌≡◌,
  if◌then◌else◌, Option, none, some, Table, lookup, insert, delete, select, contains, length,
  Result, ok, err,
}
use agentfab.Prelude.Int.{ℤ, pos, leb_ℤ, increment}
use agentfab.Loop.{is_empty}
use agentfab.Knowledge.{
  Node, Edge, Graph, new_graph, ColdStorageOpts, min_hits, cold_days, retention_days, days, older,
  is_cold, has_tag, is_there, is_connected,
}

-- The tier of an agent, and encoding/json on graphs. `exists` gives nothing if it fails, and so does a
-- reading; a writing says whether it succeeded. What is decoded has a map of nodes.
pub record Storage : Type 1 where
  pub Disk : Type 0
  pub Data : Type 0
  pub exists : Disk → String → Option Bool
  pub read : Disk → String → Option Data
  pub write : Disk → String → Data → Disk × Bool
  pub encode : Graph → Option Data
  pub decode : Data → Option Graph

-- Documented behaviour of both: what was written to a path, with success, is there and is read back, and
-- a graph that was encoded is decoded.
pub record Persists (st : Storage) : Type 0 where
  pub written :
      (disk : st.Disk) (path : String) (d : st.Data)
      → (st.write disk path d).1 ≡ true
      → (st.exists (st.write disk path d).0 path ≡ some true)
        × (st.read (st.write disk path d).0 path ≡ some d)
  pub back : (g : Graph) (d : st.Data) → st.encode g ≡ some d → st.decode d ≡ some g

pub data ColdError : Type 0 where
  cold_unknown cold_unread cold_unparsed cold_unencoded cold_unwritten nil_graph : ColdError

abbrev pub cold_graph_path : String
cold_graph_path = "cold_storage/graph.json"

-- What is older than the retention.
unfoldable pub expired : ℕ → ℤ → String × Node → Bool
expired now threshold p = older now p.1.updated_at threshold

unfoldable pub purge_cold_expired : ℕ → ℤ → Graph → Graph × ℕ
unfolding expired days
purge_cold_expired now retention g =
    if leb_ℤ retention (pos 0)
    then (g, 0)
    else let nodes = select (λ p. not (expired now (days retention) p)) g.nodes in
      if is_empty (select (expired now (days retention)) g.nodes) then (g, 0) else (
        record g { nodes = nodes; edges = select (is_connected nodes) g.edges },
        length (select (expired now (days retention)) g.nodes),
      )

module _ (st : Storage) where
  abbrev decoded : Option Graph → Result ColdError (Option Graph)
  decoded none = err cold_unparsed
  decoded (some g) = ok (some g)

  abbrev parsed : Option st.Data → Result ColdError (Option Graph)
  parsed none = err cold_unread
  parsed (some d) = decoded (st.decode d)

  abbrev if_exists : st.Disk → Option Bool → Result ColdError (Option Graph)
  if_exists disk none = err cold_unknown
  if_exists disk (some false) = ok none
  if_exists disk (some true) = parsed (st.read disk cold_graph_path)

  -- No graph, and no error, if there is none.
  unfoldable pub load_cold : st.Disk → Result ColdError (Option Graph)
  load_cold disk = if_exists disk (st.exists disk cold_graph_path)

  abbrev written : st.Disk → Option st.Data → st.Disk × Result ColdError (Unit {0})
  written disk none = (disk, err cold_unencoded)
  written disk (some d) =
      let (after, fine) = st.write disk cold_graph_path d in
      (after, if fine then ok tt else err cold_unwritten)

  unfoldable pub save_cold : st.Disk → Graph → st.Disk × Result ColdError (Unit {0})
  save_cold disk g = written disk (st.encode g)

  abbrev copied : st.Disk → String → Option st.Data → st.Disk
  copied disk path none = disk
  copied disk path (some d) = (st.write disk path d).0

  -- A document is copied as far as that works.
  unfoldable pub copy_doc : st.Disk → String → String → st.Disk
  copy_doc disk from to = copied disk to (st.read disk from)

  unfoldable pub archive_doc : st.Disk → Node → st.Disk
  unfolding copy_doc
  archive_doc disk n =
      if not (n.file_path == "")
      then copy_doc disk n.file_path (str_append "cold_storage/" n.file_path)
      else disk

  pub record Move : Type 0 where
    pub disk : st.Disk
    pub active : Table Node
    pub cold : Table Node
    pub moved : List String

  -- One node to the cold graph.
  unfoldable pub move_node : ℕ → String × Node → Move → Move
  unfolding archive_doc
  move_node now (id, n) m = record {
    disk = archive_doc m.disk n;
    active = delete id m.active;
    cold = insert id (record n { updated_at = now }) m.cold;
    moved = m.moved ++ (id ∷ []);
  }

  unfoldable pub move_if : ℕ → (Node → Bool) → String × Node → Move → Move
  unfolding move_node
  move_if now leaves p m = if leaves p.1 then move_node now p m else m

  -- `for id, node := range activeGraph.Nodes`.
  unfoldable pub move_nodes : ℕ → (Node → Bool) → Table Node → Move → Move
  unfolding move_if
  move_nodes now leaves [] m = m
  move_nodes now leaves (p ∷ ps) m = move_nodes now leaves ps (move_if now leaves p m)

abbrev pub touches : List String → Edge → Bool
touches ids e = contains ids e.from || contains ids e.to

unfoldable pub leaves : (String → String) → ℕ → ColdStorageOpts → Node → Bool
unfolding is_cold has_tag min_hits cold_days
leaves lower now opts n =
    not (has_tag lower n "decision") && is_cold now n (min_hits opts) (cold_days opts)

abbrev pub or_new : Option Graph → Graph
or_new none = new_graph
or_new (some g) = g

module _ (st : Storage) where
  -- What `MoveToCold` leaves and returns.
  pub record Moving : Type 0 where
    pub disk : st.Disk
    pub active : Graph
    pub moved : List String
    pub purged : ℕ
    pub result : Result ColdError (Unit {0})

  -- The graphs after the nodes have moved: the edges that touch one of them go with them.
  unfoldable pub split_edges : Graph → Graph → Move st → Graph × Graph
  split_edges active cold m = (
    record active { nodes = m.active; edges = select (λ e. not (touches m.moved e)) active.edges },
    record cold { nodes = m.cold; edges = cold.edges ++ select (touches m.moved) active.edges },
  )

  unfoldable pub move_all :
      (String → String) → ℕ → ColdStorageOpts → st.Disk → Graph → Graph → Move st
  unfolding leaves move_nodes
  move_all lower now opts disk active cold =
      move_nodes st now (leaves lower now opts) active.nodes
        (record { disk = disk; active = active.nodes; cold = cold.nodes; moved = [] })

  -- The cold graph without what has expired.
  unfoldable pub purged_with : ℕ → ColdStorageOpts → Graph → Graph → Move st → Graph × ℕ
  unfolding split_edges purge_cold_expired retention_days
  purged_with now opts active cold m =
      purge_cold_expired now (retention_days opts) (split_edges active cold m).1

  unfoldable pub move_with :
      (String → String) → ℕ → ColdStorageOpts → st.Disk → Graph → Graph → Moving
  unfolding move_all split_edges purged_with save_cold
  move_with lower now opts disk active cold =
      let m = move_all lower now opts disk active cold in
      let (kept, purged) = purged_with now opts active cold m in
      let (after, r) = save_cold st m.disk (record kept { updated_at = now }) in
      record {
        disk = after;
        active = (split_edges active cold m).0;
        moved = m.moved;
        purged = purged;
        result = r;
      }

  unfoldable pub move_loaded :
      (String → String)
      → ℕ
      → ColdStorageOpts
      → st.Disk
      → Graph
      → Result ColdError (Option Graph)
      → Moving
  unfolding move_with
  move_loaded lower now opts disk active (err e) = record {
    disk = disk;
    active = active;
    moved = [];
    purged = 0;
    result = err e;
  }
  move_loaded lower now opts disk active (ok cold) =
      move_with lower now opts disk active (or_new cold)

  unfoldable pub move_to_cold : (String → String) → ℕ → ColdStorageOpts → st.Disk → Graph → Moving
  unfolding move_loaded load_cold
  move_to_cold lower now opts disk active =
      move_loaded lower now opts disk active (load_cold st disk)
