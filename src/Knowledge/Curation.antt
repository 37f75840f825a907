-- ===== src/Knowledge/Curation.antt =====
-- internal/knowledge/curate.go: the graph that a language model gives for a smaller one, and what is checked
-- of it before it takes the place of the old.
pub mod Checked
use agentfab.Prelude.{
  ℕ, String, List, [], ◌∷◌, map, Bool, not, ◌&&◌, ◌||◌, ◌==◌, if◌then◌else◌, ltb, Option, none,
  some, Table, lookup, insert, length, Result, ok, err, ◌>>◌, ◌>>=◌, fail_if, check_each,
}
use agentfab.Prelude.Int.{ℤ, pos, leb_ℤ}
use agentfab.Knowledge.{
  Node, Edge, Graph, new_graph, doc_path, has_tag, is_stale, is_superseded, is_active, is_there,
}

pub record CurateManifestNode : Type 0 where
  pub id : String
  pub agent : String
  pub title : String
  pub summary : String
  pub tags : List String
  pub confidence : ℤ
  pub source : String

pub record CurateManifest : Type 0 where
  pub nodes : List CurateManifestNode
  pub edges : List Edge

-- What the graph before knew of the node; the path of a document is never empty.
abbrev with_original : Option Node → Node → Node
with_original none n = n
with_original (some old) n = record n {
  hits = old.hits;
  last_hit_at = old.last_hit_at;
  created_at = old.created_at;
  request_id = old.request_id;
  request_name = old.request_name;
  ttl_days = old.ttl_days;
  file_path = if n.file_path == "" then old.file_path else n.file_path;
}

curated_node : Graph → CurateManifestNode → Node
unfolding doc_path
curated_node g m = with_original (lookup m.id g.nodes) (record {
  id = m.id;
  agent = m.agent;
  title = m.title;
  file_path = doc_path m.id;
  tags = m.tags;
  request_id = "";
  request_name = "";
  created_at = 0;
  updated_at = 0;
  summary = m.summary;
  confidence = m.confidence;
  source = m.source;
  ttl_days = pos 0;
  hits = pos 0;
  last_hit_at = 0;
})

curated_nodes : Graph → List CurateManifestNode → Table Node → Table Node
unfolding curated_node
curated_nodes g [] nodes = nodes
curated_nodes g (m ∷ ms) nodes = curated_nodes g ms (insert m.id (curated_node g m) nodes)

-- The graph of a manifest that the model has given.
unfoldable pub curated_graph : Graph → CurateManifest → Graph
unfolding curated_nodes new_graph
curated_graph g m = record new_graph { nodes = curated_nodes g m.nodes []; edges = m.edges }

pub data CurationError : Type 0 where
  nil_graph : CurationError
  more_nodes : ℕ → ℕ → CurationError
  decision_removed dangling_from dangling_to : String → CurationError
  confident_removed : String → ℤ → CurationError

-- 0.8 as a float64.
abbrev pub high_confidence : ℤ
high_confidence = pos 0x3fe999999999999a

-- An entry that must stay, for the first reason or for the second.
abbrev pub is_decision : (String → String) → ℕ → Graph → String × Node → Bool
is_decision lower now original p =
    not ((not (has_tag lower p.1 "decision") || is_stale now p.1) || is_superseded now original p.0)

abbrev pub is_confident : ℕ → Graph → String × Node → Bool
is_confident now original p = not (
    (not (leb_ℤ high_confidence p.1.confidence) || is_stale now p.1)
    || is_superseded now original p.0)

abbrev pub is_missing : Graph → String → Bool
is_missing g id = not (is_there (lookup id g.nodes))

unfoldable pub check_edge : Graph → Edge → Result CurationError (Unit {0})
check_edge curated e =
    fail_if (is_missing curated e.from) (dangling_from e.from)
    >> fail_if (is_missing curated e.to) (dangling_to e.to)

unfoldable pub check_decision :
    (String → String) → ℕ → Graph → Graph → String × Node → Result CurationError (Unit {0})
unfolding has_tag is_stale is_superseded
check_decision lower now original curated p =
    fail_if (is_decision lower now original p && is_missing curated p.0) (decision_removed p.0)

unfoldable pub check_confident : ℕ → Graph → Graph → String × Node → Result CurationError (Unit {0})
unfolding is_stale is_superseded
check_confident now original curated p =
    fail_if (is_confident now original p && is_missing curated p.0)
      (confident_removed p.0 p.1.confidence)

unfoldable pub check_curated :
    (String → String) → ℕ → Graph → Graph → Result CurationError (Unit {0})
unfolding check_edge check_decision check_confident
check_curated lower now original curated =
    fail_if (ltb (length original.nodes) (length curated.nodes))
      (more_nodes (length curated.nodes) (length original.nodes))
    >> check_each (check_decision lower now original curated) original.nodes
    >> check_each (check_confident now original curated) original.nodes
    >> check_each (check_edge curated) curated.edges

unfoldable pub validate_curated :
    (String → String) → ℕ → Option Graph → Option Graph → Result CurationError (Unit {0})
unfolding check_curated
validate_curated lower now none curated = err nil_graph
validate_curated lower now (some original) none = err nil_graph
validate_curated lower now (some original) (some curated) = check_curated lower now original curated
