-- ===== src/Knowledge/Merge.antt =====
-- internal/knowledge/graph.go, Merge: a manifest's nodes and edges go into a graph.
pub mod Merged
use agentfab.Prelude.{
  ℕ, String, List, [], ◌∷◌, ◌++◌, map, Bool, not, ◌||◌, ◌&&◌, ◌==◌, if◌then◌else◌, nat_eq, Option,
  none, some, Table, lookup, insert, contains,
}
use agentfab.Prelude.Int.{ℤ, pos, leb_ℤ, increment}
use agentfab.Knowledge.{Node, Edge, Graph, ManifestNode, Manifest, doc_path, edge_key}

-- `node.Confidence > existing.Confidence || existing.Confidence == 0`.
abbrev pub better : ℤ → ℤ → ℤ
better old new =
    if not (leb_ℤ new old) || (leb_ℤ old (pos 0) && leb_ℤ (pos 0) old) then new else old

module _ (now : ℕ) (request_id request_name : String) where
  unfoldable created_node : ManifestNode → Node
  unfolding doc_path
  created_node m = record {
    id = m.id;
    agent = m.agent;
    title = m.title;
    file_path = doc_path m.id;
    tags = m.tags;
    request_id = request_id;
    request_name = request_name;
    created_at = now;
    updated_at = now;
    summary = m.summary;
    confidence = m.confidence;
    source = m.source;
    ttl_days = m.ttl_days;
    hits = pos 0;
    last_hit_at = 0;
  }

  unfoldable pub updated_node : Node → ManifestNode → Node
  unfolding doc_path
  updated_node old m = record old {
    title = m.title;
    summary = m.summary;
    tags = m.tags;
    file_path = doc_path m.id;
    request_id = request_id;
    request_name = request_name;
    updated_at = now;
    confidence = better old.confidence m.confidence;
    source = if not (m.source == "") then m.source else old.source;
    ttl_days = if not (leb_ℤ m.ttl_days (pos 0)) then m.ttl_days else old.ttl_days;
  }

  unfoldable pub merged_node : Option Node → ManifestNode → Node
  unfolding created_node updated_node
  merged_node none m = created_node m
  merged_node (some old) m = updated_node old m

  unfoldable pub merge_nodes : List ManifestNode → Table Node → Table Node
  unfolding merged_node
  merge_nodes [] nodes = nodes
  merge_nodes (m ∷ ms) nodes =
      merge_nodes ms (insert m.id (merged_node (lookup m.id nodes) m) nodes)

-- The edges whose keys are not yet in the set.
unfoldable pub new_edges : List String → List Edge → List Edge
unfolding edge_key
new_edges keys [] = []
new_edges keys (e ∷ es) =
    let known = new_edges keys es in
    let added = new_edges (edge_key e ∷ keys) es in
    if contains keys (edge_key e) then known else e ∷ added

unfoldable pub merge : ℕ → String → String → Manifest → Graph → Graph
unfolding merge_nodes new_edges increment
merge now request_id request_name m g = record g {
  nodes = merge_nodes now request_id request_name m.nodes g.nodes;
  edges = g.edges ++ new_edges (map edge_key g.edges) m.edges;
  version = increment g.version;
}
