-- ===== src/Knowledge/Prune.antt =====
-- internal/knowledge/prune.go: what is stale, of low confidence or too much leaves the graph.
pub mod Kept
pub mod Pruned
use agentfab.Prelude.{
  ℕ, zero, suc, ◌-◌, String, List, [], ◌∷◌, ◌++◌, Bool, not, ◌&&◌, map, if◌then◌else◌, leb, ltb,
  Table, delete, select, length,
}
use agentfab.Prelude.Int.{ℤ, pos, leb_ℤ, pos_part}
use agentfab.Loop.{is_empty}
use agentfab.Knowledge.{
  Node, Edge, Graph, PruneOpts, confidence_floor, max_nodes, is_stale, is_connected,
}

unfoldable pub delete_all : List String → Table Node → Table Node
delete_all [] nodes = nodes
delete_all (id ∷ ids) nodes = delete_all ids (delete id nodes)

-- `for id, n := range g.Nodes { if test(n) { evicted = append(evicted, id); delete(g.Nodes, id) } }`.
unfoldable pub ids_where : (Node → Bool) → Table Node → List String
ids_where test [] = []
ids_where test ((id, n) ∷ rest) = let ids = ids_where test rest in if test n then id ∷ ids else ids

unfoldable pub is_doubtful : ℤ → Node → Bool
is_doubtful floor n = not (leb_ℤ n.confidence (pos 0)) && not (leb_ℤ floor n.confidence)

pub record Ranked : Type 0 where
  pub id : String
  pub confidence : ℤ

abbrev pub ranked : String × Node → Ranked
ranked (id, n) = record { id = id; confidence = n.confidence }

unfoldable pub take : ℕ → List Ranked → List Ranked
take zero rs = []
take (suc n) [] = []
take (suc n) (r ∷ rs) = r ∷ take n rs

-- `sort.Slice` by the confidence: how it puts nodes of equal confidence is left open.
abbrev pub Sort : Type 0
Sort = List Ranked → List Ranked

-- The IDs that are too many, the lowest confidence first.
unfoldable pub excess_ids : Sort → ℕ → Table Node → List String
unfolding take
excess_ids sort limit nodes =
    if ltb limit (length nodes)
    then map (λ r. r.id) (take (length nodes - limit) (sort (map ranked nodes)))
    else []

unfoldable pub clean_edges : List String → Table Node → List Edge → List Edge
clean_edges evicted nodes edges =
    if is_empty evicted then edges else select (is_connected nodes) edges

-- The graph without them, and the IDs evicted.
unfoldable pub prune : Sort → ℕ → PruneOpts → Graph → Graph × List String
unfolding delete_all ids_where is_doubtful excess_ids clean_edges
prune sort now opts g =
    let stale = ids_where (is_stale now) g.nodes in
    let fresh = delete_all stale g.nodes in
    let doubtful = ids_where (is_doubtful (confidence_floor opts)) fresh in
    let sure = delete_all doubtful fresh in
    let excess = excess_ids sort (pos_part (max_nodes opts)) sure in
    let nodes = delete_all excess sure in
    let evicted = stale ++ (doubtful ++ excess) in
    (record g { nodes = nodes; edges = clean_edges evicted nodes g.edges }, evicted)
