-- ===== src/Knowledge/Samples.antt =====
-- A small graph of internal/knowledge, and what becomes of it.
use mathlib.Core.List.Perm
use agentfab.Prelude.{
  ℕ, ◌*◌, ◌≢◌, ◌↔◌, ◌⊎◌, ◌==◌, if◌then◌else◌, length, delete, All-In, In, Table, any, contains,
  check_each, Option, String, [], ◌∷◌, true, ◌≡◌, refl, inl, inr, none, some, lookup, insert, ok,
  err, arith, ◌≤◌, eq_iff, eq_refl, lookup-insert, ◌∙◌, sym,
}
use agentfab.Prelude.Int.{◌≤ℤ◌, pos, negsuc}
use agentfab.Knowledge.{
  Node, Edge, Graph, ManifestNode, Manifest, PruneOpts, ColdStorageOpts, days, since,
  retention_days, is_stale, is_there, is_connected, doc_path, slug, has_tag, is_cold, min_hits,
  cold_days, confidence_floor, max_nodes, is_superseded,
}
use agentfab.Knowledge.Prune.{
  Sort, prune, delete_all, ids_where, is_doubtful, excess_ids, take, clean_edges,
}
use agentfab.Knowledge.Prune.Pruned.{prune-Stays, Stays, IsConnected}
use agentfab.Knowledge.Merge.{merge}
use agentfab.Knowledge.Merge.Merged.{Keeps, Distinct, keys, merge-Keeps}
use agentfab.Knowledge.Curation.{check_decision, check_curated, validate_curated, decision_removed}
use agentfab.Knowledge.Curation.Checked.{IsCuration, validate_curated-IsCuration}
use agentfab.Knowledge.Cold.{Storage, Persists, or_new, leaves, move_to_cold, load_cold}
use agentfab.Knowledge.Cold.Moved.{ids_of}
use agentfab.Knowledge.Cold.Conserved.{
  IsConserved, move_to_cold-conserves, move_to_cold-IsConnected,
}
use agentfab.Knowledge.Cold.Restore.{Restoring, restore_from_cold}
use agentfab.Knowledge.Cold.Restore.Returned.{returned, moving, restore-move_to_cold}

abbrev plain : String → String
plain s = s

abbrev day : ℕ
day = 86400000000000

abbrev note : Node
note = record {
  id = "a/old";
  agent = "a";
  title = "Old";
  file_path = "docs/old.md";
  tags = "api" ∷ [];
  request_id = "r";
  request_name = "R";
  created_at = 5;
  updated_at = 5;
  summary = "s";
  confidence = pos 7;
  source = "";
  ttl_days = pos 10;
  hits = pos 1;
  last_hit_at = 0;
}

abbrev decision : Node
decision = record note {
  id = "a/rule";
  tags = "decision" ∷ [];
  confidence = pos 0x3fe999999999999a;
  ttl_days = pos 0;
}

abbrev link : Edge
link = record { from = "a/old"; to = "a/rule"; relation = "refines" }

abbrev graph : Graph
graph = record {
  version = pos 1;
  updated_at = 5;
  nodes = ("a/old", note) ∷ ("a/rule", decision) ∷ [];
  edges = link ∷ [];
}

abbrev one : PruneOpts
one = record { confidence_floor = pos 8; max_nodes = pos 1 }

abbrev as_it_is : Sort
as_it_is rs = rs

-- What the days run over at 64 bits: a term that is long enough is in the past.
days_wrap : days (pos 200000) ≡ negsuc 1166744073709551615
unfolding days
days_wrap = refl

slash : doc_path "a/b/c" ≡ "docs/b/c.md"
unfolding doc_path slug
slash = refl

prunes_old : (prune as_it_is (40 * day) one graph).1 ≡ ("a/old" ∷ [])
unfolding prune delete_all ids_where is_doubtful excess_ids clean_edges is_stale days since take
    confidence_floor max_nodes delete lookup
prunes_old = refl

prune-Stays_example :
    (length (prune as_it_is (40 * day) one graph).0.nodes ≤ 1)
    × ((p : String × Node)
        → In p (prune as_it_is (40 * day) one graph).0.nodes
        → Stays (40 * day) one graph p)
    × ((id : String)
        → lookup id (prune as_it_is (40 * day) one graph).0.nodes ≡ (
            if contains (prune as_it_is (40 * day) one graph).1 id
            then none
            else lookup id graph.nodes))
unfolding max_nodes
prune-Stays_example = prune-Stays as_it_is Perm.refl (40 * day) one graph

graph-IsConnected : IsConnected graph
unfolding lookup
graph-IsConnected e m = All-In (λ x. is_connected graph.nodes x ≡ true) graph.edges (refl, tt) e m

abbrev manifest : Manifest
manifest = record {
  nodes =
      record {
        id = "a/old";
        agent = "a";
        title = "New";
        summary = "t";
        content = "";
        tags = [];
        confidence = pos 3;
        source = "";
        ttl_days = pos 0;
      }
      ∷ [];
  edges = link ∷ record link { relation = "related_to" } ∷ [];
}

merge-Keeps_example :
    ((id : String) (old : Node)
      → lookup id graph.nodes ≡ some old
      → Keeps old (lookup id (merge 50 "r" "R" manifest graph).nodes))
    × ((x : ManifestNode)
        → In x manifest.nodes
        → (n : Node) × (lookup x.id (merge 50 "r" "R" manifest graph).nodes ≡ some n))
    × ((k : String)
        → In k (keys (merge 50 "r" "R" manifest graph).edges)
          ↔ In k (keys graph.edges) ⊎ In k (keys manifest.edges))
    × (Distinct (keys (merge 50 "r" "R" manifest graph).edges) ↔ Distinct (keys graph.edges))
merge-Keeps_example = merge-Keeps 50 "r" "R" manifest graph

-- A curated graph without a decision does not pass.
keeps_decisions :
    validate_curated plain 50 (some graph) (some (record graph { nodes = []; edges = [] }))
    ≡ err (decision_removed "a/rule")
unfolding validate_curated check_curated check_decision check_each has_tag is_stale is_superseded
    any lookup days since
keeps_decisions = refl

validate_curated-IsCuration_example :
    validate_curated plain 50 (some graph) (some graph) ≡ ok tt
    ↔ (o : Graph) × (c : Graph) × ◌≡◌ {A = Option Graph} (some graph) (some o)
      × ◌≡◌ {A = Option Graph} (some graph) (some c)
      × IsCuration plain 50 o c
validate_curated-IsCuration_example = validate_curated-IsCuration plain 50 (some graph) (some graph)

-- A disk that never fails, with graphs as they are.
abbrev disk_of_graphs : Storage
disk_of_graphs = record {
  Disk = Table Graph;
  Data = Graph;
  exists = λ disk path. some (is_there (lookup path disk));
  read = λ disk path. lookup path disk;
  write = λ disk path g. (insert path g disk, true);
  encode = some;
  decode = some;
}

abbrev usual : ColdStorageOpts
usual = record { min_hits = pos 0; cold_days = pos 0; retention_days = pos 0 }

stored :
    (path : String) (g : Graph) (disk : Table Graph) → lookup path (insert path g disk) ≡ some g
stored path g disk = lookup-insert path path g disk ∙ rw (eq_refl path) refl

stored_there :
    (path : String) (g : Graph) (disk : Table Graph)
    → some (is_there (lookup path (insert path g disk))) ≡ some true
stored_there path g disk = rw (stored path g disk) refl

nothing_there : load_cold disk_of_graphs [] ≡ ok none
unfolding load_cold lookup
nothing_there = refl

old_leaves : leaves plain (40 * day) usual note ≡ true
unfolding leaves has_tag is_cold any days since min_hits cold_days
old_leaves = refl

old-ne-rule : ◌≢◌ {A = String} "a/old" "a/rule"
old-ne-rule e = let t : ("a/old" == "a/rule") ≡ true = (eq_iff "a/old" "a/rule").1 e in cc t

old_there : lookup "a/old" graph.nodes ≡ some note
unfolding lookup
old_there = refl

long_retention : pos 0 ≤ℤ days (retention_days usual)
unfolding days retention_days
long_retention = omega arith

graph-Distinct : Distinct (ids_of graph.nodes)
graph-Distinct = (λ m. elim m [ inl e ↦ old-ne-rule e | inr n ↦ elim n [ ] ], (λ m. elim m [ ], tt))

disk_of_graphs-Persists : Persists disk_of_graphs
unfolding lookup insert
disk_of_graphs-Persists = record {
  written = λ disk path g h. (stored_there path g disk, stored path g disk);
  back = λ g d e. sym e;
}

moving_succeeds : (move_to_cold disk_of_graphs plain (40 * day) usual [] graph).result ≡ ok tt
unfolding move_to_cold lookup
moving_succeeds = refl

move_to_cold-conserves_example :
    (kept : Graph) × (load_cold disk_of_graphs
        (move_to_cold disk_of_graphs plain (40 * day) usual [] graph).disk
      ≡ ok (some kept))
    × IsConserved disk_of_graphs plain
        (40 * day)
        usual
        []
        graph
        (or_new none)
        kept
        (move_to_cold disk_of_graphs plain (40 * day) usual [] graph)
        "a/old"
        note
move_to_cold-conserves_example =
    move_to_cold-conserves disk_of_graphs plain (40 * day) usual [] graph none "a/old" note
      disk_of_graphs-Persists nothing_there moving_succeeds graph-Distinct old_there long_retention

move_to_cold-IsConnected_example :
    IsConnected (move_to_cold disk_of_graphs plain (40 * day) usual [] graph).active
move_to_cold-IsConnected_example =
    move_to_cold-IsConnected disk_of_graphs plain (40 * day) usual [] graph graph-IsConnected

restore-move_to_cold_example :
    (kept : Graph) × (r : Restoring disk_of_graphs) × (load_cold disk_of_graphs
        (moving disk_of_graphs plain (40 * day) usual [] graph).disk
      ≡ ok (some kept))
    × (restore_from_cold disk_of_graphs
          (moving disk_of_graphs plain (40 * day) usual [] graph).disk
          (some (moving disk_of_graphs plain (40 * day) usual [] graph).active)
          (some kept)
          (moving disk_of_graphs plain (40 * day) usual [] graph).moved
        ≡ ok r)
    × (lookup "a/old" r.active.nodes
        ≡ some (returned disk_of_graphs plain (40 * day) usual [] graph note))
restore-move_to_cold_example =
    restore-move_to_cold disk_of_graphs plain (40 * day) usual [] graph none "a/old" note
      disk_of_graphs-Persists nothing_there moving_succeeds graph-Distinct old_there long_retention
