-- ===== src/Knowledge.antt =====
-- internal/knowledge: what agents know, as a graph of nodes and edges (types.go, graph.go). A map is an
-- association list in the order in which Go happens to go through it, so a theorem about every list holds
-- for every order. A method reads the clock as `now`: no time passes within one call. A confidence, a
-- float64, is the integer of its bits, which has the order of the numbers: both zeros are 0, a negative
-- number is the negative of its magnitude's bits, and NaN, which JSON does not have, is left out. No
-- entry of the map is nil. Lower case is that of Unicode: a parameter.
pub mod Prune
pub mod Merge
pub mod Curation
pub mod Cold
mod Samples
use Prim.Native.String.{slice, find, len, ◌++◌ as str_append}
use agentfab.Prelude.{
  ℕ, ◌+◌, ◌-◌, ◌*◌, ◌%◌, ◌^◌, String, List, [], ◌∷◌, ◌++◌, Bool, true, false, not, ◌&&◌, ◌||◌, ◌==◌,
  if◌then◌else◌, ltb, leb, nat_eq, Option, none, some, Table, lookup, select, any, values, contains,
  length,
}
use agentfab.Prelude.Int.{of_bits, ℤ, pos, negsuc, leb_ℤ, max_int, increment}

pub record Node : Type 0 where
  pub id : String
  pub agent : String
  pub title : String
  pub file_path : String
  pub tags : List String
  pub request_id : String
  pub request_name : String
  pub created_at : ℕ
  pub updated_at : ℕ
  pub summary : String
  pub confidence : ℤ
  pub source : String
  pub ttl_days : ℤ
  pub hits : ℤ
  pub last_hit_at : ℕ

pub record Edge : Type 0 where
  pub from : String
  pub to : String
  pub relation : String

pub record Graph : Type 0 where
  pub version : ℤ
  pub updated_at : ℕ
  pub nodes : Table Node
  pub edges : List Edge

unfoldable pub new_graph : Graph
new_graph = record { version = pos 1; updated_at = 0; nodes = []; edges = [] }

pub record ManifestNode : Type 0 where
  pub id : String
  pub agent : String
  pub title : String
  pub summary : String
  pub content : String
  pub tags : List String
  pub confidence : ℤ
  pub source : String
  pub ttl_days : ℤ

pub record Manifest : Type 0 where
  pub nodes : List ManifestNode
  pub edges : List Edge

pub record PruneOpts : Type 0 where
  pub confidence_floor : ℤ
  pub max_nodes : ℤ

pub record ColdStorageOpts : Type 0 where
  pub min_hits : ℤ
  pub cold_days : ℤ
  pub retention_days : ℤ

-- A zero or negative option stands for its default.
abbrev or_default : ℤ → ℤ → ℤ
or_default given default = if leb_ℤ given (pos 0) then default else given

-- 0.2 as a float64.
unfoldable pub confidence_floor : PruneOpts → ℤ
confidence_floor o = or_default o.confidence_floor (pos 0x3fc999999999999a)

unfoldable pub max_nodes : PruneOpts → ℤ
max_nodes o = or_default o.max_nodes (pos 200)

unfoldable pub min_hits : ColdStorageOpts → ℤ
min_hits o = or_default o.min_hits (pos 3)

unfoldable pub cold_days : ColdStorageOpts → ℤ
cold_days o = or_default o.cold_days (pos 30)

unfoldable pub retention_days : ColdStorageOpts → ℤ
retention_days o = or_default o.retention_days (pos 1095)

-- `time.Duration(n) * 24 * time.Hour`, in nanoseconds.
unfoldable pub days : ℤ → ℤ
days (pos n) = of_bits (n * 86400000000000 % 2 ^ 64)
days (negsuc n) = of_bits ((2 ^ 64 - (n + 1) * 86400000000000 % 2 ^ 64) % 2 ^ 64)

abbrev capped : ℕ → ℕ
capped n = if leb n max_int then n else max_int

-- `time.Since(t)`, which stops at the largest and the smallest duration.
unfoldable pub since : ℕ → ℕ → ℤ
since now t = if leb t now then pos (capped (now - t)) else negsuc (capped (t - now - 1))

abbrev pub older : ℕ → ℕ → ℤ → Bool
older now t threshold = not (leb_ℤ (since now t) threshold)

unfoldable pub is_stale : ℕ → Node → Bool
unfolding days since
is_stale now n =
    if leb_ℤ n.ttl_days (pos 0) then false else older now n.updated_at (days n.ttl_days)

unfoldable pub is_cold : ℕ → Node → ℤ → ℤ → Bool
unfolding days since
is_cold now n hits cold =
    if leb_ℤ hits n.hits
    then false
    else if not (nat_eq n.last_hit_at 0)
    then older now n.last_hit_at (days cold)
    else older now n.created_at (days cold)

unfoldable pub record_hit : ℕ → Node → Node
unfolding increment
record_hit now n = record n { hits = increment n.hits; last_hit_at = now }

-- `_, ok := m[k]`.
abbrev pub is_there {ℓ} : {V : Type ℓ} → Option V → Bool
is_there none = false
is_there (some v) = true

abbrev supersedes : ℕ → Option Node → Bool
supersedes now none = false
supersedes now (some n) = not (is_stale now n)

unfoldable pub is_superseded : ℕ → Graph → String → Bool
unfolding is_stale
is_superseded now g id =
    any (λ e. (e.to == id && e.relation == "supersedes") && supersedes now (lookup e.from g.nodes))
      g.edges

-- A node that counts: `!n.IsStale() && !g.IsSuperseded(id)`.
abbrev pub is_active : ℕ → Graph → String × Node → Bool
is_active now g (id, n) = not (is_stale now n) && not (is_superseded now g id)

-- An edge with both ends in the map.
abbrev pub is_connected : Table Node → Edge → Bool
is_connected nodes e = is_there (lookup e.from nodes) && is_there (lookup e.to nodes)

unfoldable pub edge_key : Edge → String
edge_key e = str_append e.from (str_append "|" (str_append e.relation (str_append "|" e.to)))

-- The file of a node: its ID from behind the first slash.
unfoldable pub slug : String → String
slug id = let i = find id "/" in if leb i (len id) then slice id (i + 1) (len id) else id

unfoldable pub doc_path : String → String
unfolding slug
doc_path id = str_append "docs/" (str_append (slug id) ".md")

unfoldable pub query : Graph → List String → List Node
query g agents = select (λ n. contains agents n.agent) (values g.nodes)

module _ (lower : String → String) where
  unfoldable pub has_tag : Node → String → Bool
  has_tag n tag = any (λ t. lower t == lower tag) n.tags

  domain_tags_of : List String → List String
  domain_tags_of [] = []
  domain_tags_of (t ∷ ts) =
      let rest = domain_tags_of ts in if not (lower t == "decision") then lower t ∷ rest else rest

  unfoldable pub domain_tags : Node → List String
  unfolding domain_tags_of
  domain_tags n = domain_tags_of n.tags

abbrev decisions_in : (Node → Bool) → Table Node → ℕ
decisions_in is_decision [] = 0
decisions_in is_decision ((id, n) ∷ rest) =
    let count = decisions_in is_decision rest in if is_decision n then count + 1 else count

-- The numbers of nodes, edges and decisions.
unfoldable pub graph_stats : (String → String) → Option Graph → ℕ × ℕ × ℕ
unfolding has_tag
graph_stats lower none = (0, 0, 0)
graph_stats lower (some g) =
    (length g.nodes, length g.edges, decisions_in (λ n. has_tag lower n "decision") g.nodes)
