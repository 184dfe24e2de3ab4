-- ===== src/Workflow/Graph.antt =====
-- `wfNode`, `wfEdge` and the maps that `executeGroupRun` builds of them
-- (services/api/internal/api/handler/invoke.go). Ids are UUIDs, which stand as numbers in the order
-- of their texts. The lists stand in the order in which the code goes through the rows or, for
-- `nodeMap`, in the order that a `range` over the map happens to take.
use Prim.Native.String.{String}
use text.Mathlib.Text.{◌==◌ as str_eq}
use agent_nexus.Prelude.{
  ℕ, Bool, true, false, ◌||◌, List, [], ◌∷◌, ◌++◌, Option, none, some, ◌==◌, keep, if◌then◌else◌,
}
use agent_nexus.Prelude.Text.{Text}

pub data NodeType : Type 0 where
  start finish webhook gateway agent condition parallel join loop supervisor : NodeType
  other : Text → NodeType

-- The keys of one gateway delivery (with or without the prefix "gateway_"), "" where missing.
pub record Delivery : Type 0 where
  pub channel_id : Text
  pub peer_id : Text

-- The keys of a node's `Config` that the walk reads, after the code's type assertions: `none`, or the
-- empty text, where the key is missing or has another type. `max_iterations` is what `int(v)` gives;
-- a negative value stands as 0, since it is compared with a count that is at least 1.
pub record Config : Type 0 where
  pub expression : Option Text
  pub exit_condition : Option Text
  pub max_iterations : Option ℕ
  pub url : Text  -- a webhook node's destination
  pub webhook_url : Text  -- an end node's
  pub delivery : Delivery  -- a gateway node's
  pub end_delivery : Delivery  -- an end node's

-- `agent_id` is `none` where the source has the empty string.
pub record Node : Type 0 where
  pub id : ℕ
  pub type : NodeType
  pub agent_id : Option ℕ
  pub config : Config

pub record Edge : Type 0 where
  pub id : ℕ
  pub source : ℕ
  pub target : ℕ
  pub label : String

pub record Graph : Type 0 where
  pub nodes : List Node
  pub edges : List Edge

-- `nodeMap[id]`
unfoldable pub find_node : ℕ → List Node → Option Node
find_node id [] = none
find_node id (n ∷ ns) = if n.id == id then some n else find_node id ns

unfoldable pub node_at : Graph → ℕ → Option Node
unfolding find_node
node_at g id = find_node id g.nodes

-- `adj[id]`: the edges out of a node, in the order of the rows
unfoldable pub adj : Graph → ℕ → List Edge
adj g id = keep (λ e. e.source == id) g.edges

abbrev pub is_start : NodeType → Bool
is_start start = true
is_start _ = false

abbrev pub is_join : NodeType → Bool
is_join join = true
is_join _ = false

-- whether an edge points at the node: `inDegree` is not 0
abbrev pub has_incoming : List Edge → ℕ → Bool
has_incoming [] id = false
has_incoming (e ∷ es) id = e.target == id || has_incoming es id

unfoldable pub first_start : List Node → Option Node
first_start [] = none
first_start (n ∷ ns) = if is_start n.type then some n else first_start ns

unfoldable pub first_root : List Edge → List Node → Option Node
first_root es [] = none
first_root es (n ∷ ns) = if has_incoming es n.id then first_root es ns else some n

-- the start node, or else a node with no incoming edge
unfoldable pub start_node : Graph → Option Node
unfolding first_start first_root
start_node g = elim (first_start g.nodes) [ none ↦ first_root g.edges g.nodes | some n ↦ some n ]

-- `if next, ok := nodeMap[e.Target]; ok { queue = append(queue, next) }`, for each edge
unfoldable pub successors : Graph → List Edge → List Node
unfolding node_at
successors g [] = []
successors g (e ∷ es) =
    let rest = successors g es in elim (node_at g e.target) [ none ↦ rest | some n ↦ n ∷ rest ]

-- `edgesTargeting`, where `order` is the order in which `range adj` goes through the sources
unfoldable pub edges_targeting : Graph → List ℕ → ℕ → List Edge
unfolding adj
edges_targeting g [] target = []
edges_targeting g (s ∷ order) target =
    keep (λ e. e.target == target) (adj g s) ++ edges_targeting g order target

-- the edges that a supervisor's successors are taken from
abbrev pub is_delegate : Edge → Bool
is_delegate e = str_eq e.label "delegate"

-- the edge back to the body of a loop
abbrev pub is_loop : Edge → Bool
is_loop e = str_eq e.label "loop"
