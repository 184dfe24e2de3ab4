-- ===== src/Workflow/Joins.antt =====
-- The search of the "parallel" case of `walkBranch`
-- (services/api/internal/api/handler/invoke.go): the join nodes at which the branches stop.
pub mod Search
use agent_nexus.Prelude.{
  ℕ, zero, suc, Bool, true, false, ◌||◌, List, [], ◌∷◌, ◌++◌, Option, none, some, ◌==◌, member,
  length, if◌then◌else◌,
}
use agent_nexus.Workflow.Graph.{Node, Edge, Graph, is_join, node_at, adj}

-- `if n, ok := nodeMap[cur]; ok && n.Type == "join"`
unfoldable pub join_at : Graph → ℕ → Bool
unfolding node_at
join_at g id = elim (node_at g id) [ none ↦ false | some n ↦ is_join n.type ]

pub record Bfs : Type 0 where
  pub visited : List ℕ  -- `bfsVisited`
  pub queue : List ℕ  -- `bfsQ`
  pub stops : List ℕ  -- `stopNodeIDs`

-- the loop over `adj[cur]`
unfoldable pub push_targets : List Edge → Bfs → Bfs
push_targets [] s = s
push_targets (e ∷ es) s = push_targets es (
    if member e.target s.visited
    then s
    else record s { visited = e.target ∷ s.visited; queue = s.queue ++ e.target ∷ [] })

-- one round: `cur` is taken off the queue
unfoldable pub bfs_round : Graph → ℕ → Bfs → Bfs
unfolding join_at push_targets adj
bfs_round g cur s =
    if join_at g cur
    then record s { stops = if member cur s.stops then s.stops else cur ∷ s.stops }
    else push_targets (adj g cur) s

-- the loop over the queue, on fuel
unfoldable pub bfs_loop : Graph → ℕ → Bfs → Bfs
unfolding bfs_round
bfs_loop g zero s = s
bfs_loop g (suc fuel) s = elim s.queue [
  | [] ↦ s
  | cur ∷ rest ↦ bfs_loop g fuel (bfs_round g cur (record s { queue = rest }))
]

-- A target is visited once, so one round for each edge and one for the start are enough.
unfoldable pub bfs_from : Graph → List ℕ → ℕ → Bfs
unfolding bfs_loop
bfs_from g stops id =
    bfs_loop g (suc (length g.edges)) (record { visited = id ∷ []; queue = id ∷ []; stops = stops })

-- the loop over the edges out of the parallel node
unfoldable pub stop_nodes_from : Graph → List Edge → List ℕ → List ℕ
unfolding bfs_from
stop_nodes_from g [] stops = stops
stop_nodes_from g (e ∷ es) stops = stop_nodes_from g es (bfs_from g stops e.target).stops

unfoldable pub stop_nodes : Graph → List Edge → List ℕ
unfolding stop_nodes_from
stop_nodes g es = stop_nodes_from g es []
