-- ===== src/Workflow/Threads.antt =====
-- The branches of a walk as threads, and the whole of `executeGroupRun`
-- (services/api/internal/api/handler/invoke.go). A parallel node starts a goroutine for each edge and
-- waits for them, so the rounds of different branches interleave: an action names the thread that
-- goes on. A node that waits for a call lets other threads go on before the call returns.
pub mod Rounds
pub mod Invariant
pub mod Steps
pub mod Measure
pub mod Termination
pub mod Outcome
pub mod Resumption
use agent_nexus.Prelude.{
  ℕ, zero, suc, ◌+◌, ◌≡◌, Bool, true, false, not, ◌&&◌, ◌||◌, List, [], ◌∷◌, ◌++◌, map, Option,
  none, some, ◌==◌, get_elem?, set, if◌then◌else◌,
}
use agent_nexus.Prelude.Text.{Text, codes, is_blank}
use agent_nexus.Prelude.Dict.{lookup}
use agent_nexus.Run.{Run, cancel_row, complete_run}
use agent_nexus.Workflow.Graph.{Node, Edge, Graph, adj, successors, start_node, is_start}
use agent_nexus.Workflow.State.{Event, Checkpoint, Progress, Walk, Branch, Env, emit, fail_workflow}
use agent_nexus.Workflow.Nodes.{Answer, Next}
use agent_nexus.Workflow.Turns.{Reply, Turn, begin_turn, finish_call, resume_parallel}

pub data Phase : Type 0 where
  ready ended : Phase
  calling : Node → Phase
  waiting : Node → List ℕ → Phase

-- `parent` is the thread whose parallel node waits for this one.
pub record Thread : Type 0 where
  pub branch : Branch
  pub phase : Phase
  pub parent : Option ℕ

pub record Config : Type 0 where
  pub walk : Walk
  pub threads : List Thread

-- What happens next: a round of a thread with the answers from outside, a cancel through the API, or
-- the end of the request that streams the events.
pub data Action : Type 0 where
  turn : ℕ → Answer → Reply → Action
  cancel disconnect : Action

abbrev pub is_live : Phase → Bool
is_live ended = false
is_live _ = true

abbrev pub is_child : ℕ → Thread → Bool
is_child i t = elim t.parent [ none ↦ false | some j ↦ i == j ]

-- whether `wg.Wait()` of thread `i` still blocks
unfoldable pub has_live_child : ℕ → List Thread → Bool
has_live_child i [] = false
has_live_child i (t ∷ ts) = (is_child i t && is_live t.phase) || has_live_child i ts

-- the goroutines of a parallel node
abbrev pub child_thread : ℕ → Text → List ℕ → Node → Thread
child_thread i input stops n = record {
  branch = record {
    queue = n ∷ [];
    last_output = input;
    prev_node_name = [];
    branch_input = input;
    stop_at = stops;
  };
  phase = ready;
  parent = some i;
}

-- a thread and the threads that it starts, after a turn
unfoldable pub after_turn : Env → ℕ → Thread → Turn → Thread × List Thread
after_turn env i t Turn.returned = (record t { phase = ended }, [])
after_turn env i t (Turn.going (Next.again b)) = (record t { branch = b; phase = ready }, [])
after_turn env i t (Turn.going (Next.call n b)) = (record t { branch = b; phase = calling n }, [])
after_turn env i t (Turn.going (Next.fork n b stops)) = (
  record t { branch = b; phase = waiting n stops },
  map (child_thread i b.last_output stops) (successors env.graph (adj env.graph n.id)),
)

abbrev pub put_thread : Config → ℕ → Walk × (Thread × List Thread) → Config
put_thread c i (w, (t, new)) = record { walk = w; threads = set c.threads i t ++ new }

-- what thread `i` does, by its phase
unfoldable pub thread_turn : Env → ℕ → Answer → Reply → Config → Phase → Thread → Config
unfolding after_turn has_live_child
thread_turn env i a r c ready t =
    let (w, tn) = begin_turn env a c.walk t.branch.queue t.branch in
    put_thread c i (w, after_turn env i t tn)
thread_turn env i a r c (calling n) t =
    let (w, tn) = finish_call env r n.type n c.walk t.branch in
    put_thread c i (w, after_turn env i t tn)
thread_turn env i a r c (waiting n joins) t =
    let (w, b) = resume_parallel env n joins c.walk t.branch in
    if has_live_child i c.threads
    then c
    else put_thread c i (w, (record t { branch = b; phase = ready }, []))
thread_turn env i a r c ended t = c

unfoldable pub turn_of : Env → ℕ → Answer → Reply → Config → Config
unfolding thread_turn
turn_of env i a r c = elim (get_elem? c.threads i) [
  | none ↦ c
  | some t ↦ thread_turn env i a r c t.phase t
]

-- `Cancel` writes the status first and then cancels the context.
unfoldable pub cancel_walk : Walk → Walk
cancel_walk w =
    let (r, changed) = cancel_row w.run in
    if changed then record w { run = r; ctx_done = true } else w

unfoldable pub step : Env → Config → Action → Config
unfolding turn_of cancel_walk
step env c (turn i a r) = turn_of env i a r c
step env c cancel = record c { walk = cancel_walk c.walk }
step env c disconnect = record c { walk = record c.walk { ctx_done = true } }

unfoldable pub run_actions : Env → Config → List Action → Config
run_actions env c [] = c
run_actions env c (a ∷ rest) = run_actions env (step env c a) rest

-- The walk as it starts: one thread at the start node, with the counts of the loops from the
-- checkpoint, if the run resumes from one.
abbrev pub start_config : Node → Text → List (ℕ × ℕ) → Option Checkpoint → Run → Config
start_config n input loops saved run = record {
  walk = record {
    total_steps = 0;
    run_marked = false;
    ctx_done = false;
    run = run;
    progress = record {
      node_outputs = [];
      loop_iterations = loops;
      consumed_resume = [];
      checkpoint = saved;
      log = [];
    };
  };
  threads =
      record {
        branch = record {
          queue = n ∷ [];
          last_output = input;
          prev_node_name = [];
          branch_input = input;
          stop_at = [];
        };
        phase = ready;
        parent = none;
      }
      ∷ [];
}

abbrev pub is_sink : List Edge → Bool
is_sink [] = true
is_sink (_ ∷ _) = false

-- the output of the first sink, other than a start node, that has one
unfoldable pub final_output : Graph → List Node → List (ℕ × Text) → Text → Text
final_output g [] outs input = input
final_output g (n ∷ ns) outs input =
    let later = final_output g ns outs input in
    if is_sink (adj g n.id) && not (is_start n.type)
    then elim (lookup n.id outs) [ none ↦ later | some out ↦ if is_blank out then later else out ]
    else later

-- After the top-level call of `walkBranch`: a run that is marked stays as it is. The checkpoint is
-- deleted on every way out.
unfoldable pub finish_walk : Env → Walk → Walk
unfolding final_output
finish_walk env w =
    let closed : Progress = record w.progress { checkpoint = none } in
    let out = final_output env.graph env.graph.nodes w.progress.node_outputs env.original_input in
    if w.run_marked then record w { progress = closed } else record w {
      run_marked = true;
      run = complete_run out w.run;
      progress = emit Event.run_completed closed;
    }
