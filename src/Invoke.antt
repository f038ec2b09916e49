-- ===== src/Invoke.antt =====
-- src/kernel/invoke.rs: the graph of the invocations that actions declare, and its check for cycles.
-- A hash map is a list of entries; the order in which its keys are visited is a parameter.
pub mod Walks
pub mod Settled
pub mod Explore
pub mod BackEdge
pub mod Rounds
pub mod Search
pub mod Acyclic
pub mod Edges
pub mod Bodies
pub mod Told
pub mod Inner
pub mod Emits
pub mod Rejects
pub mod Judged
pub mod Collects
pub mod References
pub mod Literal
pub mod Declared
pub mod Tests
use gwead.Prelude.{
  ℕ, zero, suc, ◌+◌, Bool, true, false, ◌&&◌, Option, none, some, List, [], ◌∷◌, ◌++◌, map,
  get_elem?, length, if◌then◌else◌,
}
use gwead.Prelude.Outcome.{Result, ok, err, ◌>>=◌}
use gwead.Text.{Str, str_eq}
use gwead.Fault.{Fault, error, panic, out_of_fuel}

-- a plugin and one of its actions
abbrev pub NodeRef : Type 0
NodeRef = Str × Str

pub record InvokeEdge : Type 0 where
  pub from : NodeRef
  pub to : NodeRef

pub data InvokeCycleError : Type 0 where
  cycle : List NodeRef → InvokeCycleError
  malformed_inner_step : Str → Str → Str → InvokeCycleError

unfoldable pub node_eq : NodeRef → NodeRef → Bool
node_eq (p, a) (q, b) = str_eq p q && str_eq a b

abbrev pub Adjacency : Type 0
Adjacency = List (NodeRef × List NodeRef)

-- `adj.entry(from).or_default().push(to)`
unfoldable pub push_edge : NodeRef → NodeRef → Adjacency → Adjacency
push_edge from to [] = (from, to ∷ []) ∷ []
push_edge from to ((n, ts) ∷ adj) =
    if node_eq n from then (n, ts ++ to ∷ []) ∷ adj else (n, ts) ∷ push_edge from to adj

-- the loop of check_acyclic that fills `adj`
unfoldable pub fill : List InvokeEdge → Adjacency → Adjacency
fill [] adj = adj
fill (e ∷ edges) adj = fill edges (push_edge e.from e.to adj)

-- `adj.get(node)`, or the empty slice
unfoldable pub neighbours : Adjacency → NodeRef → List NodeRef
neighbours [] n = []
neighbours ((m, ts) ∷ adj) n = if node_eq m n then ts else neighbours adj n

pub data Color : Type 0 where
  gray black : Color

-- The colours; `color.insert` puts an entry in front, and the first entry of a key counts.
abbrev pub Colors : Type 0
Colors = List (NodeRef × Color)

unfoldable pub color_of : Colors → NodeRef → Option Color
color_of [] n = none
color_of ((m, c) ∷ colors) n = if node_eq m n then some c else color_of colors n

-- the nodes of a stack, from the bottom
unfoldable pub bottom_up : List NodeRef → List (NodeRef × ℕ) → List NodeRef
bottom_up above [] = above
bottom_up above ((n, i) ∷ stack) = bottom_up (n ∷ above) stack

-- `stack[cycle_start..]`, from the first occurrence of a node on
unfoldable pub from_first : NodeRef → List NodeRef → Option (List NodeRef)
from_first n [] = none
from_first n (m ∷ ms) = if node_eq m n then some (m ∷ ms) else from_first n ms

abbrev pub closed_by :
    NodeRef
    → Colors
    → Option (List NodeRef)
    → Result (Fault InvokeCycleError) (Option (List NodeRef) × Colors)
closed_by next colors none = err panic
closed_by next colors (some nodes) = ok (some (nodes ++ next ∷ []), colors)

-- The loop of dfs_find_cycle, for `fuel` rounds at most; the top of the stack comes first.
unfoldable pub dfs :
    ℕ
    → Adjacency
    → List (NodeRef × ℕ)
    → Colors
    → Result (Fault InvokeCycleError) (Option (List NodeRef) × Colors)
dfs fuel adj [] colors = ok (none, colors)
dfs zero adj (top ∷ stack) colors = err out_of_fuel
dfs (suc fuel) adj ((node, i) ∷ stack) colors = elim (get_elem? (neighbours adj node) i) [
  | none ↦ dfs fuel adj stack ((node, black) ∷ colors)
  | some next ↦ elim (color_of colors next) [
    | none ↦ dfs fuel adj ((next, 0) ∷ (node, i + 1) ∷ stack) ((next, gray) ∷ colors)
    | some gray ↦ closed_by next colors (from_first next (bottom_up [] ((node, i + 1) ∷ stack)))
    | some black ↦ dfs fuel adj ((node, i + 1) ∷ stack) colors
  ]
]

-- The nodes of the graph, and a number of rounds that is enough: each round takes a node off the
-- stack or an edge out of the rest.
unfoldable pub nodes : Adjacency → List NodeRef
nodes [] = []
nodes ((n, ts) ∷ adj) = n ∷ (ts ++ nodes adj)

unfoldable pub work : Adjacency → List NodeRef → ℕ
work adj [] = 0
work adj (n ∷ ns) = suc (length (neighbours adj n)) + work adj ns

-- dfs_find_cycle
unfoldable pub dfs_find_cycle :
    Adjacency → NodeRef → Colors → Result (Fault InvokeCycleError) (Option (List NodeRef) × Colors)
dfs_find_cycle adj start colors =
    dfs (work adj (nodes adj)) adj ((start, 0) ∷ []) ((start, gray) ∷ colors)

-- the loop over `adj.keys()`
unfoldable pub check_from :
    Adjacency → List NodeRef → Colors → Result (Fault InvokeCycleError) (Unit {0})
check_from adj [] colors = ok tt
check_from adj (start ∷ starts) colors = elim (color_of colors start) [
  | some c ↦ check_from adj starts colors
  | none ↦ dfs_find_cycle adj start colors >>= λ (found, colors'). elim found [
    | some nodes ↦ err (error (cycle nodes))
    | none ↦ check_from adj starts colors'
  ]
]

-- check_acyclic, where `order` is the order in which the hash map yields its keys
unfoldable pub check_acyclic :
    (List NodeRef → List NodeRef)
    → List InvokeEdge
    → List InvokeEdge
    → Result (Fault InvokeCycleError) (Unit {0})
check_acyclic order existing new_edges =
    let adj = fill (existing ++ new_edges) [] in check_from adj (order (map (λ e. e.0) adj)) []
