-- ===== src/Tools/Knowledge/Graph.antt =====
-- The graph of pkg/tools/knowledge_graph.go, its file, and how the actions read and save it.
use chango_assistant.Base.{
  Bool, List, Option, Text, [], any, codes, if◌then◌else◌, inl, inr, none, some, text_eq, ◌&&◌,
  ◌++◌, ◌||◌, ◌∷◌, ◌⊎◌,
}
use chango_assistant.Providers.Types.{Value}
use chango_assistant.Tools.Result.{ToolResult, error_result, silent_result}

-- `KnowledgeNode`; the properties in the order in which the map is read.
pub record KnowledgeNode : Type 0 where
  pub id : Text
  pub node_type : Text
  pub name : Text
  pub properties : List (Text × Text)

-- `KnowledgeEdge`; the weight by its text.
pub record KnowledgeEdge : Type 0 where
  pub from : Text
  pub to : Text
  pub relation : Text
  pub weight : Text
  pub source : Text

pub record KnowledgeGraph : Type 0 where
  pub nodes : List KnowledgeNode
  pub edges : List KnowledgeEdge

-- The file as the next read finds it; `unreadable` and `malformed` with the error.
pub data GraphFile : Type 0 where
  missing : GraphFile
  unreadable malformed : Text → GraphFile
  holds : KnowledgeGraph → GraphFile

-- What one call meets: how Go prints a value (`%v`), a weight with two decimals and a weight below 1
-- in per cent, the change of case, the order in which a map of groups is read, and the error of a
-- write or a rename that fails.
pub record GraphEnv : Type 0 where
  pub show_value : Value → Text
  pub two_decimals : Text → Text
  pub percent : Text → Option Text
  pub lower : Text → Text
  pub upper : Text → Text
  pub fields : Text → List Text
  pub group_order : List Text → List Text
  pub fault : Option Text

-- `load`.
unfoldable pub load : GraphFile → Text ⊎ KnowledgeGraph
load missing = inr (record { nodes = []; edges = [] })
load (unreadable e) = inl e
load (malformed e) = inl e
load (holds g) = inr g

-- `save`: the graph is written beside the file and renamed, so that a fault leaves the file.
unfoldable pub save : GraphEnv → KnowledgeGraph → GraphFile → GraphFile × Option Text
save env g file = elim env.fault [ none ↦ (holds g, none) | some e ↦ (file, some e) ]

-- An action on the graph of the file.
unfoldable pub with_graph :
    GraphFile → (KnowledgeGraph → ToolResult × GraphFile) → ToolResult × GraphFile
unfolding load error_result
with_graph file act = elim (load file) [
  | inl e ↦ (error_result (codes "Failed to load graph: " ++ e), file)
  | inr g ↦ act g
]

-- The answer after a save.
unfoldable pub saved : GraphEnv → KnowledgeGraph → GraphFile → Text → ToolResult × GraphFile
unfolding save error_result silent_result
saved env g file answer =
    let (file', err) = save env g file in
    (
      elim err [
        | none ↦ silent_result answer
        | some e ↦ error_result (codes "Failed to save: " ++ e)
      ],
      file',
    )

-- The loops over `g.Nodes` that look for an identifier.
unfoldable pub has_node : Text → List KnowledgeNode → Bool
unfolding text_eq
has_node id nodes = any (λ n. text_eq n.id id) nodes

unfoldable pub find_node : Text → List KnowledgeNode → Option KnowledgeNode
unfolding text_eq
find_node id [] = none
find_node id (n ∷ ns) = if text_eq n.id id then some n else find_node id ns

-- `e.From == from && e.To == to && e.Relation == relation`.
unfoldable pub is_edge : Text → Text → Text → KnowledgeEdge → Bool
unfolding text_eq
is_edge from to relation e = text_eq e.from from && (text_eq e.to to && text_eq e.relation relation)

unfoldable pub has_edge : Text → Text → Text → List KnowledgeEdge → Bool
unfolding is_edge
has_edge from to relation edges = any (is_edge from to relation) edges

-- `e.From == id || e.To == id`.
unfoldable pub touches : Text → KnowledgeEdge → Bool
unfolding text_eq
touches id e = text_eq e.from id || text_eq e.to id
