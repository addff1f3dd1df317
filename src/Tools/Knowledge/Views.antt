-- ===== src/Tools/Knowledge/Views.antt =====
-- The actions of pkg/tools/knowledge_graph.go that only read the graph, and what it offers to other code.
use chango_assistant.Base.{
  Bool, List, Option, Text, [], any, codes, contains, decimal, if◌then◌else◌, is_nil, keep, length,
  none, not, some, text_eq, ◌&&◌, ◌++◌, ◌||◌, ◌∷◌,
}
use chango_assistant.Providers.Types.{Fields}
use chango_assistant.Tools.Args.{text_arg}
use chango_assistant.Tools.Knowledge.Graph.{
  GraphEnv, GraphFile, KnowledgeEdge, KnowledgeGraph, KnowledgeNode, find_node, touches, with_graph,
}
use chango_assistant.Tools.Result.{ToolResult, error_result, silent_result}

abbrev line_end : Text
line_end = 10 ∷ []

abbrev lines_of : {A : Type 0} → (A → Text) → List A → Text
lines_of f [] = []
lines_of f (x ∷ xs) = f x ++ lines_of f xs

-- `if len(xs) > 0`.
abbrev unless_empty : {A : Type 0} → List A → Text → Text
unless_empty [] t = []
unless_empty (x ∷ xs) t = t

-- `neighborIDs[id']` after the loop over the edges.
unfoldable pub is_neighbour : Text → List KnowledgeEdge → Text → Bool
unfolding touches text_eq
is_neighbour id edges other =
    any (λ e. touches id e && text_eq (if text_eq e.from id then e.to else e.from) other) edges

unfoldable connection : GraphEnv → Text → KnowledgeEdge → Text
unfolding text_eq
connection env id e =
    (if text_eq e.from id then codes "  -> " ++ e.to else codes "  <- " ++ e.from)
    ++ codes " ["
    ++ e.relation
    ++ codes "] (weight: "
    ++ env.two_decimals e.weight
    ++ codes ")"
    ++ line_end

-- The text that `queryNode` builds about a node.
unfoldable pub about : GraphEnv → KnowledgeNode → List KnowledgeEdge → List KnowledgeNode → Text
unfolding connection decimal
about env node edges neighbours =
    codes "Node: "
    ++ node.name
    ++ codes " ("
    ++ node.id
    ++ codes ")"
    ++ line_end
    ++ codes "Type: "
    ++ node.node_type
    ++ line_end
    ++ unless_empty node.properties (
        codes "Properties:"
        ++ line_end
        ++ lines_of (λ p. codes "  " ++ p.0 ++ codes ": " ++ p.1 ++ line_end) node.properties)
    ++ unless_empty edges (
        line_end
        ++ codes "Connections ("
        ++ decimal (length edges)
        ++ codes "):"
        ++ line_end
        ++ lines_of (connection env node.id) edges)
    ++ unless_empty neighbours (
        line_end
        ++ codes "Neighbors ("
        ++ decimal (length neighbours)
        ++ codes "):"
        ++ line_end
        ++ lines_of
            (λ n.
              codes "  " ++ n.name ++ codes " (" ++ n.id ++ codes ") - " ++ n.node_type ++ line_end)
            neighbours)

-- `queryNode` on the graph that was read.
unfoldable pub query_in : GraphEnv → Text → KnowledgeGraph → ToolResult
unfolding find_node touches is_neighbour about silent_result error_result
query_in env id g = elim (find_node id g.nodes) [
  | none ↦ error_result (codes "Node '" ++ id ++ codes "' not found")
  | some node ↦ silent_result (
      about env node (keep (touches id) g.edges) (keep (λ n. is_neighbour id g.edges n.id) g.nodes))
]

unfoldable pub query_node : GraphEnv → Fields → GraphFile → ToolResult × GraphFile
unfolding with_graph query_in text_arg text_eq error_result
query_node env args file =
    let id = text_arg (codes "id") args in
    if text_eq id []
    then (error_result (codes "query requires id"), file)
    else with_graph file (λ g. (query_in env id g, file))

-- The tests of `searchNodes`.
unfoldable pub matches : GraphEnv → Text → KnowledgeNode → Bool
unfolding contains
matches env query n =
    contains (env.lower n.id) query
    || (contains (env.lower n.name) query
        || (contains (env.lower n.node_type) query
            || any (λ p. contains (env.lower p.1) query) n.properties))

-- `searchNodes` on the graph that was read.
unfoldable pub search_in : GraphEnv → Text → KnowledgeGraph → ToolResult
unfolding matches decimal silent_result
search_in env query g =
    let hits = keep (matches env (env.lower query)) g.nodes in
    if is_nil hits
    then silent_result (codes "No nodes found matching '" ++ query ++ codes "'")
    else silent_result (
        codes "Found "
        ++ decimal (length hits)
        ++ codes " nodes matching '"
        ++ query
        ++ codes "':"
        ++ line_end
        ++ lines_of
            (λ n.
              codes "  ["
              ++ n.node_type
              ++ codes "] "
              ++ n.name
              ++ codes " ("
              ++ n.id
              ++ codes ")"
              ++ line_end)
            hits)

unfoldable pub search_for : GraphEnv → Fields → GraphFile → ToolResult × GraphFile
unfolding with_graph search_in text_arg text_eq error_result
search_for env args file =
    let query = text_arg (codes "query") args in
    if text_eq query []
    then (error_result (codes "search requires query"), file)
    else with_graph file (λ g. (search_in env query g, file))

-- The types of the nodes, each once, as `byType` collects them.
unfoldable pub node_types : List KnowledgeNode → List Text
unfolding text_eq
node_types [] = []
node_types (n ∷ ns) = n.node_type ∷ keep (λ t. not (text_eq n.node_type t)) (node_types ns)

abbrev join_properties : List (Text × Text) → Text
join_properties [] = []
join_properties ((k, v) ∷ []) = k ++ codes "=" ++ v
join_properties ((k, v) ∷ p ∷ ps) = k ++ codes "=" ++ v ++ codes ", " ++ join_properties (p ∷ ps)

-- One group of `visualize`.
unfoldable pub group : GraphEnv → List KnowledgeNode → Text → Text
unfolding text_eq decimal
group env nodes node_type =
    let members = keep (λ n. text_eq n.node_type node_type) nodes in
    codes "["
    ++ env.upper node_type
    ++ codes "] ("
    ++ decimal (length members)
    ++ codes ")"
    ++ line_end
    ++ lines_of
        (λ n.
          codes "  - "
          ++ n.name
          ++ codes " ("
          ++ n.id
          ++ codes ")"
          ++ unless_empty n.properties (codes " {" ++ join_properties n.properties ++ codes "}")
          ++ line_end)
        members
    ++ line_end

abbrev weight_text : Option Text → Text
weight_text none = []
weight_text (some p) = codes " (" ++ p ++ codes "%)"

-- `visualize` on the graph that was read.
unfoldable pub picture : GraphEnv → KnowledgeGraph → ToolResult
unfolding group node_types decimal silent_result
picture env g =
    if is_nil g.nodes
    then silent_result (codes "Knowledge graph is empty. Use add_node to start building it.")
    else silent_result (
        codes "Knowledge Graph: "
        ++ decimal (length g.nodes)
        ++ codes " nodes, "
        ++ decimal (length g.edges)
        ++ codes " edges"
        ++ line_end
        ++ codes "==="
        ++ line_end
        ++ line_end
        ++ lines_of (group env g.nodes) (env.group_order (node_types g.nodes))
        ++ unless_empty g.edges (
            codes "Relationships:"
            ++ line_end
            ++ lines_of
                (λ e.
                  codes "  "
                  ++ e.from
                  ++ codes " -["
                  ++ e.relation
                  ++ codes "]-> "
                  ++ e.to
                  ++ weight_text (env.percent e.weight)
                  ++ line_end)
                g.edges))

unfoldable pub visualize : GraphEnv → GraphFile → ToolResult × GraphFile
unfolding with_graph picture
visualize env file = with_graph file (λ g. (picture env g, file))
