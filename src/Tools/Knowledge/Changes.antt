-- ===== src/Tools/Knowledge/Changes.antt =====
-- The actions of pkg/tools/knowledge_graph.go that change the graph.
use chango_assistant.Base.{
  Bool, List, Option, Text, [], any, codes, decimal, if◌then◌else◌, keep, length, none, not, some,
  text_eq, ◌&&◌, ◌++◌, ◌||◌, ◌∷◌,
}
use chango_assistant.Providers.Types.{
  Fields, Value, array, boolean, end_fields, field, null, number, object, text,
}
use chango_assistant.Tools.Args.{find_arg, text_arg}
use chango_assistant.Tools.Knowledge.Graph.{
  GraphEnv, GraphFile, KnowledgeEdge, KnowledgeGraph, KnowledgeNode, has_edge, has_node, is_edge,
  saved, touches, with_graph,
}
use chango_assistant.Tools.Result.{ToolResult, error_result}

-- `toStringMap`.
abbrev pub to_string_map : (Value → Text) → Fields → List (Text × Text)
to_string_map show end_fields = []
to_string_map show (field k v rest) = (k, show v) ∷ to_string_map show rest

-- `args["properties"].(map[string]interface{})`.
abbrev pub object_of : Option Value → Option Fields
object_of none = none
object_of (some (object fs)) = some fs
object_of (some null) = none
object_of (some (boolean b)) = none
object_of (some (number n)) = none
object_of (some (text t)) = none
object_of (some (array vs)) = none

abbrev pub given_properties : GraphEnv → Fields → Option (List (Text × Text))
given_properties env args = elim (object_of (find_arg (codes "properties") args)) [
  | none ↦ none
  | some fs ↦ some (to_string_map env.show_value fs)
]

abbrev pub properties_or : Option (List (Text × Text)) → List (Text × Text) → List (Text × Text)
properties_or none old = old
properties_or (some properties) old = properties

-- The fields that `addNode` sets in the first node with the identifier.
unfoldable pub set_node :
    Text → Text → Text → Option (List (Text × Text)) → List KnowledgeNode → List KnowledgeNode
unfolding text_eq
set_node id node_type name given [] = []
set_node id node_type name given (n ∷ ns) =
    if text_eq n.id id
    then record n {
      node_type = node_type;
      name = name;
      properties = properties_or given n.properties;
    }
      ∷ ns
    else n ∷ set_node id node_type name given ns

abbrev pub about_node : Text → Text → Text → Text
about_node id node_type name =
    codes "node '" ++ id ++ codes "' (" ++ node_type ++ codes ": " ++ name ++ codes ")"

-- `addNode` on the graph that was read.
unfoldable pub put_node : GraphEnv → Fields → GraphFile → KnowledgeGraph → ToolResult × GraphFile
unfolding saved has_node set_node text_arg decimal
put_node env args file g =
    let id = text_arg (codes "id") args in
    let node_type = text_arg (codes "type") args in
    let name = text_arg (codes "name") args in
    let given = given_properties env args in
    let nodes' =
      g.nodes
      ++ record { id = id; node_type = node_type; name = name; properties = properties_or given [] }
        ∷ [] in
    if has_node id g.nodes
    then saved env (record g { nodes = set_node id node_type name given g.nodes }) file
        (codes "Updated " ++ about_node id node_type name)
    else saved env (record g { nodes = nodes' }) file
        (codes "Added "
          ++ about_node id node_type name
          ++ codes ". Graph now has "
          ++ decimal (length nodes')
          ++ codes " nodes.")

unfoldable pub add_node : GraphEnv → Fields → GraphFile → ToolResult × GraphFile
unfolding put_node with_graph text_arg text_eq error_result
add_node env args file =
    if text_eq (text_arg (codes "id") args) []
      || (text_eq (text_arg (codes "type") args) [] || text_eq (text_arg (codes "name") args) [])
    then (error_result (codes "add_node requires id, type, and name"), file)
    else with_graph file (put_node env args file)

-- `weight := 1.0`, or the number given.
abbrev pub weight_of : Option Value → Text
weight_of none = codes "1"
weight_of (some (number n)) = n
weight_of (some null) = codes "1"
weight_of (some (boolean b)) = codes "1"
weight_of (some (text t)) = codes "1"
weight_of (some (array vs)) = codes "1"
weight_of (some (object fs)) = codes "1"

-- The fields that `addEdge` sets in the first edge with the same ends and relation.
unfoldable pub set_edge : Text → Text → Text → Text → Text → List KnowledgeEdge → List KnowledgeEdge
unfolding is_edge text_eq
set_edge from to relation weight source [] = []
set_edge from to relation weight source (e ∷ es) =
    if is_edge from to relation e
    then record e { weight = weight; source = if text_eq source [] then e.source else source } ∷ es
    else e ∷ set_edge from to relation weight source es

abbrev pub about_edge : GraphEnv → Text → Text → Text → Text → Text
about_edge env from to relation weight =
    codes "edge "
    ++ from
    ++ codes " -["
    ++ relation
    ++ codes "]-> "
    ++ to
    ++ codes " (weight: "
    ++ env.two_decimals weight
    ++ codes ")"

abbrev pub not_found : Text → Text
not_found id = codes "Node '" ++ id ++ codes "' not found. Add it first with add_node."

-- `addEdge` on the graph that was read.
unfoldable pub put_edge : GraphEnv → Fields → GraphFile → KnowledgeGraph → ToolResult × GraphFile
unfolding saved has_node has_edge set_edge text_arg decimal error_result
put_edge env args file g =
    let from = text_arg (codes "from") args in
    let to = text_arg (codes "to") args in
    let relation = text_arg (codes "relation") args in
    let weight = weight_of (find_arg (codes "weight") args) in
    let source = text_arg (codes "source") args in
    let edges' =
      g.edges
      ++ record { from = from; to = to; relation = relation; weight = weight; source = source }
        ∷ [] in
    if not (has_node from g.nodes)
    then (error_result (not_found from), file)
    else if not (has_node to g.nodes)
    then (error_result (not_found to), file)
    else if has_edge from to relation g.edges
    then saved env (record g { edges = set_edge from to relation weight source g.edges }) file
        (codes "Updated " ++ about_edge env from to relation weight)
    else saved env (record g { edges = edges' }) file
        (codes "Added "
          ++ about_edge env from to relation weight
          ++ codes ". Graph now has "
          ++ decimal (length edges')
          ++ codes " edges.")

unfoldable pub add_edge : GraphEnv → Fields → GraphFile → ToolResult × GraphFile
unfolding put_edge with_graph text_arg text_eq error_result
add_edge env args file =
    if text_eq (text_arg (codes "from") args) []
      || (text_eq (text_arg (codes "to") args) [] || text_eq (text_arg (codes "relation") args) [])
    then (error_result (codes "add_edge requires from, to, and relation"), file)
    else with_graph file (put_edge env args file)

-- `removeNode` on the graph that was read.
unfoldable pub drop_node : GraphEnv → Text → GraphFile → KnowledgeGraph → ToolResult × GraphFile
unfolding saved has_node touches text_eq decimal error_result
drop_node env id file g =
    if has_node id g.nodes
    then saved env
        (record {
          nodes = keep (λ n. not (text_eq n.id id)) g.nodes;
          edges = keep (λ e. not (touches id e)) g.edges;
        })
        file
        (codes "Removed node '"
          ++ id
          ++ codes "' and "
          ++ decimal (length (keep (touches id) g.edges))
          ++ codes " connected edges")
    else (error_result (codes "Node '" ++ id ++ codes "' not found"), file)

unfoldable pub remove_node : GraphEnv → Fields → GraphFile → ToolResult × GraphFile
unfolding drop_node with_graph text_arg text_eq error_result
remove_node env args file =
    let id = text_arg (codes "id") args in
    if text_eq id []
    then (error_result (codes "remove_node requires id"), file)
    else with_graph file (drop_node env id file)

-- The edges that `removeEdge` takes out: those of any relation if none is given.
unfoldable pub removes : Text → Text → Text → KnowledgeEdge → Bool
unfolding text_eq
removes from to relation e =
    text_eq e.from from && (text_eq e.to to && (text_eq relation [] || text_eq e.relation relation))

-- `removeEdge` on the graph that was read.
unfoldable pub drop_edge :
    GraphEnv → Text → Text → Text → GraphFile → KnowledgeGraph → ToolResult × GraphFile
unfolding saved removes error_result
drop_edge env from to relation file g =
    if any (removes from to relation) g.edges
    then saved env (record g { edges = keep (λ e. not (removes from to relation e)) g.edges }) file
        (codes "Removed edge " ++ from ++ codes " -> " ++ to)
    else (
      error_result (codes "Edge from '" ++ from ++ codes "' to '" ++ to ++ codes "' not found"),
      file,
    )

unfoldable pub remove_edge : GraphEnv → Fields → GraphFile → ToolResult × GraphFile
unfolding drop_edge with_graph text_arg text_eq error_result
remove_edge env args file =
    let from = text_arg (codes "from") args in
    let to = text_arg (codes "to") args in
    if text_eq from [] || text_eq to []
    then (error_result (codes "remove_edge requires from and to"), file)
    else with_graph file (drop_edge env from to (text_arg (codes "relation") args) file)
