-- ===== src/Tools/Knowledge/Calls.antt =====
-- What the calls of the knowledge graph tool keep.
use chango_assistant.Base.{
  Bool-cases, Option-cases, Text, [], any, codes, if_both, inl, inr, keep, not, switch_all, text_eq,
  ◌++◌, ◌∷◌,
}
use chango_assistant.Providers.Types.{Fields}
use chango_assistant.Tools.Args.{find_arg, text_arg}
use chango_assistant.Tools.Knowledge.Changes.{
  add_edge, add_node, drop_edge, drop_node, given_properties, properties_or, put_edge, put_node,
  remove_edge, remove_node, removes, set_edge, set_node, weight_of,
}
use chango_assistant.Tools.Knowledge.Edges.{add_edge-IsValid, set_edge-IsValid}
use chango_assistant.Tools.Knowledge.Graph.{
  GraphEnv, GraphFile, KnowledgeEdge, KnowledgeGraph, KnowledgeNode, has_edge, has_node, holds,
  load, malformed, missing, save, saved, touches, unreadable, with_graph,
}
use chango_assistant.Tools.Knowledge.Paths.{find_path, path_in}
use chango_assistant.Tools.Knowledge.Sound.{
  IsValid, add_node-IsValid, drop_edges-IsValid, drop_node-IsValid, set_node-IsValid,
}
use chango_assistant.Tools.Knowledge.Store.{actions, execute, unknown_action}
use chango_assistant.Tools.Knowledge.Views.{
  picture, query_in, query_node, search_for, search_in, visualize,
}
use chango_assistant.Tools.Result.{ToolResult}

-- The graph that the next read finds, where there is one, is valid.
abbrev pub IsValidFile : GraphFile → Type 0
IsValidFile missing = Unit
IsValidFile (unreadable e) = Unit
IsValidFile (malformed e) = Unit
IsValidFile (holds g) = IsValid g

module _ (env : GraphEnv) (args : Fields) where
  abbrev KeepsValid : ToolResult × GraphFile → Type 0
  KeepsValid x = IsValidFile x.1

  saved-IsValid :
      (g : KnowledgeGraph) (file : GraphFile)
      → IsValid g
      → IsValidFile file
      → IsValidFile (save env g file).0
  unfolding save
  saved-IsValid g file v w = elim (Option-cases env.fault) [ inl e ↦ rw e v | inr (f, e) ↦ rw e w ]

  with_graph-IsValid :
      (file : GraphFile) (act : KnowledgeGraph → ToolResult × GraphFile)
      → ((g : KnowledgeGraph) → IsValid g → KeepsValid (act g))
      → IsValidFile file
      → KeepsValid (with_graph file act)
  unfolding with_graph load
  with_graph-IsValid missing act f v =
      f (record { nodes = []; edges = [] }) (record { ids = tt; ends = tt; once = tt })
  with_graph-IsValid (unreadable e) act f v = tt
  with_graph-IsValid (malformed e) act f v = tt
  with_graph-IsValid (holds g) act f v = f g v

  put_node-IsValid :
      (file : GraphFile) (g : KnowledgeGraph)
      → IsValidFile file
      → IsValid g
      → KeepsValid (put_node env args file g)
  unfolding put_node saved
  put_node-IsValid file g w v =
      let id = text_arg (codes "id") args in
      let node_type = text_arg (codes "type") args in
      let name = text_arg (codes "name") args in
      let given = given_properties env args in
      let n : KnowledgeNode = record {
        id = id;
        node_type = node_type;
        name = name;
        properties = properties_or given [];
      } in
      elim (Bool-cases (has_node id g.nodes)) [
        | inl e ↦ rw e (
            saved-IsValid (record g { nodes = set_node id node_type name given g.nodes }) file
              (set_node-IsValid id node_type name given g v) w)
        | inr e ↦ rw e (
            saved-IsValid (record g { nodes = g.nodes ++ n ∷ [] }) file (add_node-IsValid g n e v)
              w)
      ]

  put_edge-IsValid :
      (file : GraphFile) (g : KnowledgeGraph)
      → IsValidFile file
      → IsValid g
      → KeepsValid (put_edge env args file g)
  unfolding put_edge saved
  put_edge-IsValid file g w v =
      let from = text_arg (codes "from") args in
      let to = text_arg (codes "to") args in
      let relation = text_arg (codes "relation") args in
      let weight = weight_of (find_arg (codes "weight") args) in
      let source = text_arg (codes "source") args in
      let e : KnowledgeEdge = record {
        from = from;
        to = to;
        relation = relation;
        weight = weight;
        source = source;
      } in
      elim (Bool-cases (has_node from g.nodes)) [
        | inr absent ↦ rw absent w
        | inl f ↦ elim (Bool-cases (has_node to g.nodes)) [
          | inr absent ↦ rw (f, absent) w
          | inl t ↦ elim (Bool-cases (has_edge from to relation g.edges)) [
            | inl old ↦
                rw (f, t, old)
                  (saved-IsValid
                    (record g { edges = set_edge from to relation weight source g.edges }) file
                    (set_edge-IsValid from to relation weight source g v) w)
            | inr new ↦
                rw (f, t, new)
                  (saved-IsValid (record g { edges = g.edges ++ e ∷ [] }) file
                    (add_edge-IsValid g e f t new v) w)
          ]
        ]
      ]

  drop_node_call-IsValid :
      (id : Text) (file : GraphFile) (g : KnowledgeGraph)
      → IsValidFile file
      → IsValid g
      → KeepsValid (drop_node env id file g)
  unfolding drop_node saved
  drop_node_call-IsValid id file g w v = elim (Bool-cases (has_node id g.nodes)) [
    | inr absent ↦ rw absent w
    | inl e ↦ rw e (
        saved-IsValid
          (record {
            nodes = keep (λ n. not (text_eq n.id id)) g.nodes;
            edges = keep (λ e. not (touches id e)) g.edges;
          })
          file (drop_node-IsValid id g v) w)
  ]

  drop_edge-IsValid :
      (from to relation : Text) (file : GraphFile) (g : KnowledgeGraph)
      → IsValidFile file
      → IsValid g
      → KeepsValid (drop_edge env from to relation file g)
  unfolding drop_edge saved
  drop_edge-IsValid from to relation file g w v =
      elim (Bool-cases (any (removes from to relation) g.edges)) [
        | inr absent ↦ rw absent w
        | inl e ↦ rw e (
            saved-IsValid
              (record g { edges = keep (λ e. not (removes from to relation e)) g.edges }) file
              (drop_edges-IsValid (λ e. not (removes from to relation e)) g v) w)
      ]

  reads-IsValid :
      (file : GraphFile) (f : KnowledgeGraph → ToolResult)
      → IsValidFile file
      → KeepsValid (with_graph file (λ g. (f g, file)))
  reads-IsValid file f v = with_graph-IsValid file (λ g. (f g, file)) (λ g k. v) v

module _ (env : GraphEnv) (args : Fields) (file : GraphFile) (v : IsValidFile file) where
  add_node_call : KeepsValid env args (add_node env args file)
  unfolding add_node
  add_node_call = if_both (KeepsValid env args) _ _ _ v (
      with_graph-IsValid env args file (put_node env args file)
        (λ g k. put_node-IsValid env args file g v k) v)

  add_edge_call : KeepsValid env args (add_edge env args file)
  unfolding add_edge
  add_edge_call = if_both (KeepsValid env args) _ _ _ v (
      with_graph-IsValid env args file (put_edge env args file)
        (λ g k. put_edge-IsValid env args file g v k) v)

  remove_node_call : KeepsValid env args (remove_node env args file)
  unfolding remove_node
  remove_node_call =
      let id = text_arg (codes "id") args in
      if_both (KeepsValid env args) _ _ _ v (
        with_graph-IsValid env args file (drop_node env id file)
          (λ g k. drop_node_call-IsValid env args id file g v k) v)

  remove_edge_call : KeepsValid env args (remove_edge env args file)
  unfolding remove_edge
  remove_edge_call =
      let from = text_arg (codes "from") args in
      let to = text_arg (codes "to") args in
      let relation = text_arg (codes "relation") args in
      if_both (KeepsValid env args) _ _ _ v (
        with_graph-IsValid env args file (drop_edge env from to relation file)
          (λ g k. drop_edge-IsValid env args from to relation file g v k) v)

  query_call : KeepsValid env args (query_node env args file)
  unfolding query_node
  query_call =
      if_both (KeepsValid env args) _ _ _ v
        (reads-IsValid env args file (query_in env (text_arg (codes "id") args)) v)

  search_call : KeepsValid env args (search_for env args file)
  unfolding search_for
  search_call =
      if_both (KeepsValid env args) _ _ _ v
        (reads-IsValid env args file (search_in env (text_arg (codes "query") args)) v)

  path_call : KeepsValid env args (find_path args file)
  unfolding find_path
  path_call = if_both (KeepsValid env args) _ _ _ v (
      reads-IsValid env args file
        (path_in (text_arg (codes "from") args) (text_arg (codes "to") args)) v)

  visualize_call : KeepsValid env args (visualize env file)
  unfolding visualize
  visualize_call = reads-IsValid env args file (picture env) v

  -- A call of the knowledge graph tool, whatever its action and its arguments and whether or not the
  -- graph can be read and saved, leaves a valid graph valid: no two nodes share an identifier, both
  -- ends of an edge are nodes of the graph, and no two edges share both ends and the relation.
  pub execute-IsValid : IsValidFile (execute env args file).1
  unfolding execute actions
  execute-IsValid =
      switch_all (KeepsValid env args) (text_arg (codes "action") args) (actions env args file)
        (unknown_action args, file)
        (
          add_node_call,
          (
            add_edge_call,
            (
              query_call,
              (
                search_call,
                (path_call, (visualize_call, (remove_node_call, (remove_edge_call, tt)))),
              ),
            ),
          ),
        )
        v
