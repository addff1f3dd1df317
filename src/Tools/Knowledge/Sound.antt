-- ===== src/Tools/Knowledge/Sound.antt =====
-- Graphs of pkg/tools/knowledge_graph.go in which an identifier names one node, edges end at nodes of
-- the graph, and an edge stands once; what the changes of the tool do to them.
use chango_assistant.Base.{
  All, All-keep, All-mono, Bool, List, Option, Text, [], any, arith, false, if_both, keep, not,
  refl, text_eq, text_eq_comm, text_eq_iff, true, ◌++◌, ◌||◌, ◌∙◌, ◌∷◌, ◌≡◌,
}
use chango_assistant.Tools.Knowledge.Changes.{properties_or, set_node}
use chango_assistant.Tools.Knowledge.Graph.{
  KnowledgeEdge, KnowledgeGraph, KnowledgeNode, has_edge, has_node, is_edge, touches,
}

abbrev pub UniqueIds : List KnowledgeNode → Type 0
UniqueIds [] = Unit
UniqueIds (n ∷ ns) = (has_node n.id ns ≡ false) × UniqueIds ns

abbrev pub UniqueEdges : List KnowledgeEdge → Type 0
UniqueEdges [] = Unit
UniqueEdges (e ∷ es) = (has_edge e.from e.to e.relation es ≡ false) × UniqueEdges es

abbrev pub Ends : List KnowledgeNode → KnowledgeEdge → Type 0
Ends nodes e = (has_node e.from nodes ≡ true) × (has_node e.to nodes ≡ true)

pub record IsValid (g : KnowledgeGraph) : Type 0 where
  pub ids : UniqueIds g.nodes
  pub ends : All (Ends g.nodes) g.edges
  pub once : UniqueEdges g.edges

any-append : {A : Type 0} (p : A → Bool) (xs ys : List A) → any p (xs ++ ys) ≡ any p xs || any p ys
any-append p [] ys = ground arith
any-append p (x ∷ xs) ys = ground (arith, any-append p xs ys)

any-keep :
    {A : Type 0} (p q : A → Bool) (xs : List A) → any p xs ≡ false → any p (keep q xs) ≡ false
any-keep p q [] h = h
any-keep p q (x ∷ xs) h = ground (arith, any-keep p q xs)

-- Nodes added, changed and removed.
has_node-snoc :
    (j : Text) (nodes : List KnowledgeNode) (n : KnowledgeNode)
    → has_node j nodes ≡ true
    → has_node j (nodes ++ n ∷ []) ≡ true
unfolding has_node
has_node-snoc j nodes n h = rw any-append (ground arith)

UniqueIds-snoc :
    (nodes : List KnowledgeNode) (n : KnowledgeNode)
    → has_node n.id nodes ≡ false
    → UniqueIds nodes
    → UniqueIds (nodes ++ n ∷ [])
unfolding has_node
UniqueIds-snoc [] n h u = (refl, tt)
UniqueIds-snoc (m ∷ ms) n h u = (
  ground (arith, any-append (λ k. text_eq k.id m.id) ms (n ∷ []), text_eq_comm m.id n.id),
  UniqueIds-snoc ms n (ground arith) u.1,
)

pub add_node-IsValid :
    (g : KnowledgeGraph) (n : KnowledgeNode)
    → has_node n.id g.nodes ≡ false
    → IsValid g
    → IsValid (record g { nodes = g.nodes ++ n ∷ [] })
add_node-IsValid g n h v = record {
  ids = UniqueIds-snoc g.nodes n h v.ids;
  ends =
      All-mono (Ends g.nodes) (Ends (g.nodes ++ n ∷ [])) g.edges
        (λ e k. (has_node-snoc e.from g.nodes n k.0, has_node-snoc e.to g.nodes n k.1)) v.ends;
  once = v.once;
}

module _ (id node_type name : Text) (given : Option (List (Text × Text))) where
  has_node-set_node :
      (j : Text) (nodes : List KnowledgeNode)
      → has_node j (set_node id node_type name given nodes) ≡ has_node j nodes
  unfolding has_node set_node
  has_node-set_node j [] = refl
  has_node-set_node j (n ∷ ns) = ground (arith, has_node-set_node j ns)

  UniqueIds-set_node :
      (nodes : List KnowledgeNode)
      → UniqueIds nodes
      → UniqueIds (set_node id node_type name given nodes)
  unfolding set_node
  UniqueIds-set_node [] u = tt
  UniqueIds-set_node (n ∷ ns) u =
      if_both UniqueIds (text_eq n.id id)
        (record n {
          node_type = node_type;
          name = name;
          properties = properties_or given n.properties;
        }
          ∷ ns)
        (n ∷ set_node id node_type name given ns) (u.0, u.1)
        (has_node-set_node n.id ns ∙ u.0, UniqueIds-set_node ns u.1)

  pub set_node-IsValid :
      (g : KnowledgeGraph)
      → IsValid g
      → IsValid (record g { nodes = set_node id node_type name given g.nodes })
  set_node-IsValid g v = record {
    ids = UniqueIds-set_node g.nodes v.ids;
    ends =
        All-mono (Ends g.nodes) (Ends (set_node id node_type name given g.nodes)) g.edges
          (λ e k. (has_node-set_node e.from g.nodes ∙ k.0, has_node-set_node e.to g.nodes ∙ k.1))
          v.ends;
    once = v.once;
  }

UniqueIds-keep :
    (p : KnowledgeNode → Bool) (nodes : List KnowledgeNode)
    → UniqueIds nodes
    → UniqueIds (keep p nodes)
unfolding has_node
UniqueIds-keep p [] u = tt
UniqueIds-keep p (n ∷ ns) u =
    if_both UniqueIds (p n) (n ∷ keep p ns) (keep p ns)
      (any-keep (λ k. text_eq k.id n.id) p ns u.0, UniqueIds-keep p ns u.1)
      (UniqueIds-keep p ns u.1)

UniqueEdges-keep :
    (p : KnowledgeEdge → Bool) (edges : List KnowledgeEdge)
    → UniqueEdges edges
    → UniqueEdges (keep p edges)
unfolding has_edge
UniqueEdges-keep p [] u = tt
UniqueEdges-keep p (e ∷ es) u =
    if_both UniqueEdges (p e) (e ∷ keep p es) (keep p es)
      (any-keep (is_edge e.from e.to e.relation) p es u.0, UniqueEdges-keep p es u.1)
      (UniqueEdges-keep p es u.1)

has_node-others :
    (id j : Text) (nodes : List KnowledgeNode)
    → text_eq j id ≡ false
    → has_node j nodes ≡ true
    → has_node j (keep (λ n. not (text_eq n.id id)) nodes) ≡ true
unfolding has_node
has_node-others id j [] e h = h
has_node-others id j (n ∷ ns) e h = ground (arith, text_eq_iff n.id j, has_node-others id j ns)

Ends-others :
    (id : Text) (nodes : List KnowledgeNode) (edges : List KnowledgeEdge)
    → All (Ends nodes) edges
    → All (Ends (keep (λ n. not (text_eq n.id id)) nodes)) (keep (λ e. not (touches id e)) edges)
unfolding touches
Ends-others id nodes [] a = tt
Ends-others id nodes (e ∷ es) a = ground (
  arith,
  has_node-others id e.from nodes,
  has_node-others id e.to nodes,
  Ends-others id nodes es a.1,
  a.0,
)

pub drop_node-IsValid :
    (id : Text) (g : KnowledgeGraph)
    → IsValid g
    → IsValid (record {
      nodes = keep (λ n. not (text_eq n.id id)) g.nodes;
      edges = keep (λ e. not (touches id e)) g.edges;
    })
drop_node-IsValid id g v = record {
  ids = UniqueIds-keep (λ n. not (text_eq n.id id)) g.nodes v.ids;
  ends = Ends-others id g.nodes g.edges v.ends;
  once = UniqueEdges-keep (λ e. not (touches id e)) g.edges v.once;
}

pub drop_edges-IsValid :
    (p : KnowledgeEdge → Bool) (g : KnowledgeGraph)
    → IsValid g
    → IsValid (record g { edges = keep p g.edges })
drop_edges-IsValid p g v = record {
  ids = v.ids;
  ends = All-keep (Ends g.nodes) p g.edges v.ends;
  once = UniqueEdges-keep p g.edges v.once;
}
