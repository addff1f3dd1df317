-- ===== src/Tools/Knowledge/Shortest.antt =====
-- The search of `findPath` of pkg/tools/knowledge_graph.go ends with a shortest path, or there is none.
use chango_assistant.Base.{
  All-mono, Bool, Bool-cases, List, Text, [], arith, false, if_false, inl, inr, length,
  length-append, refl, subst, suc, sym, text_eq, text_eq_refl, text_eq→eq, true, zero, ℕ, ◌*◌, ◌∙◌,
  ◌∷◌, ◌≡◌, ◌≤◌,
}
use chango_assistant.Tools.Knowledge.Graph.{KnowledgeEdge}
use chango_assistant.Tools.Knowledge.Marks.{Grows, pending, scan-Grows, scan-seen, scan_rule}
use chango_assistant.Tools.Knowledge.Measure.{begin-work, ends, expand-work, work}
use chango_assistant.Tools.Knowledge.Neighbours.{adjacent-Joins, adjacent_all}
use chango_assistant.Tools.Knowledge.Rounds.{
  Closed, Hops, Inv, IsBest, Near, first_of_level, offer-Inv,
}
use chango_assistant.Tools.Knowledge.Search.{
  BfsState, Joins, Outcome, Search, Walk, adjacent, begin, exhausted, expand, found, loop, offer,
  onward, out_of_fuel, scan, search_path, seen, start,
}

module _ (edges : List KnowledgeEdge) (from to : Text) where
  -- What the search should answer.
  abbrev pub Answers : Outcome → Type 0
  Answers (found st) = (st.node_id ≡ to) × IsBest edges from st
  Answers exhausted = (path labels : List Text) → Walk edges from to path labels → ⊥
  Answers out_of_fuel = ⊥

  expand-Inv :
      (m : ℕ) (current : BfsState) (rest : List BfsState) (s : Search)
      → Hops m current
      → IsBest edges from current
      → Inv edges from m (record s { queue = rest })
      → Inv edges from m (expand edges to current rest s)
  unfolding expand
  expand-Inv m current rest s h b i =
      scan_rule (Inv edges from m) current (adjacent current.node_id edges)
        (record s { queue = rest })
        (All-mono (λ n. Joins current.node_id n.0 n.1 edges)
          (λ n. (t : Search) → Inv edges from m t → Inv edges from m (offer current n.0 n.1 t))
          (adjacent current.node_id edges)
          (λ n j t k. offer-Inv edges from m current n.0 n.1 t h b j k)
          (adjacent-Joins current.node_id edges))
        i

  expand-Closed :
      (current : BfsState) (rest : List BfsState) (visited : List Text)
      → text_eq current.node_id to ≡ false
      → Closed edges to (record { visited = visited; queue = current ∷ rest })
      → Closed edges to
          (expand edges to current rest (record { visited = visited; queue = current ∷ rest }))
  unfolding expand
  expand-Closed current rest visited ne c v h =
      let s : Search = record { visited = visited; queue = rest } in
      let t : Search = scan current (adjacent current.node_id edges) s in
      let grows : Grows s t = scan-Grows current (adjacent current.node_id edges) s in
      elim (Bool-cases (seen v visited)) [
        | inr new ↦ inl (grows.fresh v new h)
        | inl old ↦ elim (c v old) [
          | inr (other, all) ↦ inr (other, λ b relation j. grows.marks b (all b relation j))
          | inl waits ↦ elim (Bool-cases (text_eq current.node_id v)) [
            | inr e ↦ inl (
                grows.waits v
                  (sym (if_false (text_eq current.node_id v) true (pending v rest) e) ∙ waits))
            | inl e ↦
                let same : current.node_id ≡ v = text_eq→eq current.node_id v e in
                inr (
                  subst (λ k. text_eq k to ≡ false) same ne,
                  λ b relation j.
                      adjacent_all (λ k. seen k t.visited ≡ true) current.node_id b relation edges
                        (subst (λ k. Joins k b relation edges) (sym same) j)
                        (scan-seen current (adjacent current.node_id edges) s),
                )
          ]
        ]
      ]

  nothing_left :
      (visited : List Text)
      → seen from visited ≡ true
      → Closed edges to (record { visited = visited; queue = [] })
      → (path labels : List Text) → (v : Text) → Walk edges from v path labels
      → seen v visited ≡ true
  nothing_left visited h c path labels v start = h
  nothing_left visited h c path labels v (onward {a = u} {relation} {path = p} {labels = ls} w j) =
      elim (c u (nothing_left visited h c p ls u w)) [
        | inl waits ↦ absurd (cc)
        | inr (_, all) ↦ all v relation j
      ]

  no_walk :
      (visited : List Text)
      → seen from visited ≡ true
      → Closed edges to (record { visited = visited; queue = [] })
      → (path labels : List Text) → Walk edges from to path labels
      → ⊥
  no_walk visited h c path labels w = elim (c to (nothing_left visited h c path labels to w)) [
    | inl waits ↦ cc
    | inr (other, _) ↦ cc (other, text_eq_refl to)
  ]

  by_test :
      (b : Bool) (st : BfsState) (o : Outcome)
      → (b ≡ true → Answers (found st))
      → (b ≡ false → Answers o)
      → Answers (elim b [ true ↦ found st | false ↦ o ])
  by_test true st o f g = f refl
  by_test false st o f g = g refl

  -- The loop has fuel for the work that is left.
  loop-Answers :
      (fuel m : ℕ) (visited : List Text) (queue : List BfsState)
      → work (ends edges) (record { visited = visited; queue = queue }) ≤ fuel
      → Inv edges from m (record { visited = visited; queue = queue })
      → Closed edges to (record { visited = visited; queue = queue })
      → Answers (loop edges to fuel (record { visited = visited; queue = queue }))
  unfolding loop
  loop-Answers zero m visited [] w i c =
      no_walk visited (i.near from (from ∷ []) [] start (omega arith)) c
  loop-Answers (suc fuel) m visited [] w i c =
      no_walk visited (i.near from (from ∷ []) [] start (omega arith)) c
  loop-Answers zero m visited (current ∷ rest) w i c = absurd (omega arith)
  loop-Answers (suc fuel) m visited (current ∷ rest) w i c =
      let s : Search = record { visited = visited; queue = current ∷ rest } in
      let t : Search = expand edges to current rest s in
      let (n, (h, (b, k))) = first_of_level edges from to m current rest visited i c in
      by_test (text_eq current.node_id to) current (loop edges to fuel t)
        (λ e. (text_eq→eq current.node_id to e, b))
        (λ e.
          loop-Answers fuel n t.visited t.queue
            (omega (arith, expand-work edges to current rest s refl))
            (expand-Inv n current rest s h b k) (expand-Closed current rest visited e c))

  begin-Near : Near edges from 0 (from ∷ [])
  unfolding seen
  begin-Near v path labels start h = ground (arith, text_eq_refl from)
  begin-Near v path labels (onward {relation} {labels = ls} w j) h =
      absurd (omega (arith, h, length-append ls (relation ∷ [])))

  begin-Inv : Inv edges from 0 (begin from)
  unfolding begin
  begin-Inv = record {
    levels = inl (refl, tt);
    best = ((start, λ path labels w. omega arith), tt);
    near = begin-Near;
  }

  begin-Closed : Closed edges to (begin from)
  unfolding begin seen
  begin-Closed v h = inl h

  -- The search of findPath returns for every list of edges and both ends. If it finds a state, the state
  -- stands for a walk along the edges, either way, from the one node to the other, and no such walk
  -- has fewer edges. If it ends with an empty queue, there is no such walk.
  pub search_path-Answers : Answers (search_path edges from to)
  unfolding search_path
  search_path-Answers =
      loop-Answers (suc (2 * length edges)) 0 (begin from).visited (begin from).queue
        (begin-work edges from) begin-Inv begin-Closed
