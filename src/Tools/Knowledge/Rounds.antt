-- ===== src/Tools/Knowledge/Rounds.antt =====
-- The search of `findPath` goes by levels: what its rounds keep.
use chango_assistant.Base.{
  All, All-append, Bool-cases, List, Text, [], arith, false, if_false, inl, inr, leb, leb_false→lt,
  leb→le, length, length-append, subst, suc, sym, text_eq, text_eq→eq, true, ℕ, ◌++◌, ◌∙◌, ◌∷◌, ◌≡◌,
  ◌≤◌, ◌⊎◌,
}
use chango_assistant.Tools.Knowledge.Graph.{KnowledgeEdge}
use chango_assistant.Tools.Knowledge.Marks.{pending}
use chango_assistant.Tools.Knowledge.Search.{
  BfsState, Joins, Search, Walk, extend, offer, onward, seen, start,
}

abbrev pub Hops : ℕ → BfsState → Type 0
Hops m st = length st.labels ≡ m

-- States of `m` steps in front of states of one step more.
abbrev pub Level : ℕ → List BfsState → Type 0
Level m [] = Unit
Level m (st ∷ rest) = (Hops m st × Level m rest) ⊎ All (Hops (suc m)) (st ∷ rest)

Level-snoc :
    (m : ℕ) (queue : List BfsState) (st : BfsState)
    → Hops (suc m) st
    → Level m queue
    → Level m (queue ++ st ∷ [])
Level-snoc m [] st h l = inr (h, tt)
Level-snoc m (x ∷ xs) st h (inl (e, l)) = inl (e, Level-snoc m xs st h l)
Level-snoc m (x ∷ xs) st h (inr a) = inr (All-append (Hops (suc m)) (x ∷ xs) (st ∷ []) a (h, tt))

Level-of_All : (m : ℕ) (queue : List BfsState) → All (Hops m) queue → Level m queue
Level-of_All m [] a = tt
Level-of_All m (x ∷ xs) a = inl (a.0, Level-of_All m xs a.1)

module _ (edges : List KnowledgeEdge) (from : Text) where
  -- A state of the queue stands for a walk, and no walk to its node is shorter.
  abbrev pub IsBest : BfsState → Type 0
  IsBest st =
      Walk edges from st.node_id st.path st.labels
      × ((path labels : List Text)
          → Walk edges from st.node_id path labels
          → length st.labels ≤ length labels)

  -- All that is at most `m` steps away is marked.
  abbrev pub Near : ℕ → List Text → Type 0
  Near m visited =
      (v : Text) (path labels : List Text)
      → Walk edges from v path labels
      → length labels ≤ m
      → seen v visited ≡ true

  pub record Inv (m : ℕ) (s : Search) : Type 0 where
    pub levels : Level m s.queue
    pub best : All IsBest s.queue
    pub near : Near m s.visited

  -- A node that waits among states of `n` steps is not less than `n` steps away.
  pending-far :
      (n : ℕ) (queue : List BfsState) (v : Text) (path labels : List Text)
      → All (Hops n) queue
      → All IsBest queue
      → pending v queue ≡ true
      → Walk edges from v path labels
      → n ≤ length labels
  pending-far n [] v path labels a b h w = absurd (cc)
  pending-far n (st ∷ rest) v path labels a b h w = elim (Bool-cases (text_eq st.node_id v)) [
    | inl e ↦
        let w' : Walk edges from st.node_id path labels =
          subst (λ k. Walk edges from k path labels) (sym (text_eq→eq st.node_id v e)) w in
        omega (arith, a.0, b.0.1 path labels w')
    | inr e ↦
        pending-far n rest v path labels a.1 b.1
          (sym (if_false (text_eq st.node_id v) true (pending v rest) e) ∙ h) w
  ]

-- A marked node waits in the queue, or it is not the goal and all its neighbours are marked.
abbrev pub Closed : List KnowledgeEdge → Text → Search → Type 0
Closed edges to s =
    (v : Text)
    → seen v s.visited ≡ true
    → (pending v s.queue ≡ true)
      ⊎ ((text_eq v to ≡ false)
          × ((b relation : Text) → Joins v b relation edges → seen b s.visited ≡ true))

module _ (edges : List KnowledgeEdge) (from to : Text) where
  -- Where only states of one step more are left, all that is `suc m` steps away is marked.
  Near-suc :
      (m : ℕ) (s : Search)
      → All (Hops (suc m)) s.queue
      → Inv edges from m s
      → Closed edges to s
      → Near edges from (suc m) s.visited
  Near-suc m s a i c v path labels start h = i.near v path labels start (omega arith)
  Near-suc m s a i c v path labels (onward {a = u} {relation} {path = p} {labels = ls} w j) h =
      let short : length ls ≤ m = omega (arith, length-append ls (relation ∷ [])) in
      elim (c u (i.near u p ls w short)) [
        | inl waits ↦
            absurd
              (omega (arith, short, pending-far edges from (suc m) s.queue u p ls a i.best waits w))
        | inr (_, all) ↦ all v relation j
      ]

  -- The first state of the queue, and the rest, on its level.
  pub first_of_level :
      (m : ℕ) (current : BfsState) (rest : List BfsState) (visited : List Text)
      → Inv edges from m (record { visited = visited; queue = current ∷ rest })
      → Closed edges to (record { visited = visited; queue = current ∷ rest })
      → (n : ℕ) × (Hops n current
          × (IsBest edges from current
              × Inv edges from n (record { visited = visited; queue = rest })))
  first_of_level m current rest visited i c = elim i.levels [
    | inl (e, l) ↦ (m, (e, (i.best.0, record { levels = l; best = i.best.1; near = i.near })))
    | inr a ↦ (
      suc m,
      (
        a.0,
        (
          i.best.0,
          record {
            levels = Level-of_All (suc m) rest a.1;
            best = i.best.1;
            near = Near-suc m (record { visited = visited; queue = current ∷ rest }) a i c;
          },
        ),
      ),
    )
  ]

seen-cons :
    (id v : Text) (visited : List Text) → seen v visited ≡ true → seen v (id ∷ visited) ≡ true
unfolding seen
seen-cons id v visited h = ground arith

module _ (edges : List KnowledgeEdge) (from : Text) where
  -- A neighbour that is not marked is one step further.
  pub offer-Inv :
      (m : ℕ) (current : BfsState) (id relation : Text) (s : Search)
      → Hops m current
      → IsBest edges from current
      → Joins current.node_id id relation edges
      → Inv edges from m s
      → Inv edges from m (offer current id relation s)
  unfolding offer extend
  offer-Inv m current id relation s h b j i = elim (Bool-cases (seen id s.visited)) [
    | inl e ↦ rw e i
    | inr e ↦
        let next : Hops (suc m) (extend current id relation) =
          omega (arith, h, length-append current.labels (relation ∷ [])) in
        let far : (path labels : List Text)
            → Walk edges from id path labels
            → length (extend current id relation).labels ≤ length labels =
          λ path labels w. elim (Bool-cases (leb (length labels) m)) [
            | inl le ↦ absurd (cc (e, i.near id path labels w (leb→le (length labels) m le)))
            | inr gt ↦ omega (arith, next, leb_false→lt (length labels) m gt)
          ] in
        rw e (record {
          levels = Level-snoc m s.queue (extend current id relation) next i.levels;
          best =
              All-append (IsBest edges from) s.queue (extend current id relation ∷ []) i.best
                ((onward b.0 j, far), tt);
          near = λ v path labels w le. seen-cons id v s.visited (i.near v path labels w le);
        })
  ]
