-- ===== src/Tools/Knowledge/Marks.antt =====
-- What one step of the search of `findPath` does to the marks and the queue.
use chango_assistant.Base.{
  All, Bool, Bool-cases, List, Text, [], any, arith, false, inl, inr, text_eq, text_eq_iff,
  text_eq_refl, true, ◌++◌, ◌||◌, ◌∷◌, ◌≡◌,
}
use chango_assistant.Tools.Knowledge.Search.{BfsState, Search, extend, offer, scan, seen}

-- A node waits in the queue.
abbrev pub pending : Text → List BfsState → Bool
pending id queue = any (λ st. text_eq st.node_id id) queue

pub pending-append :
    (id : Text) (xs ys : List BfsState) → pending id (xs ++ ys) ≡ pending id xs || pending id ys
pending-append id [] ys = ground arith
pending-append id (x ∷ xs) ys = ground (arith, pending-append id xs ys)

-- What a scan keeps: the marks stay, the queue grows at the end, and what is marked anew waits.
pub record Grows (s t : Search) : Type 0 where
  pub marks : (v : Text) → seen v s.visited ≡ true → seen v t.visited ≡ true
  pub waits : (v : Text) → pending v s.queue ≡ true → pending v t.queue ≡ true
  pub fresh :
      (v : Text) → seen v s.visited ≡ false → seen v t.visited ≡ true → pending v t.queue ≡ true

Grows-refl : (s : Search) → Grows s s
Grows-refl s = record { marks = λ v h. h; waits = λ v h. h; fresh = λ v h k. cc }

pub offer-Grows :
    (current : BfsState) (id relation : Text) (s : Search) → Grows s (offer current id relation s)
unfolding offer seen extend
offer-Grows current id relation s = record {
  marks = λ v. ground (arith, text_eq_iff id v);
  waits = λ v. ground (arith, pending-append v s.queue (extend current id relation ∷ []));
  fresh = λ v.
      ground (arith, text_eq_iff id v, pending-append v s.queue (extend current id relation ∷ []));
}

Grows-trans : (s t u : Search) → Grows s t → Grows t u → Grows s u
Grows-trans s t u g h = record {
  marks = λ v e. h.marks v (g.marks v e);
  waits = λ v e. h.waits v (g.waits v e);
  fresh = λ v e k. elim (Bool-cases (seen v t.visited)) [
    | inl old ↦ h.waits v (g.fresh v e old)
    | inr new ↦ h.fresh v new k
  ];
}

pub scan-Grows :
    (current : BfsState) (ns : List (Text × Text)) (s : Search) → Grows s (scan current ns s)
unfolding scan
scan-Grows current [] s = Grows-refl s
scan-Grows current ((id, relation) ∷ ns) s =
    Grows-trans s (offer current id relation s) (scan current ns (offer current id relation s))
      (offer-Grows current id relation s) (scan-Grows current ns (offer current id relation s))

offer-seen :
    (current : BfsState) (id relation : Text) (s : Search)
    → seen id (offer current id relation s).visited ≡ true
unfolding offer seen
offer-seen current id relation s = ground (arith, text_eq_refl id)

-- A scan marks all the neighbours.
pub scan-seen :
    (current : BfsState) (ns : List (Text × Text)) (s : Search)
    → All (λ n. seen n.0 (scan current ns s).visited ≡ true) ns
unfolding scan
scan-seen current [] s = tt
scan-seen current ((id, relation) ∷ ns) s = (
  (scan-Grows current ns (offer current id relation s)).marks id (offer-seen current id relation s),
  scan-seen current ns (offer current id relation s),
)

-- What every step of a scan keeps, the scan keeps.
pub scan_rule :
    (P : Search → Type 0) (current : BfsState) (ns : List (Text × Text)) (s : Search)
    → All (λ n. (t : Search) → P t → P (offer current n.0 n.1 t)) ns
    → P s
    → P (scan current ns s)
unfolding scan
scan_rule P current [] s keep p = p
scan_rule P current ((id, relation) ∷ ns) s keep p =
    scan_rule P current ns (offer current id relation s) keep.1 (keep.0 s p)
