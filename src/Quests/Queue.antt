-- ===== src/Quests/Queue.antt =====
-- The check for cycles in `validateQuest` of apps/server/internal/service/content.go: edges are
-- taken away node by node, and a node whose last incoming edge is gone joins the queue.
use m_pack_station.Base.{
  ℕ, zero, suc, String, Bool, true, false, List, [], ◌∷◌, ◌++◌, map, filter, str_eq, if◌then◌else◌,
  Option, none, some, length, ltb,
}
use m_pack_station.Base.Int.{ℤ, pos, negsuc}

-- An edge of the graph, by the ids of its nodes.
pub record Arrow : Type 0 where
  pub from : String
  pub to : String

abbrev pub Degrees : Type 0
Degrees = String → ℤ

abbrev pub plus_one : ℤ → ℤ
plus_one (pos n) = pos (suc n)
plus_one (negsuc zero) = pos 0
plus_one (negsuc (suc n)) = negsuc n

abbrev pub minus_one : ℤ → ℤ
minus_one (pos (suc n)) = pos n
minus_one (pos zero) = negsuc 0
minus_one (negsuc n) = negsuc (suc n)

abbrev pub is_zero : ℤ → Bool
is_zero (pos zero) = true
is_zero _ = false

-- indeg[id] = n
abbrev pub set_degree : Degrees → String → ℤ → Degrees
set_degree indeg id n x = if str_eq x id then n else indeg x

-- indeg[ed.ToNodeID]++, over the edges
unfoldable pub in_degrees : List Arrow → Degrees → Degrees
in_degrees [] indeg = indeg
in_degrees (e ∷ es) indeg = in_degrees es (set_degree indeg e.to (plus_one (indeg e.to)))

-- adj[id]
unfoldable pub targets : String → List Arrow → List String
targets id es = map (λ (e : Arrow). e.to) (filter (λ (e : Arrow). str_eq e.from id) es)

-- The loop over adj[id], from the degrees and the queue.
unfoldable pub relax : List String → Degrees → List String → Degrees × List String
relax [] indeg q = (indeg, q)
relax (to ∷ ts) indeg q =
    let n = minus_one (indeg to) in
    relax ts (set_degree indeg to n) (if is_zero n then q ++ (to ∷ []) else q)

-- The loop over the queue: how many nodes left it. A round is counted by the fuel.
unfoldable pub drain : ℕ → List Arrow → Degrees → List String → ℕ → Option ℕ
unfolding relax targets
drain fuel es indeg [] seen = some seen
drain zero es indeg (id ∷ q) seen = none
drain (suc fuel) es indeg (id ∷ q) seen =
    let (indeg', q') = relax (targets id es) indeg q in drain fuel es indeg' q' (suc seen)

abbrev pub no_degrees : Degrees
no_degrees id = pos 0

-- The nodes with no incoming edge.
unfoldable pub first_queue : List String → Degrees → List String
first_queue ids indeg = filter (λ id. is_zero (indeg id)) ids

-- seen, at the end of the loop; the queue can take in each node once.
unfoldable pub count_seen : List String → List Arrow → Option ℕ
unfolding drain in_degrees first_queue
count_seen ids es =
    let indeg = in_degrees es no_degrees in
    drain (suc (length ids)) es indeg (first_queue ids indeg) 0

-- seen < len(nodes)
unfoldable pub has_cycle : List String → List Arrow → Option Bool
unfolding count_seen
has_cycle ids es = elim (count_seen ids es) [
  | none ↦ none
  | some seen ↦ some (ltb seen (length ids))
]
