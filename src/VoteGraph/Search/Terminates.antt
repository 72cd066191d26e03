-- ===== src/VoteGraph/Search/Terminates.antt =====
-- The search for containing nodes ends on every graph: a node is visited once.
use finality_grandpa.Base.{
  ℕ, zero, suc, ◌+◌, ◌≤◌, ◌<◌, ◌≡◌, false, Option, some, List, [], ◌∷◌, length, Ord, ok, arith,
  Returns, Returns->>=, if◌then◌else◌, Returns-ok, inl, inr, Option-cases,
}
use finality_grandpa.Base.BTreeMap
use finality_grandpa.Base.BTreeMap.{BTreeMap}
use finality_grandpa.Base.BTreeSet
use finality_grandpa.Base.BTreeSet.{BTreeSet, contains-insert}
use finality_grandpa.VoteGraph.{VoteGraph, Entry, ancestor_node}
use finality_grandpa.VoteGraph.Search.{walk, walk_heads, find_containing_nodes}

module _ {ℓ κ} {H : Type ℓ} {V : Type κ} ⦃o : Ord H⦄ where
  -- How many vote-nodes have not been visited.
  unfoldable pub unvisited : BTreeMap H (Entry H V) → BTreeSet H → ℕ
  unvisited [] visited = 0
  unvisited ((h, e) ∷ m) visited =
      (if BTreeSet.contains visited h then 0 else 1) + unvisited m visited

  pub unvisited-le-length :
      (m : BTreeMap H (Entry H V)) (visited : BTreeSet H) → unvisited m visited ≤ length m
  unfolding unvisited
  unvisited-le-length [] visited = omega arith
  unvisited-le-length ((h, e) ∷ m) visited = ground (arith, unvisited-le-length m visited)

  unvisited-insert-le :
      (m : BTreeMap H (Entry H V)) (visited : BTreeSet H) (k : H)
      → unvisited m (BTreeSet.insert visited k) ≤ unvisited m visited
  unfolding unvisited
  unvisited-insert-le [] visited k = omega arith
  unvisited-insert-le ((h, e) ∷ m) visited k =
      ground (arith, unvisited-insert-le m visited k, contains-insert visited k h)

  -- A first visit leaves fewer nodes to visit.
  pub unvisited-insert-lt :
      (m : BTreeMap H (Entry H V)) (visited : BTreeSet H) (k : H) (e : Entry H V)
      → BTreeMap.get m k ≡ some e
      → BTreeSet.contains visited k ≡ false
      → unvisited m (BTreeSet.insert visited k) < unvisited m visited
  unfolding unvisited BTreeMap.get
  unvisited-insert-lt [] visited k e found new = cc
  unvisited-insert-lt ((h, e) ∷ m) visited k e' found new = ground (
    arith,
    unvisited-insert-lt m visited k e',
    unvisited-insert-le m visited k,
    contains-insert visited k h,
    o.cmp_eq k h,
    o.cmp_flip k h,
  )

  walk-Returns :
      (fuel : ℕ) (m : BTreeMap H (Entry H V)) (hash : H) (number : ℕ) (head : H) (keys : List H)
      (visited : BTreeSet H)
      → unvisited m visited < fuel
      → Returns (walk fuel m hash number head keys visited)
  unfolding walk
  walk-Returns zero m hash number head keys visited h = elim h [ ]
  walk-Returns (suc fuel) m hash number head keys visited h =
      elim (Option-cases (BTreeMap.get m head)) [
        | inl missing ↦ rw (missing, walk) tt
        | inr (entry, found) ↦ elim (Option-cases (ancestor_node entry)) [
          | inl first ↦ ground (arith, found, first)
          | inr (prev, edge) ↦ ground (
            arith,
            found,
            edge,
            unvisited-insert-lt m visited head entry,
            walk-Returns fuel m hash number prev keys (BTreeSet.insert visited head),
          )
        ]
      ]

  walk_heads-Returns :
      (heads : List H) (m : BTreeMap H (Entry H V)) (hash : H) (number : ℕ) (keys : List H)
      (visited : BTreeSet H)
      → Returns (walk_heads heads m hash number keys visited)
  unfolding walk_heads
  walk_heads-Returns [] m hash number keys visited = tt
  walk_heads-Returns (head ∷ heads) m hash number keys visited =
      Returns->>= _ _
        (walk-Returns (suc (length m)) m hash number head keys visited
          (omega (arith, unvisited-le-length m visited)))
        (λ r. walk_heads-Returns heads m hash number r.0 r.1)

  -- On every graph, well formed or not, the search returns: its loops end, and it does not panic.
  pub find_containing_nodes-returns :
      (g : VoteGraph H V) (hash : H) (number : ℕ)
      → (r : Option (List H)) × (find_containing_nodes g hash number ≡ ok r)
  unfolding find_containing_nodes
  find_containing_nodes-returns g hash number = Returns-ok _ search
    where
      search : Returns (find_containing_nodes g hash number)
      search = elim (Option-cases (BTreeMap.get g.entries hash)) [
        | inl missing ↦
            rw (missing, find_containing_nodes)
              (Returns->>= (walk_heads g.heads g.entries hash number [] []) _
                (walk_heads-Returns g.heads g.entries hash number [] []) (λ r. tt))
        | inr (e, found) ↦ rw (found, find_containing_nodes) tt
      ]
