-- ===== src/VoteGraph/Search/Sound.antt =====
-- What the search for containing nodes finds.
use finality_grandpa.Base.{
  ℕ, zero, suc, ◌-◌, ◌<◌, arith, leb, get_elem?, ◌≡◌, true, false, Option, none, some, List, [],
  ◌∷◌, length, Ord, ok, Bool-cases, inl, inr, Option-cases, All, All-append, Ensures, Ensures->>=,
  Ensures-ok,
}
use finality_grandpa.Base.BTreeMap
use finality_grandpa.Base.BTreeMap.{BTreeMap}
use finality_grandpa.Base.BTreeSet
use finality_grandpa.Base.BTreeSet.{BTreeSet}
use finality_grandpa.VoteGraph.{VoteGraph, Entry, in_direct_ancestry, ancestor_block, ancestor_node}
use finality_grandpa.VoteGraph.Search.{walk, walk_heads, find_containing_nodes}

module _ {ℓ κ} {H : Type ℓ} {V : Type κ} ⦃o : Ord H⦄ where
  -- The key is that of a vote-node whose edge to its ancestor node contains the block.
  abbrev pub Contains : BTreeMap H (Entry H V) → H → ℕ → H → Type (ℓ ⊔ κ)
  Contains m hash number key =
      (e : Entry H V) × (BTreeMap.get m key ≡ some e)
      × (number < e.number)
      × (get_elem? e.ancestors (e.number - number - 1) ≡ some hash)

  -- What the test of a node says.
  direct_ancestor :
      (e : Entry H V) (hash : H) (number : ℕ)
      → in_direct_ancestry e hash number ≡ some true
      → (number < e.number) × (get_elem? e.ancestors (e.number - number - 1) ≡ some hash)
  unfolding in_direct_ancestry ancestor_block
  direct_ancestor e hash number h = elim (Bool-cases (leb e.number number)) [
    | inl below ↦ ground (arith, below, h)
    | inr above ↦ elim (Option-cases (get_elem? e.ancestors (e.number - number - 1))) [
      | inl missing ↦ ground (arith, above, missing, h)
      | inr (x, there) ↦ (ground (arith, above), ground (arith, above, there, h, o.cmp_eq x hash))
    ]
  ]

  abbrev Finds : BTreeMap H (Entry H V) → H → ℕ → List H × BTreeSet H → Type (ℓ ⊔ κ)
  Finds m hash number r = All (Contains m hash number) r.0

  walk-Contains :
      (fuel : ℕ) (m : BTreeMap H (Entry H V)) (hash : H) (number : ℕ) (head : H) (keys : List H)
      (visited : BTreeSet H)
      → All (Contains m hash number) keys
      → Ensures (Finds m hash number) (walk fuel m hash number head keys visited)
  unfolding walk
  walk-Contains zero m hash number head keys visited h = tt
  walk-Contains (suc fuel) m hash number head keys visited h =
      elim (Option-cases (BTreeMap.get m head)) [
        | inl missing ↦ rw (missing, walk) h
        | inr (entry, found) ↦ elim (Bool-cases (BTreeSet.contains visited head)) [
          | inl old ↦ rw (found, walk) (rw (old, walk) h)
          | inr new ↦ elim (Option-cases (in_direct_ancestry entry hash number)) [
            | inl further ↦ elim (Option-cases (ancestor_node entry)) [
              | inl first ↦ rw (found, new, further, first, walk) h
              | inr (prev, edge) ↦
                  rw (found, new, further, edge, walk)
                    (walk-Contains fuel m hash number prev keys (BTreeSet.insert visited head) h)
            ]
            | inr (true, hit) ↦
                rw (found, new, hit, walk)
                  (All-append (Contains m hash number) keys (head ∷ []) h (
                    (
                      entry,
                      found,
                      (direct_ancestor entry hash number hit).0,
                      (direct_ancestor entry hash number hit).1,
                    ),
                    tt,
                  ))
            | inr (false, miss) ↦ rw (found, new, miss, walk) h
          ]
        ]
      ]

  walk_heads-Contains :
      (heads : List H) (m : BTreeMap H (Entry H V)) (hash : H) (number : ℕ) (keys : List H)
      (visited : BTreeSet H)
      → All (Contains m hash number) keys
      → Ensures (Finds m hash number) (walk_heads heads m hash number keys visited)
  unfolding walk_heads
  walk_heads-Contains [] m hash number keys visited h = h
  walk_heads-Contains (head ∷ heads) m hash number keys visited h =
      Ensures->>= (Finds m hash number) (Finds m hash number) _ _
        (walk-Contains (suc (length m)) m hash number head keys visited h)
        (λ r k. walk_heads-Contains heads m hash number r.0 r.1 k)

  -- What the result of a search says: `none` of a block that has a vote-node, and otherwise
  -- vote-nodes with the block in their ancestor edge.
  abbrev pub FindsNodes : VoteGraph H V → H → ℕ → Option (List H) → Type (ℓ ⊔ κ)
  FindsNodes g hash number none = (e : Entry H V) × (BTreeMap.get g.entries hash ≡ some e)
  FindsNodes g hash number (some keys) =
      (BTreeMap.get g.entries hash ≡ none) × All (Contains g.entries hash number) keys

  -- When the search returns `none`, the block has a vote-node. When it returns nodes, the block has
  -- none, and each of them is a vote-node that has the block in its edge at the block's number.
  pub find_containing_nodes_lem :
      (g : VoteGraph H V) (hash : H) (number : ℕ) (r : Option (List H))
      → find_containing_nodes g hash number ≡ ok r
      → FindsNodes g hash number r
  unfolding find_containing_nodes
  find_containing_nodes_lem g hash number r e =
      Ensures-ok (FindsNodes g hash number) (find_containing_nodes g hash number) r e search
    where
      search : Ensures (FindsNodes g hash number) (find_containing_nodes g hash number)
      search = elim (Option-cases (BTreeMap.get g.entries hash)) [
        | inl missing ↦
            rw (missing, find_containing_nodes)
              (Ensures->>= (Finds g.entries hash number) _
                (walk_heads g.heads g.entries hash number [] []) _
                (walk_heads-Contains g.heads g.entries hash number [] [] tt) (λ r' k. (missing, k)))
        | inr (entry, found) ↦ rw (found, find_containing_nodes) (entry, found)
      ]
