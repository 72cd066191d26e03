-- ===== src/VoteGraph/Insert.antt =====
-- `VoteGraph::insert` with `append` and `introduce_branch`, and `VoteGraph::adjust_base`.
-- Compiled without debug assertions.
pub mod Settles
use finality_grandpa.Base.{
  ℕ, zero, suc, ◌-◌, Bool, true, false, not, Option, none, some, List, [], ◌∷◌, ◌++◌, length, take,
  drop, keep, last, ltb, get_elem?, Ord, eqb, Outcome, ok, panic, expect, guard, ◌>>=◌, ◌>>◌,
}
use finality_grandpa.Base.BTreeMap
use finality_grandpa.Base.BTreeMap.{BTreeMap}
use finality_grandpa.Base.BTreeSet
use finality_grandpa.Chain.{Chain}
use finality_grandpa.VoteGraph.{VoteGraph, VoteData, Entry, ancestor_node}
use finality_grandpa.VoteGraph.Search.{find_containing_nodes}

module _ {ℓ} {H : Type ℓ} ⦃o : Ord H⦄ where
  -- `Vec::contains`
  unfoldable pub mem : List H → H → Bool
  mem [] h = false
  mem (x ∷ xs) h = elim (eqb x h) [ true ↦ true | false ↦ mem xs h ]

-- The state of the fold in `introduce_branch`: the entries, and the new entry with the node that
-- its ancestor edge leads to, once the first descendent has been split.
abbrev pub Branch {ℓ κ} : Type ℓ → Type κ → Type (ℓ ⊔ κ)
Branch H V = BTreeMap H (Entry H V) × Option (Entry H V × Option H)

module _ {ℓ κ} {H : Type ℓ} {V : Type κ} ⦃o : Ord H⦄ where
  -- The search of `append`: the first block of the ancestry with a vote-node takes the new hash as a
  -- descendent. The index of the block is returned with the entries.
  unfoldable pub attach :
      BTreeMap H (Entry H V) → H → List H → ℕ → Option (ℕ × BTreeMap H (Entry H V))
  attach m hash [] i = none
  attach m hash (ancestor ∷ ancestry) i = elim (BTreeMap.get m ancestor) [
    | some entry ↦ some (
      i,
      BTreeMap.insert m ancestor (record entry { descendents = entry.descendents ++ hash ∷ [] }),
    )
    | none ↦ attach m hash ancestry (suc i)
  ]

  -- `VoteGraph::adjust_base`. The loop that subtracts one for each block of the proof ends at
  -- `base_number - len`, since the proof is no longer than the base number.
  unfoldable pub adjust_base : VoteGraph H V → List H → Outcome (VoteGraph H V)
  adjust_base g ancestry_proof = elim (last ancestry_proof) [
    | none ↦ ok g
    | some new_hash ↦ elim (ltb g.base_number (length ancestry_proof)) [
      | true ↦ ok g
      | false ↦ do
        old_entry ← expect (BTreeMap.get g.entries g.base)
        let new_number = g.base_number - length ancestry_proof
        ok (record g {
          entries =
              BTreeMap.insert
                (BTreeMap.insert g.entries g.base
                  (record old_entry { ancestors = old_entry.ancestors ++ ancestry_proof }))
                new_hash
                (record {
                  number = new_number;
                  ancestors = [];
                  descendents = g.base ∷ [];
                  cumulative_vote = old_entry.cumulative_vote;
                });
          base = new_hash;
          base_number = new_number;
        })
    ]
  ]

module _ {ℓ κ} {H : Type ℓ} {V : Type κ} ⦃o : Ord H⦄ ⦃d : VoteData V⦄ where
  -- `VoteGraph::append`
  unfoldable pub append : VoteGraph H V → H → ℕ → Chain H → Outcome (VoteGraph H V)
  unfolding attach
  append g hash number chain = do
    proper ← chain.ancestry g.base hash
    let ancestry = proper ++ g.base ∷ []
    attached ← expect (attach g.entries hash ancestry 0)
    ancestor_hash ← expect (get_elem? ancestry (attached.0))
    ok (record g {
      entries = BTreeMap.insert (attached.1) hash (record {
        number = number;
        ancestors = take (suc (attached.0)) ancestry;
        descendents = [];
        cumulative_vote = d.default;
      });
      heads = BTreeSet.insert (BTreeSet.remove g.heads ancestor_hash) hash;
    })

  -- `maybe_entry.get_or_insert_with(..)`
  unfoldable pub branch_entry :
      Option (Entry H V × Option H) → ℕ → List H → Option H → Entry H V × Option H
  branch_entry (some made) number new_ancestors prev_ancestor = made
  branch_entry none number new_ancestors prev_ancestor = (
    record {
      number = number;
      ancestors = new_ancestors;
      descendents = [];
      cumulative_vote = d.default;
    },
    prev_ancestor,
  )

  -- One round of the fold. `drain(offset..)` panics beyond the end.
  unfoldable pub split_edge : ℕ → Branch H V → H → Outcome (Branch H V)
  unfolding branch_entry
  split_edge number (m, maybe_entry) descendent = do
    entry ← expect (BTreeMap.get m descendent)
    let offset = entry.number - number
    guard (not (ltb entry.number number))
    guard (not (ltb (length entry.ancestors) offset))
    let made = branch_entry maybe_entry number (drop offset entry.ancestors) (ancestor_node entry)
    ok (
      BTreeMap.insert m descendent (record entry { ancestors = take offset entry.ancestors }),
      some (
        record (made.0) {
          descendents = made.0.descendents ++ descendent ∷ [];
          cumulative_vote = d.add made.0.cumulative_vote entry.cumulative_vote;
        },
        made.1,
      ),
    )

  unfoldable pub split_edges : ℕ → Branch H V → List H → Outcome (Branch H V)
  unfolding split_edge
  split_edges number b [] = ok b
  split_edges number b (descendent ∷ descendents) =
      split_edge number b descendent >>= λ b'. split_edges number b' descendents

  -- The previous ancestor takes the new entry in place of the descendents that moved under it.
  unfoldable pub relink :
      BTreeMap H (Entry H V) → Option H → H → Entry H V → Outcome (BTreeMap H (Entry H V))
  unfolding mem
  relink m none ancestor_hash new_entry = ok m
  relink m (some prev) ancestor_hash new_entry = do
    prev_node ← expect (BTreeMap.get m prev)
    ok (
        BTreeMap.insert m prev (record prev_node {
          descendents =
              keep (λ h. not (mem new_entry.descendents h)) prev_node.descendents
              ++ ancestor_hash ∷ [];
        }))

  -- The end of `introduce_branch`, with its assertion.
  unfoldable pub finish_branch : VoteGraph H V → H → Branch H V → Outcome (VoteGraph H V)
  unfolding relink
  finish_branch g ancestor_hash (m, none) = ok (record g { entries = m })
  finish_branch g ancestor_hash (m, some (new_entry, prev)) = do
    m' ← relink m prev ancestor_hash new_entry
    guard (not (BTreeMap.contains_key m' ancestor_hash))
    ok (record g { entries = BTreeMap.insert m' ancestor_hash new_entry })

  -- `VoteGraph::introduce_branch`
  unfoldable pub introduce_branch : VoteGraph H V → List H → H → ℕ → Outcome (VoteGraph H V)
  unfolding split_edges finish_branch
  introduce_branch g descendents ancestor_hash ancestor_number =
      split_edges ancestor_number (g.entries, none) descendents >>= λ b.
      finish_branch g ancestor_hash b

module _ {ℓ κ} {H : Type ℓ} {V : Type κ} ⦃o : Ord H⦄ where
  -- The loop of `insert` that adds the vote to a node and to all nodes it descends from.
  unfoldable pub propagate {μ} :
      {W : Type μ}
      → (V → W → V)
      → ℕ
      → BTreeMap H (Entry H V)
      → W
      → H
      → Outcome (BTreeMap H (Entry H V))
  propagate add_vote zero m vote inspecting = panic
  propagate add_vote (suc fuel) m vote inspecting = elim (BTreeMap.get m inspecting) [
    | none ↦ panic
    | some entry ↦ elim (ancestor_node entry) [
      | some parent ↦
          propagate add_vote fuel
            (BTreeMap.insert m inspecting
              (record entry { cumulative_vote = add_vote entry.cumulative_vote vote }))
            vote parent
      | none ↦ ok (
          BTreeMap.insert m inspecting
            (record entry { cumulative_vote = add_vote entry.cumulative_vote vote }))
    ]
  ]

module _ {ℓ κ} {H : Type ℓ} {V : Type κ} ⦃o : Ord H⦄ ⦃d : VoteData V⦄ where
  -- The phase of `insert` that makes sure that the block has a vote-node.
  unfoldable pub ensure_node : VoteGraph H V → H → ℕ → Chain H → Outcome (VoteGraph H V)
  unfolding append introduce_branch
  ensure_node g hash number chain = do
    containing ← find_containing_nodes g hash number
    elim containing [
      | none ↦ ok g
      | some nodes ↦ elim nodes [
        | [] ↦ append g hash number chain
        | x ∷ xs ↦ introduce_branch g (x ∷ xs) hash number
      ]
    ]

  -- `VoteGraph::insert`. The fuel of the loop is one round for each vote-node and one more.
  unfoldable pub insert {μ} :
      {W : Type μ} → (V → W → V) → VoteGraph H V → H → ℕ → W → Chain H → Outcome (VoteGraph H V)
  unfolding ensure_node propagate
  insert add_vote g hash number vote chain = do
    g' ← ensure_node g hash number chain
    entries ← propagate add_vote (suc (length g'.entries)) g'.entries vote hash
    ok (record g' { entries = entries })
