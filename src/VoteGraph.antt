-- ===== src/VoteGraph.antt =====
-- src/vote_graph.rs: the graph of the blocks that have votes. Block numbers are natural numbers.
pub mod Search
pub mod Insert
pub mod Ancestor
pub mod Ghost
pub mod Paths
use finality_grandpa.Base.{
  ℕ, ◌-◌, max, Bool, Option, none, some, List, [], ◌∷◌, get_elem?, last, leb, if◌then◌else◌, Ord,
  eqb,
}
use finality_grandpa.Base.BTreeMap
use finality_grandpa.Base.BTreeMap.{BTreeMap}
use finality_grandpa.Base.BTreeSet.{BTreeSet}

-- `V: AddAssign<&V> + Default`
pub record VoteData {ℓ} (V : Type ℓ) : Type ℓ where
  pub default : V
  pub add : V → V → V

pub record Entry {ℓ κ} (H : Type ℓ) (V : Type κ) : Type (ℓ ⊔ κ) where
  pub number : ℕ
  pub ancestors : List H
  pub descendents : List H
  pub cumulative_vote : V

pub record VoteGraph {ℓ κ} (H : Type ℓ) (V : Type κ) : Type (ℓ ⊔ κ) where
  pub entries : BTreeMap H (Entry H V)
  pub heads : BTreeSet H
  pub base : H
  pub base_number : ℕ

module _ {ℓ κ} {H : Type ℓ} {V : Type κ} where
  -- `Entry::ancestor_block`
  unfoldable pub ancestor_block : Entry H V → ℕ → Option H
  ancestor_block e number =
      if leb e.number number then none else get_elem? e.ancestors (e.number - number - 1)

  -- `Entry::ancestor_node`
  unfoldable pub ancestor_node : Entry H V → Option H
  ancestor_node e = last e.ancestors

  -- The highest number of a vote-node, for the bound of the loop of `find_ancestor`.
  unfoldable pub max_number : BTreeMap H (Entry H V) → ℕ
  max_number [] = 0
  max_number ((h, e) ∷ m) = max e.number (max_number m)

  -- `VoteGraph::new`
  unfoldable pub new : H → ℕ → V → VoteGraph H V
  new base_hash base_number base_node = record {
    entries =
        (
          base_hash,
          record {
            number = base_number;
            ancestors = [];
            descendents = [];
            cumulative_vote = base_node;
          },
        )
        ∷ [];
    heads = base_hash ∷ [];
    base = base_hash;
    base_number = base_number;
  }

module _ {ℓ κ} {H : Type ℓ} {V : Type κ} ⦃o : Ord H⦄ where
  -- `Entry::in_direct_ancestry`: `none` says that the graph must be traversed further back.
  unfoldable pub in_direct_ancestry : Entry H V → H → ℕ → Option Bool
  unfolding ancestor_block
  in_direct_ancestry e hash number = elim (ancestor_block e number) [
    | none ↦ none
    | some h ↦ some (eqb h hash)
  ]
