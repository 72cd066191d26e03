-- ===== src/Base/BTreeSet.antt =====
-- `BTreeSet`: the elements in ascending order.
use Prim.Native.Nat.Ordering.{lt, eq, gt}
use mathlib.Core.Path.{◌≡◌, refl}
use mathlib.Core.Bool.{Bool, true, false}
use mathlib.Core.List.{List, [], ◌∷◌}
use native.Mathlib.Omega.{arith}
use finality_grandpa.Base.Order.{Ord}

abbrev pub BTreeSet {ℓ} : Type ℓ → Type ℓ
BTreeSet K = List K

module _ {ℓ} {K : Type ℓ} ⦃o : Ord K⦄ where
  unfoldable pub contains : BTreeSet K → K → Bool
  contains [] k = false
  contains (j ∷ s) k = elim (o.cmp k j) [ eq ↦ true | _ ↦ contains s k ]

  unfoldable pub insert : BTreeSet K → K → BTreeSet K
  insert [] k = k ∷ []
  insert (j ∷ s) k = elim (o.cmp k j) [ lt ↦ k ∷ j ∷ s | eq ↦ j ∷ s | gt ↦ j ∷ insert s k ]

  unfoldable pub remove : BTreeSet K → K → BTreeSet K
  remove [] k = []
  remove (j ∷ s) k = elim (o.cmp k j) [ eq ↦ s | _ ↦ j ∷ remove s k ]

  pub contains-insert :
      (s : BTreeSet K) (k j : K)
      → contains (insert s k) j ≡ elim (o.cmp j k) [ eq ↦ true | _ ↦ contains s j ]
  unfolding contains insert
  contains-insert [] k j = refl
  contains-insert (i ∷ s) k j =
      ground (arith, contains-insert s k j, o.cmp_eq j i, o.cmp_eq k i, o.cmp_eq j k)
