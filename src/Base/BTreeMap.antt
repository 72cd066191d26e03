-- ===== src/Base/BTreeMap.antt =====
-- `BTreeMap`: the entries in ascending order of their keys.
use Prim.Native.Nat.{suc}
use Prim.Native.Nat.Ordering.{lt, eq, gt}
use mathlib.Core.Path.{◌≡◌, refl, ◌∙◌}
use mathlib.Core.Logic.{◌≢◌}
use mathlib.Core.Bool.{Bool, true, false}
use mathlib.Core.List.{List, [], ◌∷◌}
use mathlib.Core.Option.{Option, none, some}
use native.Mathlib.Omega.{arith}
use finality_grandpa.Base.Order.{Ord, cmp_refl}
use finality_grandpa.Base.Lists.{length}

abbrev pub BTreeMap {ℓ κ} : Type ℓ → Type κ → Type (ℓ ⊔ κ)
BTreeMap K V = List (K × V)

module _ {ℓ κ} {K : Type ℓ} {V : Type κ} ⦃o : Ord K⦄ where
  unfoldable pub get : BTreeMap K V → K → Option V
  get [] k = none
  get ((j, v) ∷ m) k = elim (o.cmp k j) [ eq ↦ some v | _ ↦ get m k ]

  -- A key that is there keeps its place, and takes the new value.
  unfoldable pub insert : BTreeMap K V → K → V → BTreeMap K V
  insert [] k v = (k, v) ∷ []
  insert ((j, w) ∷ m) k v = elim (o.cmp k j) [
    | lt ↦ (k, v) ∷ (j, w) ∷ m
    | eq ↦ (k, v) ∷ m
    | gt ↦ (j, w) ∷ insert m k v
  ]

  abbrev pub contains_key : BTreeMap K V → K → Bool
  contains_key m k = elim (get m k) [ some _ ↦ true | none ↦ false ]

  pub get-insert :
      (m : BTreeMap K V) (k j : K) (v : V)
      → get (insert m k v) j ≡ elim (o.cmp j k) [ eq ↦ some v | _ ↦ get m j ]
  unfolding get insert
  get-insert [] k j v = refl
  get-insert ((i, w) ∷ m) k j v =
      ground (arith, get-insert m k j v, o.cmp_eq j i, o.cmp_eq k i, o.cmp_eq j k)

  pub get-insert_self : (m : BTreeMap K V) (k : K) (v : V) → get (insert m k v) k ≡ some v
  get-insert_self m k v = ground (arith, get-insert m k k v, cmp_refl k)

  pub get-insert_ne : (m : BTreeMap K V) (k j : K) (v : V) → j ≢ k → get (insert m k v) j ≡ get m j
  get-insert_ne m k j v n = ground (arith, get-insert m k j v, o.cmp_eq j k)

  -- Every key of the map is above `k`.
  abbrev pub Above : K → BTreeMap K V → Type 0
  Above k [] = Unit
  Above k ((j, v) ∷ m) = (o.cmp k j ≡ lt) × Above k m

  abbrev pub IsSorted : BTreeMap K V → Type 0
  IsSorted [] = Unit
  IsSorted ((j, v) ∷ m) = Above j m × IsSorted m

  pub Above-trans : (k j : K) (m : BTreeMap K V) → o.cmp k j ≡ lt → Above j m → Above k m
  Above-trans k j [] h a = tt
  Above-trans k j ((i, v) ∷ m) h a = (o.cmp_trans k j i h a.0, Above-trans k j m h a.1)

  Above-insert :
      (b k : K) (v : V) (m : BTreeMap K V) → o.cmp b k ≡ lt → Above b m → Above b (insert m k v)
  unfolding insert
  Above-insert b k v [] h a = (h, tt)
  Above-insert b k v ((j, w) ∷ m) h a = ground (arith, Above-insert b k v m h a.1)

  pub insert-IsSorted : (m : BTreeMap K V) (k : K) (v : V) → IsSorted m → IsSorted (insert m k v)
  unfolding insert
  insert-IsSorted [] k v s = (tt, tt)
  insert-IsSorted ((j, w) ∷ m) k v s = ground (
    arith,
    insert-IsSorted m k v s.1,
    Above-trans k j m,
    Above-insert j k v m,
    o.cmp_flip k j,
    o.cmp_eq k j,
    s.0,
  )

  pub get-Above : (m : BTreeMap K V) (k : K) → Above k m → get m k ≡ none
  unfolding get
  get-Above [] k a = refl
  get-Above ((j, w) ∷ m) k a = ground (arith, get-Above m k a.1)

  pub length-insert :
      (m : BTreeMap K V) (k : K) (v : V)
      → IsSorted m
      → length (insert m k v) ≡ elim (get m k) [ some _ ↦ length m | none ↦ suc (length m) ]
  unfolding insert get
  length-insert [] k v s = refl
  length-insert ((j, w) ∷ m) k v s =
      ground (arith, length-insert m k v s.1, get-Above m k, Above-trans k j m, s.0)

  get_nil : (k : K) → get [] k ≡ none
  unfolding get
  get_nil k = refl

  pub get_head : (k : K) (v : V) (m : BTreeMap K V) → get ((k, v) ∷ m) k ≡ some v
  unfolding get
  get_head k v m = ground (arith, cmp_refl k)

  get_tail : (j k : K) (v : V) (m : BTreeMap K V) → o.cmp j k ≢ eq → get ((k, v) ∷ m) j ≡ get m j
  unfolding get
  get_tail j k v m n = ground arith

  get_before :
      (j k : K) (v : V) (m : BTreeMap K V)
      → IsSorted ((k, v) ∷ m)
      → o.cmp j k ≡ lt
      → get ((k, v) ∷ m) j ≡ none
  get_before j k v m s h = get_tail j k v m (λ e. cc) ∙ get-Above m j (Above-trans j k m h s.0)

  get_below_head :
      (j k : K) (v : V) (m : BTreeMap K V) → IsSorted ((k, v) ∷ m) → o.cmp j k ≡ eq → get m j ≡ none
  get_below_head j k v m s h = rw ((o.cmp_eq j k).0 h) (get-Above m k s.0)

  head_eq :
      (k j : K) (v w : V) (m n : BTreeMap K V)
      → IsSorted ((k, v) ∷ m)
      → IsSorted ((j, w) ∷ n)
      → ((i : K) → get ((k, v) ∷ m) i ≡ get ((j, w) ∷ n) i)
      → (k ≡ j) × (v ≡ w)
  head_eq k j v w m n s t h = ground (
    arith,
    h k,
    h j,
    get_head k v m,
    get_head j w n,
    get_before k j w n t,
    get_before j k v m s,
    o.cmp_flip k j,
    o.cmp_eq k j,
  )

  tail_eq :
      (k j : K) (v w : V) (m n : BTreeMap K V)
      → IsSorted ((k, v) ∷ m)
      → IsSorted ((j, w) ∷ n)
      → ((i : K) → get ((k, v) ∷ m) i ≡ get ((j, w) ∷ n) i)
      → (i : K) → get m i ≡ get n i
  tail_eq k j v w m n s t h i =
      let same = (head_eq k j v w m n s t h).0 in
      ground (
        arith,
        h i,
        same,
        get_tail i k v m,
        get_tail i j w n,
        get_below_head i k v m s,
        get_below_head i j w n t,
      )

  -- Two sorted maps that read alike are one map.
  pub map_ext :
      (m n : BTreeMap K V) → IsSorted m → IsSorted n → ((k : K) → get m k ≡ get n k) → m ≡ n
  map_ext [] [] s t h = refl
  map_ext [] ((k, v) ∷ n) s t h = ground (arith, h k, get_head k v n, get_nil k)
  map_ext ((k, v) ∷ m) [] s t h = ground (arith, h k, get_head k v m, get_nil k)
  map_ext ((k, v) ∷ m) ((j, w) ∷ n) s t h =
      let (same_key, same_value) = head_eq k j v w m n s t h in
      let same_rest = map_ext m n s.1 t.1 (tail_eq k j v w m n s t h) in
      cc (same_key, same_value, same_rest)
