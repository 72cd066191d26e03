-- ===== src/Voter/Bridge.antt =====
-- src/bridge_state.rs: a round-state that one round writes and the next one reads. The cells that
-- are shared stand in a list, and a view is the place of its cell. Locks and wakers are left out.
use finality_grandpa.Base.{
  ℕ, ◌≡◌, refl, Option, some, List, [], ◌∷◌, ◌++◌, length, get_elem?, set, arith, zero, suc,
}

-- `Bridged`, in the place of the view.
abbrev pub Cells {ℓ} : Type ℓ → Type ℓ
Cells A = List A

-- `PriorView`
pub record PriorView : Type 0 where
  pub prior_cell : ℕ

-- `LatterView`
pub record LatterView : Type 0 where
  pub latter_cell : ℕ

module _ {ℓ} {A : Type ℓ} where
  -- `PriorView::update`
  unfoldable pub update : PriorView → A → Cells A → Cells A
  update v new cells = set cells v.prior_cell new

  -- `LatterView::get`
  unfoldable pub get : LatterView → Cells A → Option A
  get v cells = get_elem? cells v.latter_cell

  -- `bridge_state`
  unfoldable pub bridge_state : A → Cells A → PriorView × LatterView × Cells A
  bridge_state initial cells = (
    record { prior_cell = length cells },
    record { latter_cell = length cells },
    cells ++ initial ∷ [],
  )

  get_elem?-end : (xs : List A) (a : A) → get_elem? (xs ++ a ∷ []) (length xs) ≡ some a
  get_elem?-end [] a = refl
  get_elem?-end (x ∷ xs) a = ground (arith, get_elem?-end xs a)

  get_elem?-set_end :
      (xs : List A) (a b : A) → get_elem? (set (xs ++ a ∷ []) (length xs) b) (length xs) ≡ some b
  get_elem?-set_end [] a b = refl
  get_elem?-set_end (x ∷ xs) a b = ground (arith, get_elem?-set_end xs a b)

  get_elem?-set_other :
      (xs : List A) (i : ℕ) (a b c : A)
      → get_elem? xs i ≡ some c
      → get_elem? (set (xs ++ a ∷ []) (length xs) b) i ≡ some c
  get_elem?-set_other [] i a b c e = cc
  get_elem?-set_other (x ∷ xs) zero a b c e = e
  get_elem?-set_other (x ∷ xs) (suc i) a b c e = get_elem?-set_other xs i a b c e

  -- Of the two views that `bridge_state` makes, the latter reads the initial value, and after an
  -- update by the prior it reads the new value. Another view reads what it did before.
  pub update-bridge_state :
      (initial new : A) (cells : Cells A) (other : LatterView) (a : A)
      → get other cells ≡ some a
      → let (prior, latter, bridged) = bridge_state initial cells in
        (get latter bridged ≡ some initial)
        × (get latter (update prior new bridged) ≡ some new)
        × (get other (update prior new bridged) ≡ some a)
  unfolding update get bridge_state
  update-bridge_state initial new cells other a e = (
    get_elem?-end cells initial,
    get_elem?-set_end cells initial new,
    get_elem?-set_other cells other.latter_cell initial new a e,
  )
