-- ===== src/Chain.antt =====
-- src/lib.rs: the `Chain` trait. The client of the crate implements it, so `ancestry` is a field of
-- a record that the model takes as a parameter; `is_equal_or_descendent_of` is the trait's default.
use finality_grandpa.Base.{
  Bool, true, false, List, Ord, eqb, eqb_iff, Outcome, ok, err, panic, ◌≡◌, ◌⊎◌, inl, inr,
  Bool-cases, Outcome-cases, arith,
}

pub record Chain {ℓ} (H : Type ℓ) : Type ℓ where
  -- The ancestry of `block`, from its parent back to but without `base`.
  pub ancestry : H → H → Outcome (List H)

-- `Chain::is_equal_or_descendent_of`
unfoldable pub is_equal_or_descendent_of {ℓ} :
    {H : Type ℓ} ⦃o : Ord H⦄ → Chain H → H → H → Outcome Bool
is_equal_or_descendent_of chain base block = elim (eqb base block) [
  | true ↦ ok true
  | false ↦ elim (chain.ancestry base block) [ ok _ ↦ ok true | err _ ↦ ok false | panic ↦ panic ]
]

-- The block is the base, or the chain has an ancestry of it back to the base.
abbrev pub Descends {ℓ} : {H : Type ℓ} → Chain H → H → H → Type ℓ
Descends {H = H} chain base block =
    (base ≡ block) ⊎ ((path : List H) × (chain.ancestry base block ≡ ok path))

pub is_equal_or_descendent_of-Descends {ℓ} :
    {H : Type ℓ} ⦃o : Ord H⦄ (chain : Chain H) (base block : H)
    → is_equal_or_descendent_of chain base block ≡ ok true
    → Descends chain base block
unfolding is_equal_or_descendent_of
is_equal_or_descendent_of-Descends chain base block e = elim (Bool-cases (eqb base block)) [
  | inl same ↦ inl ((eqb_iff base block).0 same)
  | inr other ↦ elim (Outcome-cases (chain.ancestry base block)) [
    | inl (path, q) ↦ inr (path, q)
    | inr (inl (x, q)) ↦ ground (arith, e, other, q)
    | inr (inr q) ↦ ground (arith, e, other, q)
  ]
]
