-- ===== src/Base/Order.antt =====
-- The bounds `VoterId: Ord` and `H: Ord`: a comparison that decides equality and is a linear order.
use Prim.Native.Nat.{ℕ, compare, Ordering}
use Prim.Native.Nat.Ordering.{lt, eq, gt}
use mathlib.Core.Path.{◌≡◌, refl}
use mathlib.Core.Logic.{◌↔◌}
use mathlib.Core.Bool.{Bool, true, false}
use native.Mathlib.Omega.{arith}

abbrev pub flip : Ordering → Ordering
flip lt = gt
flip eq = eq
flip gt = lt

pub record Ord {ℓ} (A : Type ℓ) : Type ℓ where
  pub cmp : A → A → Ordering
  pub cmp_eq : (a b : A) → (cmp a b ≡ eq) ↔ (a ≡ b)
  pub cmp_flip : (a b : A) → cmp b a ≡ flip (cmp a b)
  pub cmp_trans : (a b c : A) → cmp a b ≡ lt → cmp b c ≡ lt → cmp a c ≡ lt

pub compare-eq : (a b : ℕ) → (compare a b ≡ eq) ↔ (a ≡ b)
compare-eq a b = ground arith

pub compare-flip : (a b : ℕ) → compare b a ≡ flip (compare a b)
compare-flip a b = ground arith

pub compare_trans : (a b c : ℕ) → compare a b ≡ lt → compare b c ≡ lt → compare a c ≡ lt
compare_trans a b c h k = ground arith

instance abbrev pub nat_ord : Ord ℕ
nat_ord = record {
  cmp = compare;
  cmp_eq = compare-eq;
  cmp_flip = compare-flip;
  cmp_trans = compare_trans;
}

module _ {ℓ} {A : Type ℓ} ⦃o : Ord A⦄ where
  -- `a == b`
  abbrev pub eqb : A → A → Bool
  eqb a b = elim (o.cmp a b) [ eq ↦ true | _ ↦ false ]

  pub cmp_refl : (a : A) → o.cmp a a ≡ eq
  cmp_refl a = (o.cmp_eq a a).1 refl

  pub eqb_iff : (a b : A) → (eqb a b ≡ true) ↔ (a ≡ b)
  eqb_iff a b = ground (arith, o.cmp_eq a b)

  pub eqb_refl : (a : A) → eqb a a ≡ true
  eqb_refl a = (eqb_iff a a).1 refl

-- The bound `Eq`.
pub record Eq {ℓ} (A : Type ℓ) : Type ℓ where
  pub beq : A → A → Bool
  pub beq_iff : (a b : A) → (beq a b ≡ true) ↔ (a ≡ b)

instance abbrev pub nat_eq : Eq ℕ
nat_eq = record { beq = eqb; beq_iff = eqb_iff }
