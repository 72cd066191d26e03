-- ===== src/VoterSet/Order.antt =====
-- The order of the distribution does not matter to `VoterSet::new`.
use finality_grandpa.Base.{ℕ, ◌≡◌, refl, sym, ◌∙◌, ap, List, Ord, arith, inl, inr}
use mathlib.Core.List.{Perm, Permᴰ}
use mathlib.Core.Logic.{∥∥₁_elim}
use native.Mathlib.Nat.{ℕ_set}
use finality_grandpa.Base.BTreeMap.{map_ext}
use finality_grandpa.VoterSet.{new, finish_some}
use finality_grandpa.VoterSet.Tally.{add_all_start, info_of, sum, weight_of}

module _ {ℓ} {VoterId : Type ℓ} where
  sum-perm : {ws us : List (VoterId × ℕ)} → Permᴰ ws us → sum ws ≡ sum us
  sum-perm Permᴰ.nil = refl
  sum-perm (Permᴰ.cons e p) = rw e (omega (arith, sum-perm p))
  sum-perm (Permᴰ.swap e e') = rw (e, e') (omega arith)
  sum-perm (Permᴰ.trans p q) = sum-perm p ∙ sum-perm q

module _ {ℓ} {VoterId : Type ℓ} ⦃o : Ord VoterId⦄ where
  weight_of-perm :
      {ws us : List (VoterId × ℕ)} (j : VoterId) → Permᴰ ws us → weight_of ws j ≡ weight_of us j
  weight_of-perm j Permᴰ.nil = refl
  weight_of-perm j (Permᴰ.cons e p) = rw e (omega (arith, weight_of-perm j p))
  weight_of-perm j (Permᴰ.swap e e') = rw (e, e') (omega arith)
  weight_of-perm j (Permᴰ.trans p q) = weight_of-perm j p ∙ weight_of-perm j q

  -- Two distributions with the same total and the same sum for each id make the same voter set.
  new_cong :
      (ws us : List (VoterId × ℕ))
      → sum ws ≡ sum us
      → ((j : VoterId) → weight_of ws j ≡ weight_of us j)
      → new ws ≡ new us
  unfolding new finish_some
  new_cong ws us e h = elim (add_all_start ws) [
    | inl (big, a) ↦ elim (add_all_start us) [
      | inl (_, b) ↦ rw (a, b)
      | inr (n, b, t) ↦ absurd (omega arith)
    ]
    | inr (m, a, s) ↦ elim (add_all_start us) [
      | inl (big, b) ↦ absurd (omega arith)
      | inr (n, b, t) ↦
          let same =
            map_ext m n s.sorted t.sorted
              (λ j. s.entries j ∙ ap info_of (h j) ∙ sym (t.entries j)) in
          rw (a, b, same, e)
    ]
  ]

  -- A distribution that is given in another order makes the same voter set, or none.
  pub new-perm : (ws us : List (VoterId × ℕ)) → Perm ws us → new ws ≡ new us
  new-perm ws us p =
      new_cong ws us (∥∥₁_elim p (ℕ_set _ _) sum-perm)
        (λ j. ∥∥₁_elim p (ℕ_set _ _) (weight_of-perm j))
