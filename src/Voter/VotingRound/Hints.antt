-- ===== src/Voter/VotingRound/Hints.antt =====
-- Which block a round prevotes above: the estimate of the last round, or the block of the primary.
use finality_grandpa.Base.{
  ℕ, ◌+◌, ◌-◌, ◌<◌, true, false, Option, none, some, List, get_elem?, ◌≡◌, ◌⊎◌, inl, inr, refl, sym,
  ap, ◌∙◌, arith, Ord, ok, eqb, eqb_iff, ltb, leb, Bool-cases, Option-cases, Outcome-cases,
}
use finality_grandpa.Chain.{Chain}
use finality_grandpa.Round.State as RoundState
use finality_grandpa.Round.State.{same_block}
use finality_grandpa.Voter.VotingRound.Construct.{
  at_primary, primary_or_estimate, find_descendent_of,
}

ok_same {ℓ} : {A : Type ℓ} (a b : A) → ok a ≡ ok b → a ≡ b
ok_same a b e = cc

module _ {ℓ} {H : Type ℓ} ⦃oh : Ord H⦄ where
  -- The block of the primary is the prevote-GHOST of the last round, or stands at its number in the
  -- ancestry from there to the estimate.
  abbrev pub IsHint : Chain H → H × ℕ → H × ℕ → H × ℕ → Type ℓ
  IsHint chain estimate ghost primary =
      (primary ≡ ghost)
      ⊎ ((ancestry : List H) × (chain.ancestry (estimate.0) (ghost.0) ≡ ok ancestry)
          × (primary.1 < ghost.1)
          × (get_elem? ancestry (ghost.1 - (primary.1 + 1)) ≡ some (primary.0)))

  same_block-same : (a b : H × ℕ) → same_block a b ≡ true → a ≡ b
  same_block-same a b e = ground (arith, oh.cmp_eq (a.0) (b.0), e)

  at_primary_lem :
      (ancestry : List H) (ghost_number primary_number : ℕ)
      → primary_number < ghost_number
      → at_primary ancestry ghost_number primary_number
        ≡ get_elem? ancestry (ghost_number - (primary_number + 1))
  unfolding at_primary
  at_primary_lem ancestry g p below = let enough : ltb g (p + 1) ≡ false = ground arith in rw enough

  primary_or_estimate_lem :
      (chain : Chain H) (estimate ghost primary : H × ℕ) (h : H)
      → primary_or_estimate chain estimate ghost primary ≡ ok h
      → (h ≡ estimate.0) ⊎ ((h ≡ primary.0) × IsHint chain estimate ghost primary)
  unfolding primary_or_estimate
  primary_or_estimate_lem chain estimate ghost primary h e =
      elim (Bool-cases (same_block primary ghost)) [
        | inl same ↦ inr (
          sym (ok_same _ _ (rw (same, primary_or_estimate) at e)),
          inl (same_block-same primary ghost same),
        )
        | inr other ↦ elim (Bool-cases (leb (ghost.1) (primary.1))) [
          | inl above ↦ inl (sym (ok_same _ _ (rw (other, above, primary_or_estimate) at e)))
          | inr below ↦ elim (Outcome-cases (chain.ancestry (estimate.0) (ghost.0))) [
            | inr (inl (x, e')) ↦
                inl (sym (ok_same _ _ (rw (other, below, e', primary_or_estimate) at e)))
            | inr (inr e') ↦ ground (arith, (rw (other, below, e', primary_or_estimate) at e))
            | inl (ancestry, e') ↦
                let under : primary.1 < ghost.1 = ground (arith, below) in
                elim (Option-cases (at_primary ancestry (ghost.1) (primary.1))) [
                  | inl e'' ↦
                      inl (sym (ok_same _ _ (rw (other, below, e', e'', primary_or_estimate) at e)))
                  | inr (b, e'') ↦ elim (Bool-cases (eqb b (primary.0))) [
                    | inr differs ↦ inl (
                        sym (
                          ok_same _ _
                            (rw (other, below, e', e'', differs, primary_or_estimate) at e)))
                    | inl equal ↦ inr (
                      sym (
                          ok_same _ _
                            (rw (other, below, e', e'', equal, primary_or_estimate) at e)),
                      inr (
                        ancestry,
                        e',
                        under,
                        sym (at_primary_lem ancestry (ghost.1) (primary.1) under)
                            ∙ e''
                            ∙ ap some ((eqb_iff b (primary.0)).0 equal),
                      ),
                    )
                  ]
                ]
          ]
        ]
      ]

  -- The block that `construct_prevote` asks the best chain for is that of the last round's estimate,
  -- or that of the primary, and then the last round has a prevote-GHOST that equals the primary's
  -- block or has it in its ancestry above the estimate, at its number.
  pub find_descendent_of_lem :
      (chain : Chain H) (last : RoundState.State H) (primary_block : Option (H × ℕ)) (h : H)
      → find_descendent_of chain last primary_block ≡ ok h
      → (estimate : H × ℕ) × (last.estimate ≡ some estimate)
        × ((h ≡ estimate.0)
            ⊎ ((primary ghost : H × ℕ) × (primary_block ≡ some primary)
                × (last.prevote_ghost ≡ some ghost)
                × (h ≡ primary.0)
                × IsHint chain estimate ghost primary))
  unfolding find_descendent_of
  find_descendent_of_lem chain last none h e = elim (Option-cases last.estimate) [
    | inl e' ↦ ground (arith, e, e')
    | inr (estimate, e') ↦ (estimate, e', inl (ground (arith, e, e')))
  ]
  find_descendent_of_lem chain last (some primary) h e = elim (Option-cases last.estimate) [
    | inl e' ↦ ground (arith, e, e')
    | inr (estimate, e') ↦ elim (Option-cases last.prevote_ghost) [
      | inl e'' ↦ ground (arith, e, e', e'')
      | inr (ghost, e'') ↦
          let computes : primary_or_estimate chain estimate ghost primary ≡ ok h =
            sym (simp (e', e'')) ∙ e in
          (
            estimate,
            e',
            elim (primary_or_estimate_lem chain estimate ghost primary h computes) [
              | inl same ↦ inl same
              | inr (same, hint) ↦ inr (primary, ghost, refl, e'', same, hint)
            ],
          )
    ]
  ]
