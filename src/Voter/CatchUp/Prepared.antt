-- ===== src/Voter/CatchUp/Prepared.antt =====
-- What the imports of a catch-up keep.
use finality_grandpa.Base.{
  ℕ, ◌≤◌, Option, none, some, List, [], ◌∷◌, Ord, Eq, Outcome, ok, err, panic, Attempt, done,
  failed, ◌≡◌, ◌∙◌, arith, Ensures, Ensures-imp, Ensures-both, Ensures->>=, Option-cases, inl, inr,
}
use finality_grandpa.Weights.{u64_max}
use finality_grandpa.VoterSet
use finality_grandpa.VoterSet.{VoterSet}
use finality_grandpa.VoterSet.Valid.{IsValid}
use finality_grandpa.VoterSet.Threshold.{threshold_of_eq}
use finality_grandpa.Chain.{Chain}
use finality_grandpa.Messages.{
  Prevote, Precommit, SignedPrevote, SignedPrecommit, prevote_eq, precommit_eq,
}
use finality_grandpa.Round.State.{Round}
use finality_grandpa.Round.Import.{ImportResult, import_prevote, import_precommit}
use finality_grandpa.Round.Import.Weighted.{import_prevote-Tracks, import_precommit-Tracks}
use finality_grandpa.Round.Import.Counted.{
  IsCounted, import_prevote-IsCounted, import_precommit-IsCounted,
}
use finality_grandpa.Round.Import.Supported.{
  Completes, import_prevote-Completes, import_precommit-Completes,
}
use finality_grandpa.Voter.CatchUp.{imported, import_prevotes, import_precommits}

module _ {ℓ} {VoterId : Type ℓ} ⦃oi : Ord VoterId⦄ where
  threshold-bound : (voters : VoterSet VoterId) → IsValid voters → voters.threshold ≤ u64_max
  threshold-bound voters valid = ground (
    arith,
    valid.supermajority,
    threshold_of_eq voters.total_weight valid.positive,
    valid.bounded,
  )

module _ {ℓ κ μ} {VoterId : Type ℓ} {H : Type κ} {S : Type μ} ⦃oi : Ord VoterId⦄ ⦃oh : Ord H⦄
    ⦃es : Eq S⦄ where
  -- A round of the number and the voters, with what every import keeps.
  pub record IsPrepared (voters : VoterSet VoterId) (number : ℕ) (r : Round VoterId H S)
      : Type (ℓ ⊔ κ) where
    pub of_voters : r.context.voters ≡ voters
    pub of_number : r.round_number ≡ number
    pub counted : IsCounted r
    pub supported : Completes r

  -- An imported round, if there is one, satisfies the predicate.
  abbrev pub Imports {ν} : (Round VoterId H S → Type ν) → Option (Round VoterId H S) → Type ν
  Imports P none = Unit
  Imports P (some r) = P r

  import_prevote-IsPrepared :
      (voters : VoterSet VoterId) (n : ℕ) (chain : Chain H) (r : Round VoterId H S) (v : Prevote H)
      (signer : VoterId) (signature : S)
      → IsPrepared voters n r
      → Ensures (λ p. IsPrepared voters n (p.0)) (import_prevote chain r v signer signature)
  unfolding import_prevote
  import_prevote-IsPrepared voters n chain r v signer signature h =
      elim (Option-cases (VoterSet.get r.context.voters signer)) [
        | inl e ↦ rw (e, import_prevote) h
        | inr (info, e) ↦
            Ensures-imp (import_prevote chain r v signer signature)
              (Ensures-both _ _ (import_prevote chain r v signer signature)
                (import_prevote-Tracks chain r v signer signature info e)
                (Ensures-both _ _ (import_prevote chain r v signer signature)
                  (import_prevote-IsCounted chain r v signer signature h.counted)
                  (import_prevote-Completes chain r v signer signature
                    (threshold-bound r.context.voters h.counted.valid) h.supported)))
              λ p (t, (c, s)). record {
                of_voters = t.voters ∙ h.of_voters;
                of_number = t.number ∙ h.of_number;
                counted = c;
                supported = s;
              }
      ]

  import_precommit-IsPrepared :
      (voters : VoterSet VoterId) (n : ℕ) (chain : Chain H) (r : Round VoterId H S)
      (v : Precommit H) (signer : VoterId) (signature : S)
      → IsPrepared voters n r
      → Ensures (λ p. IsPrepared voters n (p.0)) (import_precommit chain r v signer signature)
  unfolding import_precommit
  import_precommit-IsPrepared voters n chain r v signer signature h =
      elim (Option-cases (VoterSet.get r.context.voters signer)) [
        | inl e ↦ rw (e, import_precommit) h
        | inr (info, e) ↦
            Ensures-imp (import_precommit chain r v signer signature)
              (Ensures-both _ _ (import_precommit chain r v signer signature)
                (import_precommit-Tracks chain r v signer signature info e)
                (Ensures-both _ _ (import_precommit chain r v signer signature)
                  (import_precommit-IsCounted chain r v signer signature h.counted)
                  (import_precommit-Completes chain r v signer signature
                    (threshold-bound r.context.voters h.counted.valid) h.supported)))
              λ p (t, (c, s)). record {
                of_voters = t.voters ∙ h.of_voters;
                of_number = t.number ∙ h.of_number;
                counted = c;
                supported = s;
              }
      ]

  pub then_next {ν ρ} :
      (P : Round VoterId H S → Type ν) (Q : Round VoterId H S → Type ρ)
      (next : Option (Round VoterId H S))
      (f : Round VoterId H S → Outcome (Option (Round VoterId H S)))
      → Imports P next
      → ((r : Round VoterId H S) → P r → Ensures (Imports Q) (f r))
      → Ensures (Imports Q) (elim next [ none ↦ ok none | some r ↦ f r ])
  then_next P Q none f h k = tt
  then_next P Q (some r) f h k = k r h

  imported-IsPrepared {ν} :
      {P : Type ν} (voters : VoterSet VoterId) (n : ℕ)
      (m : Outcome (Round VoterId H S × Attempt (ImportResult VoterId P S)))
      → Ensures (λ p. IsPrepared voters n (p.0)) m
      → Ensures (Imports (IsPrepared voters n)) (imported m)
  unfolding imported
  imported-IsPrepared voters n (ok (r, done _)) h = h
  imported-IsPrepared voters n (ok (r, failed _)) h = tt
  imported-IsPrepared voters n (err _) h = tt
  imported-IsPrepared voters n panic h = tt

  pub import_prevotes-IsPrepared :
      (voters : VoterSet VoterId) (n : ℕ) (chain : Chain H) (ps : List (SignedPrevote H S VoterId))
      (r : Round VoterId H S)
      → IsPrepared voters n r
      → Ensures (Imports (IsPrepared voters n)) (import_prevotes chain ps r)
  unfolding import_prevotes
  import_prevotes-IsPrepared voters n chain [] r h = h
  import_prevotes-IsPrepared voters n chain (s ∷ more) r h =
      Ensures->>= (Imports (IsPrepared voters n)) (Imports (IsPrepared voters n))
        (imported (import_prevote chain r s.prevote s.id s.signature)) _
        (imported-IsPrepared voters n (import_prevote chain r s.prevote s.id s.signature)
          (import_prevote-IsPrepared voters n chain r s.prevote s.id s.signature h))
        (λ next h'.
          then_next (IsPrepared voters n) (IsPrepared voters n) next (import_prevotes chain more) h'
            (import_prevotes-IsPrepared voters n chain more))

  pub import_precommits-IsPrepared :
      (voters : VoterSet VoterId) (n : ℕ) (chain : Chain H)
      (ps : List (SignedPrecommit H S VoterId)) (r : Round VoterId H S)
      → IsPrepared voters n r
      → Ensures (Imports (IsPrepared voters n)) (import_precommits chain ps r)
  unfolding import_precommits
  import_precommits-IsPrepared voters n chain [] r h = h
  import_precommits-IsPrepared voters n chain (s ∷ more) r h =
      Ensures->>= (Imports (IsPrepared voters n)) (Imports (IsPrepared voters n))
        (imported (import_precommit chain r s.precommit s.id s.signature)) _
        (imported-IsPrepared voters n (import_precommit chain r s.precommit s.id s.signature)
          (import_precommit-IsPrepared voters n chain r s.precommit s.id s.signature h))
        (λ next h'.
          then_next (IsPrepared voters n) (IsPrepared voters n) next (import_precommits chain more)
            h' (import_precommits-IsPrepared voters n chain more))
