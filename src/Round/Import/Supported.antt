-- ===== src/Round/Import/Supported.antt =====
-- Which rounds are completable.
use finality_grandpa.Base.{
  ℕ, ◌≤◌, true, false, Option, none, some, Ord, Eq, ok, Attempt, ◌≡◌, ◌⊎◌, refl, sym, subst, ◌>>=◌,
  Ensures, Ensures-imp, Ensures-all, Ensures->>=, anything, Option-cases, Bool-cases, Outcome-cases,
  inl, inr, arith, leb→le,
}
use finality_grandpa.Weights.{u64_max, reaches}
use finality_grandpa.VoterSet
use finality_grandpa.VoterSet.{VoterInfo}
use finality_grandpa.Chain.{Chain}
use finality_grandpa.Messages.{prevote_eq, precommit_eq, Prevote, Precommit}
use finality_grandpa.VoteGraph.Insert as VoteGraph
use finality_grandpa.VoteGraph.Ancestor.{find_ancestor}
use finality_grandpa.VoteGraph.Ghost.{find_ghost}
use finality_grandpa.Round.Context
use finality_grandpa.Round.Context.{Phase, vote, add_vote}
use finality_grandpa.Round.Tracker
use finality_grandpa.Round.Tracker.{VoteTracker, VoteMultiplicity}
use finality_grandpa.Round.State.{
  node_data, Round, threshold, has_supermajority, possible_to_precommit, is_completable,
  update_estimate, update,
}
use finality_grandpa.Round.State.Estimate.{update_cases}
use finality_grandpa.Round.Import.{
  import_prevote, import_precommit, record_prevote, record_precommit, update_prevote_ghost,
}
use finality_grandpa.Round.Import.Weighted.{if_recorded}

module _ {ℓ κ μ} {VoterId : Type ℓ} {H : Type κ} {S : Type μ} where
  -- The prevotes and precommits reach the threshold, and there is an estimate.
  abbrev pub HasSupport : Round VoterId H S → Type κ
  HasSupport r =
      (threshold r ≤ r.prevote.current_weight)
      × (threshold r ≤ r.precommit.current_weight)
      × ((e : H × ℕ) × (r.estimate ≡ some e))

  abbrev pub Completes : Round VoterId H S → Type κ
  Completes r = r.completable ≡ true → HasSupport r

  -- A round is not completable or has support.
  abbrev pub IsSupported : Round VoterId H S → Type κ
  IsSupported r = (r.completable ≡ false) ⊎ HasSupport r

  IsSupported-Completes : (r : Round VoterId H S) → IsSupported r → Completes r
  IsSupported-Completes r (inl incomplete) complete = ground (arith, incomplete, complete)
  IsSupported-Completes r (inr support) complete = support

  Completes-IsSupported : (r : Round VoterId H S) → Completes r → IsSupported r
  Completes-IsSupported r h = elim (Bool-cases r.completable) [
    | inl complete ↦ inr (h complete)
    | inr incomplete ↦ inl incomplete
  ]

module _ {ℓ κ μ} {VoterId : Type ℓ} {V : Type κ} {S : Type μ} ⦃oi : Ord VoterId⦄ ⦃ev : Eq V⦄
    ⦃es : Eq S⦄ where
  -- A tracker that reaches a 64-bit threshold still reaches it with another vote.
  add_vote-le :
      (t : VoteTracker VoterId V S) (id : VoterId) (v : V) (signature : S) (weight bound : ℕ)
      → bound ≤ u64_max
      → bound ≤ t.current_weight
      → bound ≤ (Tracker.add_vote t id v signature weight).0.current_weight
  unfolding Tracker.add_vote
  add_vote-le t id v signature weight bound le h = ground arith

module _ {ℓ κ μ} {VoterId : Type ℓ} {H : Type κ} {S : Type μ} ⦃oh : Ord H⦄ where
  is_completable-some :
      (r : Round VoterId H S) (ghost : H × ℕ) (estimate : Option (H × ℕ))
      → Ensures
          (λ b. b ≡ true → (e : H × ℕ) × (estimate ≡ some e))
          (is_completable r ghost estimate)
  unfolding is_completable
  is_completable-some r ghost none = λ e. cc
  is_completable-some r ghost (some e) =
      Ensures-all {P = λ b. b ≡ true → (x : H × ℕ) × (some e ≡ some x)}
        (is_completable r ghost (some e)) (λ b complete. (e, refl))

  update_estimate-Completes :
      (r : Round VoterId H S) (ghost : H × ℕ)
      → threshold r ≤ r.prevote.current_weight
      → threshold r ≤ r.precommit.current_weight
      → Ensures Completes (update_estimate r ghost)
  unfolding update_estimate
  update_estimate-Completes r ghost prevotes precommits =
      Ensures->>= (λ _. Unit {0}) Completes
        (find_ancestor r.graph (ghost.0) (ghost.1) (has_supermajority r Phase.precommit)) _
        (anything _)
        λ finalized _.
          Ensures->>= (λ _. Unit {0}) Completes
            (find_ancestor r.graph (ghost.0) (ghost.1) (possible_to_precommit r)) _ (anything _)
            λ estimate _.
              Ensures->>= (λ b. b ≡ true → (e : H × ℕ) × (estimate ≡ some e)) Completes
                (is_completable r ghost estimate)
                (λ completable. ok (record r {
                  finalized = finalized;
                  estimate = estimate;
                  completable = completable;
                }))
                (is_completable-some r ghost estimate)
                (λ completable found complete. (prevotes, precommits, found complete))

  pub update-Completes : (r : Round VoterId H S) → Completes r → Ensures Completes (update r)
  unfolding update
  update-Completes r h = elim (Bool-cases (reaches r.prevote.current_weight (threshold r))) [
    | inr few ↦ rw (few, update) h
    | inl many ↦ elim (update_cases r) [
      | inl e ↦ subst (Ensures Completes) (sym e) h
      | inr (inl (ghost, _, _, e)) ↦
          subst (Ensures Completes) (sym e)
            (λ complete. ((h complete).0, (h complete).1, (ghost, refl)))
      | inr (inr (ghost, _, enough, e)) ↦
          subst (Ensures Completes) (sym e)
            (update_estimate-Completes r ghost (leb→le _ _ many) (leb→le _ _ enough))
    ]
  ]

module _ {ℓ κ μ} {VoterId : Type ℓ} {H : Type κ} {S : Type μ} ⦃oi : Ord VoterId⦄ ⦃oh : Ord H⦄
    ⦃es : Eq S⦄ where
  record_prevote-Completes :
      (chain : Chain H) (r : Round VoterId H S) (info : VoterInfo) (v : Prevote H)
      (signer : VoterId) (signature : S) (m : VoteMultiplicity (Prevote H) S)
      → Completes r
      → Ensures (λ p. Completes (p.0)) (record_prevote chain r info v signer signature m)
  unfolding record_prevote Context.equivocated
  record_prevote-Completes chain r info v signer signature (VoteMultiplicity.single w s) h =
      elim (Outcome-cases (
        VoteGraph.insert add_vote r.graph w.target_hash w.target_number (vote info Phase.prevote)
          chain)) [
            | inl (g, e) ↦ rw (e, record_prevote) h
            | inr (inl (x, e)) ↦ rw (e, record_prevote) h
            | inr (inr e) ↦ rw (e, record_prevote) tt
          ]
  record_prevote-Completes chain r info v signer signature (VoteMultiplicity.equivocated a b) h = h

  record_precommit-Completes :
      (chain : Chain H) (r : Round VoterId H S) (info : VoterInfo) (v : Precommit H)
      (signer : VoterId) (signature : S) (m : VoteMultiplicity (Precommit H) S)
      → Completes r
      → Ensures (λ p. Completes (p.0)) (record_precommit chain r info v signer signature m)
  unfolding record_precommit Context.equivocated
  record_precommit-Completes chain r info v signer signature (VoteMultiplicity.single w s) h =
      elim (Outcome-cases (
        VoteGraph.insert add_vote r.graph w.target_hash w.target_number (vote info Phase.precommit)
          chain)) [
            | inl (g, e) ↦ rw (e, record_precommit) h
            | inr (inl (x, e)) ↦ rw (e, record_precommit) h
            | inr (inr e) ↦ rw (e, record_precommit) tt
          ]
  record_precommit-Completes chain r info v signer signature (VoteMultiplicity.equivocated a b) h =
      h

  update_prevote_ghost-Completes :
      (r : Round VoterId H S) → Completes r → Ensures Completes (update_prevote_ghost r)
  unfolding update_prevote_ghost
  update_prevote_ghost-Completes r h =
      elim (Bool-cases (reaches r.prevote.current_weight (threshold r))) [
        | inr few ↦ rw (few, update_prevote_ghost) h
        | inl many ↦
            rw (many, update_prevote_ghost)
              (Ensures->>= (λ _. Unit {0}) Completes
                (find_ghost r.graph r.prevote_ghost (has_supermajority r Phase.prevote)) _
                (anything _) (λ ghost _. h))
      ]

  updated-Completes {ν} :
      {R : Type ν} (r : Round VoterId H S) (a : Attempt R)
      → Completes r
      → Ensures
          (λ (p : Round VoterId H S × Attempt R). Completes (p.0))
          (update r >>= λ updated. ok (updated, a))
  updated-Completes r a h =
      Ensures->>= Completes (λ p. Completes (p.0)) (update r) _ (update-Completes r h)
        (λ updated h'. h')

  -- An import of a prevote keeps that a completable round is supported.
  pub import_prevote-Completes :
      (chain : Chain H) (r : Round VoterId H S) (v : Prevote H) (signer : VoterId) (signature : S)
      → threshold r ≤ u64_max
      → Completes r
      → Ensures (λ p. Completes (p.0)) (import_prevote chain r v signer signature)
  unfolding import_prevote
  import_prevote-Completes chain r v signer signature bound h =
      elim (Option-cases (VoterSet.get r.context.voters signer)) [
        | inl e ↦ rw (e, import_prevote) h
        | inr (info, voter) ↦
            let added = Tracker.add_vote r.prevote signer v signature info.weight in
            let counted = record r { prevote = added.0 } in
            let h' : Completes counted = λ complete. (
              add_vote-le r.prevote signer v signature info.weight (threshold r) bound
                  ((h complete).0),
              (h complete).1,
              (h complete).2,
            ) in
            elim (Option-cases added.1.multiplicity) [
              | inl e ↦ rw (voter, import_prevote) (rw e h')
              | inr (m, e) ↦
                  rw (voter, import_prevote)
                    (rw e (
                      Ensures->>= (λ p. Completes (p.0)) (λ p. Completes (p.0))
                        (record_prevote chain counted info v signer signature m) _
                        (record_prevote-Completes chain counted info v signer signature m h')
                        λ recorded k.
                          if_recorded Completes (recorded.0) (recorded.1) _ k (λ equivocation.
                            Ensures->>= Completes (λ p. Completes (p.0))
                              (update_prevote_ghost (recorded.0)) _
                              (update_prevote_ghost-Completes (recorded.0) k)
                              (λ ghosted k'. updated-Completes ghosted _ k'))))
            ]
      ]

  -- An import of a precommit keeps that a completable round is supported.
  pub import_precommit-Completes :
      (chain : Chain H) (r : Round VoterId H S) (v : Precommit H) (signer : VoterId) (signature : S)
      → threshold r ≤ u64_max
      → Completes r
      → Ensures (λ p. Completes (p.0)) (import_precommit chain r v signer signature)
  unfolding import_precommit
  import_precommit-Completes chain r v signer signature bound h =
      elim (Option-cases (VoterSet.get r.context.voters signer)) [
        | inl e ↦ rw (e, import_precommit) h
        | inr (info, voter) ↦
            let added = Tracker.add_vote r.precommit signer v signature info.weight in
            let counted = record r { precommit = added.0 } in
            let h' : Completes counted = λ complete. (
              (h complete).0,
              add_vote-le r.precommit signer v signature info.weight (threshold r) bound
                  ((h complete).1),
              (h complete).2,
            ) in
            elim (Option-cases added.1.multiplicity) [
              | inl e ↦ rw (voter, import_precommit) (rw e h')
              | inr (m, e) ↦
                  rw (voter, import_precommit)
                    (rw e (
                      Ensures->>= (λ p. Completes (p.0)) (λ p. Completes (p.0))
                        (record_precommit chain counted info v signer signature m) _
                        (record_precommit-Completes chain counted info v signer signature m h')
                        λ recorded k.
                          if_recorded Completes (recorded.0) (recorded.1) _ k
                            (λ equivocation. updated-Completes (recorded.0) _ k)))
            ]
      ]

  -- An import of a prevote, when it returns, with an error or without one, keeps that a round either is
  -- not completable or has an estimate and prevotes and precommits that reach the threshold, if the
  -- threshold is a 64-bit number.
  pub import_prevote-IsSupported :
      (chain : Chain H) (r : Round VoterId H S) (v : Prevote H) (signer : VoterId) (signature : S)
      → threshold r ≤ u64_max
      → IsSupported r
      → Ensures (λ p. IsSupported (p.0)) (import_prevote chain r v signer signature)
  import_prevote-IsSupported chain r v signer signature bound h =
      Ensures-imp (import_prevote chain r v signer signature)
        (import_prevote-Completes chain r v signer signature bound (IsSupported-Completes r h))
        (λ p h'. Completes-IsSupported (p.0) h')

  -- An import of a precommit, when it returns, with an error or without one, keeps that a round either is
  -- not completable or has an estimate and prevotes and precommits that reach the threshold, if the
  -- threshold is a 64-bit number.
  pub import_precommit-IsSupported :
      (chain : Chain H) (r : Round VoterId H S) (v : Precommit H) (signer : VoterId) (signature : S)
      → threshold r ≤ u64_max
      → IsSupported r
      → Ensures (λ p. IsSupported (p.0)) (import_precommit chain r v signer signature)
  import_precommit-IsSupported chain r v signer signature bound h =
      Ensures-imp (import_precommit chain r v signer signature)
        (import_precommit-Completes chain r v signer signature bound (IsSupported-Completes r h))
        (λ p h'. Completes-IsSupported (p.0) h')
