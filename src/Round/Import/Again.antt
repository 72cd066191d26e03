-- ===== src/Round/Import/Again.antt =====
-- The import of a vote that the round has.
use finality_grandpa.Base.{
  true, none, some, Ord, Eq, ok, Attempt, done, ◌≡◌, refl, sym, subst, ap, ◌∙◌, Ensures-ok,
}
use finality_grandpa.Base.BTreeMap
use finality_grandpa.Base.BTreeMap.{get-insert_self}
use finality_grandpa.Weights.{VoterWeight}
use finality_grandpa.VoterSet
use finality_grandpa.VoterSet.{VoterSet, VoterInfo}
use finality_grandpa.Chain.{Chain}
use finality_grandpa.Messages.{Prevote, Precommit, prevote_eq, precommit_eq}
use finality_grandpa.Round.Tracker
use finality_grandpa.Round.Tracker.{VoteTracker, VoteMultiplicity, AddVoteResult}
use finality_grandpa.Round.State.{Round, node_data}
use finality_grandpa.Round.Import.{ImportResult, import_prevote, import_precommit}
use finality_grandpa.Round.Import.Weighted.{import_prevote-Tracks, import_precommit-Tracks}

module _ {κ μ} {V : Type κ} {S : Type μ} where
  abbrev pub no_new_vote : AddVoteResult V S
  no_new_vote = record { multiplicity = none; duplicated = true }

-- The result of the import of a vote that the round has.
abbrev pub known_vote {ℓ κ μ} :
    {VoterId : Type ℓ} {P : Type κ} {S : Type μ} → ImportResult VoterId P S
known_vote = record { valid_voter = true; duplicated = true; equivocation = none }

module _ {ℓ κ μ} {VoterId : Type ℓ} {V : Type κ} {S : Type μ} ⦃o : Ord VoterId⦄ ⦃ev : Eq V⦄
    ⦃es : Eq S⦄ where
  add_vote_again :
      (t : VoteTracker VoterId V S) (id : VoterId) (v : V) (s : S) (w w' : VoterWeight)
      → BTreeMap.get t.votes id ≡ none
      → Tracker.add_vote (Tracker.add_vote t id v s w).0 id v s w'
        ≡ ((Tracker.add_vote t id v s w).0, no_new_vote)
  unfolding Tracker.add_vote Tracker.contains
  add_vote_again t id v s w w' new =
      rw
        (
          new,
          get-insert_self t.votes id (VoteMultiplicity.single v s),
          (ev.beq_iff v v).1 refl,
          (es.beq_iff s s).1 refl,
          Tracker.add_vote,
        )
        (rw (new, Tracker.add_vote))

module _ {ℓ κ μ} {VoterId : Type ℓ} {H : Type κ} {S : Type μ} ⦃oi : Ord VoterId⦄ ⦃oh : Ord H⦄
    ⦃es : Eq S⦄ where
  import_precommit_known :
      (chain : Chain H) (r : Round VoterId H S) (v : Precommit H) (signer : VoterId) (signature : S)
      (info : VoterInfo)
      → VoterSet.get r.context.voters signer ≡ some info
      → Tracker.add_vote r.precommit signer v signature info.weight ≡ (r.precommit, no_new_vote)
      → import_precommit chain r v signer signature ≡ ok (r, done known_vote)
  unfolding import_precommit
  import_precommit_known chain r v signer signature info voter e =
      let grown : VoteTracker VoterId (Precommit H) S × AddVoteResult (Precommit H) S =
        Tracker.add_vote r.precommit signer v signature info.weight in
      let same : grown.0 ≡ r.precommit = ap (λ p. p.0) e in
      let result : grown.1 ≡ no_new_vote = ap (λ p. p.1) e in
      rw (voter, import_precommit)
        (rw (ap (λ x. x.multiplicity) result) (rw (ap (λ x. x.duplicated) result) (rw same refl)))

  -- Importing the first precommit of a voter a second time, after the first import returned, with an
  -- error of the chain or without one, leaves the round as it is and reports a duplicate.
  pub import_precommit_again :
      (chain : Chain H) (r : Round VoterId H S) (v : Precommit H) (signer : VoterId) (signature : S)
      (info : VoterInfo)
      (first : Round VoterId H S × Attempt (ImportResult VoterId (Precommit H) S))
      → VoterSet.get r.context.voters signer ≡ some info
      → BTreeMap.get r.precommit.votes signer ≡ none
      → import_precommit chain r v signer signature ≡ ok first
      → import_precommit chain (first.0) v signer signature ≡ ok (first.0, done known_vote)
  import_precommit_again chain r v signer signature info first voter new e =
      let t =
        Ensures-ok _ _ first e (import_precommit-Tracks chain r v signer signature info voter) in
      import_precommit_known chain (first.0) v signer signature info
        (ap (λ (u : VoterSet VoterId). VoterSet.get u signer) t.voters ∙ voter)
        (subst
          (λ (u : VoteTracker VoterId (Precommit H) S).
            Tracker.add_vote u signer v signature info.weight ≡ (u, no_new_vote))
          (sym t.precommits_eq)
          (add_vote_again r.precommit signer v signature info.weight info.weight new))

  import_prevote_known :
      (chain : Chain H) (r : Round VoterId H S) (v : Prevote H) (signer : VoterId) (signature : S)
      (info : VoterInfo)
      → VoterSet.get r.context.voters signer ≡ some info
      → Tracker.add_vote r.prevote signer v signature info.weight ≡ (r.prevote, no_new_vote)
      → import_prevote chain r v signer signature ≡ ok (r, done known_vote)
  unfolding import_prevote
  import_prevote_known chain r v signer signature info voter e =
      let grown : VoteTracker VoterId (Prevote H) S × AddVoteResult (Prevote H) S =
        Tracker.add_vote r.prevote signer v signature info.weight in
      let same : grown.0 ≡ r.prevote = ap (λ p. p.0) e in
      let result : grown.1 ≡ no_new_vote = ap (λ p. p.1) e in
      rw (voter, import_prevote)
        (rw (ap (λ x. x.multiplicity) result) (rw (ap (λ x. x.duplicated) result) (rw same refl)))

  -- Importing the first prevote of a voter a second time, after the first import returned, with an
  -- error of the chain or without one, leaves the round as it is and reports a duplicate.
  pub import_prevote_again :
      (chain : Chain H) (r : Round VoterId H S) (v : Prevote H) (signer : VoterId) (signature : S)
      (info : VoterInfo) (first : Round VoterId H S × Attempt (ImportResult VoterId (Prevote H) S))
      → VoterSet.get r.context.voters signer ≡ some info
      → BTreeMap.get r.prevote.votes signer ≡ none
      → import_prevote chain r v signer signature ≡ ok first
      → import_prevote chain (first.0) v signer signature ≡ ok (first.0, done known_vote)
  import_prevote_again chain r v signer signature info first voter new e =
      let t =
        Ensures-ok _ _ first e (import_prevote-Tracks chain r v signer signature info voter) in
      import_prevote_known chain (first.0) v signer signature info
        (ap (λ (u : VoterSet VoterId). VoterSet.get u signer) t.voters ∙ voter)
        (subst
          (λ (u : VoteTracker VoterId (Prevote H) S).
            Tracker.add_vote u signer v signature info.weight ≡ (u, no_new_vote))
          (sym t.prevotes_eq)
          (add_vote_again r.prevote signer v signature info.weight info.weight new))
