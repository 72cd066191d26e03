-- ===== src/Voter/VotingRound/Notify.antt =====
-- The notifications of a voting round, and its poll.
use finality_grandpa.Base.{
  ℕ, Bool, true, false, not, ◌&&◌, ◌||◌, leb, Option, none, some, List, [], ◌∷◌, ◌++◌, Ord, Eq,
  if◌then◌else◌,
}
use finality_grandpa.Messages.{Commit, SignedPrecommit}
use finality_grandpa.Round.State as RoundState
use finality_grandpa.Round.State.{same_block}
use finality_grandpa.Round.Finalizing.{finalizing_precommits}
use finality_grandpa.Voter.Call.{
  Poll, ready, pending, panicked, Call, pure, gets, modify, lift, ◌>>=◌, ◌>>◌,
}
use finality_grandpa.Voter.Bridge
use finality_grandpa.Voter.Bridge.{PriorView, LatterView}
use finality_grandpa.Voter.Environment.{Environment, Polled}
use finality_grandpa.Voter.VotingRound.{State, VotingRound, Running, change, poll_outgoing}
use finality_grandpa.Voter.VotingRound.Incoming.{process_incoming}
use finality_grandpa.Voter.VotingRound.Cast.{primary_propose, prevote, precommit}

abbrev pub same_flag : Bool → Bool → Bool
same_flag true b = b
same_flag false b = not b

module _ {ℓ} {H : Type ℓ} ⦃oh : Ord H⦄ where
  -- `==` of two optional blocks, and of two states of rounds.
  abbrev pub same_blocks : Option (H × ℕ) → Option (H × ℕ) → Bool
  same_blocks none none = true
  same_blocks none (some b) = false
  same_blocks (some a) none = false
  same_blocks (some a) (some b) = same_block a b

  abbrev pub same_state : RoundState.State H → RoundState.State H → Bool
  same_state a b =
      same_blocks a.prevote_ghost b.prevote_ghost
      && same_blocks a.finalized b.finalized
      && same_blocks a.estimate b.estimate
      && same_flag a.completable b.completable

module _ {ℓ} {VoterId H S T W O : Type ℓ} where
  -- Whether a round may notify: it has precommitted, or it cannot vote.
  unfoldable pub can_notify : VotingRound VoterId H S T W O → Bool
  can_notify r = elim r.last_round_state [
    | none ↦ true
    | some _ ↦ elim r.state [
      | some state ↦ elim state [ State.precommitted ↦ true | _ ↦ false ]
      | none ↦ false
    ]
  ]

module _ {ℓ} {VoterId H S T W O X : Type ℓ} where
  -- The update of the bridged round-state.
  unfoldable pub update_view :
      RoundState.State H → Option PriorView → Call X (Running VoterId H S T W O) (Unit {0})
  unfolding Bridge.update
  update_view new none = pure tt
  update_view new (some view) =
      modify (λ s. record s {
        shared = record s.shared { cells = Bridge.update view new s.shared.cells };
      })

  unfoldable pub update_unless :
      Bool → RoundState.State H → Call X (Running VoterId H S T W O) (Unit {0})
  unfolding update_view
  update_unless true new = pure tt
  update_unless false new = gets (λ s. s.round.bridged_round_state) >>= update_view new

  -- Notify that a block is finalized, with the commit that shows it.
  unfoldable pub send_finalized :
      H × ℕ
      → Option (List (SignedPrecommit H S VoterId))
      → Call X (Running VoterId H S T W O) (Unit {0})
  send_finalized f none = λ s. panicked
  send_finalized f (some precommits) =
      let commit : Commit H S VoterId = record {
        target_hash = f.0;
        target_number = f.1;
        precommits = precommits;
      } in
      gets (λ s. s.round.votes.round_number) >>= λ number.
      modify (λ s. record s {
        shared = record s.shared {
          notifications =
              s.shared.notifications
              ++ record { f_hash = f.0; f_num = f.1; round = number; commit = commit } ∷ [];
        };
      })
      >> change (λ r. record r { best_finalized = some commit })

  -- The clone of the state of the last round.
  unfoldable pub known_last :
      Option (RoundState.State H) → Call X (Running VoterId H S T W O) (Option (RoundState.State H))
  known_last none = λ s. panicked
  known_last (some last) = pure (some last)

  unfoldable pub read_view :
      Option LatterView → Call X (Running VoterId H S T W O) (Option (RoundState.State H))
  unfolding known_last Bridge.get
  read_view none = pure none
  read_view (some view) = gets (λ s. Bridge.get view s.shared.cells) >>= known_last

  unfoldable pub read_last : Call X (Running VoterId H S T W O) (Option (RoundState.State H))
  unfolding read_view
  read_last = gets (λ s. s.round.last_round_state) >>= read_view

module _ {ℓ} {H : Type ℓ} where
  -- Whether the estimate of the last round has been finalized.
  unfoldable pub last_round_estimate_finalized : Option (RoundState.State H) → Option (H × ℕ) → Bool
  last_round_estimate_finalized none finalized = true
  last_round_estimate_finalized (some last) finalized = elim last.estimate [
    | none ↦ false
    | some estimate ↦ elim last.finalized [
      | none ↦ false
      | some last_finalized ↦
          leb (estimate.1) (last_finalized.1)
          || elim finalized [ none ↦ false | some f ↦ leb (estimate.1) (f.1) ]
    ]
  ]

module _ {ℓ} {VoterId H S T W O : Type ℓ} ⦃oh : Ord H⦄ where
  -- The tests of `notify`.
  unfoldable pub should_notify :
      VotingRound VoterId H S T W O → RoundState.State H → RoundState.State H → Bool
  unfolding can_notify
  should_notify r last new =
      let state_changed = not (same_blocks last.finalized new.finalized) in
      let unsent = elim r.best_finalized as (λ x. Bool) [ none ↦ true | some _ ↦ false ] in
      new.completable && (state_changed || unsent) && can_notify r

module _ {ℓ} {VoterId H S T W O X : Type ℓ} ⦃oh : Ord H⦄ where
  -- The notification, if there is a reason for one and a block is finalized.
  unfoldable pub notify_if :
      Environment VoterId H T W O X
      → Option (H × ℕ)
      → Bool
      → Call X (Running VoterId H S T W O) (Unit {0})
  unfolding send_finalized
  notify_if env finalized false = pure tt
  notify_if env none true = pure tt
  notify_if env (some f) true = gets (λ s. s.round.votes) >>= λ votes.
      lift env.from (finalizing_precommits votes env.chain) >>= send_finalized f

  -- `VotingRound::notify`
  unfoldable pub notify :
      Environment VoterId H T W O X
      → RoundState.State H
      → RoundState.State H
      → Call X (Running VoterId H S T W O) (Unit {0})
  unfolding update_unless notify_if should_notify
  notify env last new = update_unless (same_state last new) new >> gets (λ s. s.round) >>= λ r.
      notify_if env new.finalized (should_notify r last new)

module _ {ℓ} {VoterId H S T W O X : Type ℓ} ⦃oi : Ord VoterId⦄ ⦃oh : Ord H⦄ ⦃es : Eq S⦄ where
  -- The votes that `poll` casts, which it does only with a state of the last round.
  unfoldable pub cast_votes :
      Environment VoterId H T W O X
      → Polled VoterId H S T W O X
      → Option (RoundState.State H)
      → Call X (Running VoterId H S T W O) (Unit {0})
  unfolding primary_propose prevote precommit
  cast_votes env polled none = pure tt
  cast_votes env polled (some last) =
      primary_propose polled last >> prevote env polled last >> precommit env polled last

  -- `poll` from the moment when the outgoing messages have been flushed.
  unfoldable pub conclude :
      Environment VoterId H T W O X
      → Polled VoterId H S T W O X
      → RoundState.State H
      → Option (RoundState.State H)
      → Poll (Unit {0})
      → Call X (Running VoterId H S T W O) (Poll (Unit {0}))
  unfolding process_incoming notify RoundState.state
  conclude env polled pre last pending = pure pending
  conclude env polled pre last (ready _) =
      process_incoming env polled.incoming_again
      >> gets (λ s. RoundState.state s.round.votes)
      >>= λ post. notify env pre post >> gets (λ s. s.round.votes) >>= λ votes. pure (
          if votes.completable && last_round_estimate_finalized last votes.finalized
          then ready tt
          else pending)

  -- `VotingRound::poll`
  unfoldable pub poll :
      Environment VoterId H T W O X
      → Polled VoterId H S T W O X
      → Call X (Running VoterId H S T W O) (Poll (Unit {0}))
  unfolding process_incoming read_last cast_votes poll_outgoing conclude RoundState.state
  poll env polled = gets (λ s. RoundState.state s.round.votes) >>= λ pre.
      process_incoming env polled.incoming >> read_last >>= λ last.
      cast_votes env polled last >> poll_outgoing polled.sink >>= λ flushed.
      conclude env polled pre last flushed
