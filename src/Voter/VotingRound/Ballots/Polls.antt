-- ===== src/Voter/VotingRound/Ballots/Polls.antt =====
-- A poll of a voting round casts its votes in the order of its stages, and so do many polls.
use mathlib.Core.List.{append-nil}
use finality_grandpa.Base.{ℕ, Bool, true, false, Option, none, some, List, [], sym, arith, Ord, Eq}
use finality_grandpa.Messages.{Message, SignedPrecommit}
use finality_grandpa.Round.State as RoundState
use finality_grandpa.Round.State.{Round}
use finality_grandpa.Voter.Call.{
  Poll, ready, pending, Reply, returned, raised, panicked, Leaves, lift,
}
use finality_grandpa.Voter.Buffered
use finality_grandpa.Voter.Buffered.{Buffered, Sink}
use finality_grandpa.Voter.Environment.{Environment, Polled}
use finality_grandpa.Voter.VotingRound.{Running, store_outgoing, poll_outgoing}
use finality_grandpa.Round.Finalizing.{finalizing_precommits}
use finality_grandpa.Voter.Bridge.{PriorView, LatterView, update, get}
use finality_grandpa.Voter.VotingRound.Incoming.{process_incoming}
use finality_grandpa.Voter.VotingRound.Cast.{primary_propose, prevote, precommit}
use finality_grandpa.Voter.VotingRound.Notify.{
  same_state, update_view, update_unless, send_finalized, known_last, read_view, read_last,
  notify_if, should_notify, notify, cast_votes, conclude, poll,
}
use finality_grandpa.Voter.VotingRound.Ballots.{
  Follows, stage_of, IsAfter, FollowsStages, FollowsStages->>=,
}
use finality_grandpa.Voter.VotingRound.Ballots.Taken.{told_nothing}
use finality_grandpa.Voter.VotingRound.Ballots.Incoming.{
  lift-FollowsStages, process_incoming-FollowsStages,
}
use finality_grandpa.Voter.VotingRound.Ballots.Single.{primary_propose-FollowsStages}
use finality_grandpa.Voter.VotingRound.Ballots.Cast.{prevote-FollowsStages, precommit-FollowsStages}

module _ {ℓ} {VoterId H S T W O X : Type ℓ} where
  store_outgoing-IsAfter :
      (s : Running VoterId H S T W O) (r : Reply X (Buffered O (Message H)) (Poll (Unit {0})))
      → Leaves (IsAfter (stage_of s.round.voting s.round.state) s.shared.calls) (store_outgoing s r)
  unfolding store_outgoing
  store_outgoing-IsAfter s (returned flushed outgoing) =
      told_nothing _ (record s { round = record s.round { outgoing = outgoing } }) (omega arith)
  store_outgoing-IsAfter s (raised x outgoing) =
      told_nothing _ (record s { round = record s.round { outgoing = outgoing } }) (omega arith)
  store_outgoing-IsAfter s panicked = tt

  poll_outgoing-FollowsStages :
      (sink : Sink O (Message H) X)
      → FollowsStages {VoterId = VoterId} {S = S} {T = T} {W = W} (poll_outgoing sink)
  unfolding poll_outgoing
  poll_outgoing-FollowsStages sink s =
      store_outgoing-IsAfter s (Buffered.poll sink s.round.outgoing)

module _ {ℓ} {VoterId H S T W O : Type ℓ} where
  update_view-FollowsStages :
      (X : Type ℓ) (new : RoundState.State H) (view : Option PriorView)
      → FollowsStages {VoterId = VoterId} {S = S} {T = T} {W = W} {O = O} {X = X}
          (update_view new view)
  unfolding update_view
  update_view-FollowsStages X new none s = told_nothing _ s (omega arith)
  update_view-FollowsStages X new (some view) s =
      told_nothing _
        (record s { shared = record s.shared { cells = update view new s.shared.cells } })
        (omega arith)

  update_unless-FollowsStages :
      (X : Type ℓ) (same : Bool) (new : RoundState.State H)
      → FollowsStages {VoterId = VoterId} {S = S} {T = T} {W = W} {O = O} {X = X}
          (update_unless same new)
  unfolding update_unless
  update_unless-FollowsStages X true new s = told_nothing _ s (omega arith)
  update_unless-FollowsStages X false new s =
      update_view-FollowsStages X new s.round.bridged_round_state s

  send_finalized-FollowsStages :
      (X : Type ℓ) (f : H × ℕ) (precommits : Option (List (SignedPrecommit H S VoterId)))
      → FollowsStages {T = T} {W = W} {O = O} {X = X} (send_finalized f precommits)
  unfolding send_finalized
  send_finalized-FollowsStages X f none s = tt
  send_finalized-FollowsStages X f (some precommits) s =
      ([], sym (append-nil s.shared.calls), Follows.skips (omega arith))

  read_view-FollowsStages :
      (X : Type ℓ) (view : Option LatterView)
      → FollowsStages {VoterId = VoterId} {H = H} {S = S} {T = T} {W = W} {O = O} {X = X}
          (read_view view)
  unfolding read_view
  read_view-FollowsStages X none s = told_nothing _ s (omega arith)
  read_view-FollowsStages X (some view) s = go (get view s.shared.cells)
    where
      go :
          (last : Option (RoundState.State H))
          → Leaves
              (IsAfter (stage_of s.round.voting s.round.state) s.shared.calls)
              (known_last {X = X} last s)
      go none = tt
      go (some last) = told_nothing _ s (omega arith)

module _ {ℓ} {VoterId H S T W O X : Type ℓ} ⦃oh : Ord H⦄ where
  notify_if-FollowsStages :
      (env : Environment VoterId H T W O X) (finalized : Option (H × ℕ)) (due : Bool)
      → FollowsStages {S = S} (notify_if env finalized due)
  unfolding notify_if
  notify_if-FollowsStages env finalized false s = told_nothing _ s (omega arith)
  notify_if-FollowsStages env none true s = told_nothing _ s (omega arith)
  notify_if-FollowsStages env (some f) true s =
      let precommits = finalizing_precommits s.round.votes env.chain in
      FollowsStages->>= (lift env.from precommits) (send_finalized f)
        (lift-FollowsStages env.from precommits) (send_finalized-FollowsStages X f) s

  notify-FollowsStages :
      (env : Environment VoterId H T W O X) (last new : RoundState.State H)
      → FollowsStages {S = S} (notify env last new)
  unfolding notify
  notify-FollowsStages env last new =
      FollowsStages->>= (update_unless (same_state last new) new) _
        (update_unless-FollowsStages X (same_state last new) new)
        (λ _ t. notify_if-FollowsStages env new.finalized (should_notify t.round last new) t)

module _ {ℓ} {VoterId H S T W O X : Type ℓ} ⦃oi : Ord VoterId⦄ ⦃oh : Ord H⦄ ⦃es : Eq S⦄ where
  cast_votes-FollowsStages :
      (env : Environment VoterId H T W O X) (polled : Polled VoterId H S T W O X)
      (last : Option (RoundState.State H))
      → FollowsStages (cast_votes env polled last)
  unfolding cast_votes
  cast_votes-FollowsStages env polled none s = told_nothing _ s (omega arith)
  cast_votes-FollowsStages env polled (some last) s =
      FollowsStages->>= (primary_propose polled last) _ (primary_propose-FollowsStages polled last)
        (λ _.
          FollowsStages->>= (prevote env polled last) (λ _. precommit env polled last)
            (prevote-FollowsStages env polled last) (λ _. precommit-FollowsStages env polled last))
        s

  conclude-FollowsStages :
      (env : Environment VoterId H T W O X) (polled : Polled VoterId H S T W O X)
      (pre : RoundState.State H) (last : Option (RoundState.State H)) (flushed : Poll (Unit {0}))
      → FollowsStages (conclude env polled pre last flushed)
  unfolding conclude
  conclude-FollowsStages env polled pre last pending s = told_nothing _ s (omega arith)
  conclude-FollowsStages env polled pre last (ready _) s =
      FollowsStages->>= (process_incoming env polled.incoming_again) _
        (process_incoming-FollowsStages env polled.incoming_again)
        (λ _ t.
          FollowsStages->>= (notify env pre (RoundState.state t.round.votes)) _
            (notify-FollowsStages env pre (RoundState.state t.round.votes))
            (λ _ u. told_nothing _ u (omega arith)) t)
        s

  -- A poll of a voting round, whatever the environment answers, tells the environment of votes only
  -- as the specification of casting allows, from the stage of the round before to the stage of the
  -- round after, and otherwise only of equivocations.
  pub poll-FollowsStages :
      (env : Environment VoterId H T W O X) (polled : Polled VoterId H S T W O X)
      → FollowsStages (poll env polled)
  unfolding poll
  poll-FollowsStages env polled s =
      FollowsStages->>= (process_incoming env polled.incoming) _
        (process_incoming-FollowsStages env polled.incoming)
        (λ _.
          FollowsStages->>= read_last _ (λ t. read_view-FollowsStages X t.round.last_round_state t)
            (λ last.
              FollowsStages->>= (cast_votes env polled last) _
                (cast_votes-FollowsStages env polled last)
                (λ _.
                  FollowsStages->>= (poll_outgoing polled.sink) _
                    (poll_outgoing-FollowsStages polled.sink)
                    (conclude-FollowsStages env polled (RoundState.state s.round.votes) last))))
        s
