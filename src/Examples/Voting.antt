-- ===== src/Examples/Voting.antt =====
-- Voter 2 as the primary of a round of the voters 1 to 4, with an environment in which all succeeds.
use finality_grandpa.Base.{
  ℕ, ◌+◌, ◌-◌, ◌≤◌, true, none, some, List, [], ◌∷◌, ◌++◌, ◌≡◌, ◌⊎◌, refl, ok, nat_ord, nat_eq, ltb,
  if◌then◌else◌,
}
use finality_grandpa.Base.BTreeMap
use finality_grandpa.Base.BTreeSet
use finality_grandpa.Bitfield
use finality_grandpa.Chain.{is_equal_or_descendent_of}
use finality_grandpa.VoteGraph.{ancestor_node, in_direct_ancestry, max_number}
use finality_grandpa.VoteGraph.Search.{find_containing_nodes}
use finality_grandpa.VoteGraph.Insert as VoteGraph
use finality_grandpa.VoteGraph.Ancestor.{find_ancestor}
use finality_grandpa.VoteGraph.Ghost.{find_ghost}
use finality_grandpa.Round.Context
use finality_grandpa.Round.Tracker
use finality_grandpa.Round.Import.{import_prevote}
use finality_grandpa.VoterSet
use finality_grandpa.Messages.{target, push_vote, Message, SignedMessage, Commit}
use finality_grandpa.Round.State as RoundState
use finality_grandpa.Voter.Call.{
  ready, pending, Answer, fine, Reply, returned, raised, panicked, Leaves, Answers,
}
use finality_grandpa.Voter.Buffered
use finality_grandpa.Voter.Buffered.{Buffered, Sink, items, schedule_all}
use finality_grandpa.Voter.Buffered.Order.{items-schedule_all}
use finality_grandpa.Voter.Environment.{Environment, Told, Polled}
use finality_grandpa.Voter.VotingRound.{State, Voting, Running}
use finality_grandpa.Voter.VotingRound.Construct as VotingRound
use finality_grandpa.Voter.VotingRound.Construct.{find_descendent_of}
use finality_grandpa.Voter.VotingRound.Cast.{precommit}
use finality_grandpa.Voter.VotingRound.Notify.{poll}
use finality_grandpa.Voter.VotingRound.Grounds.{IsGrounded, precommit-IsGrounded}
use finality_grandpa.Voter.VotingRound.Hints.{IsHint, find_descendent_of_lem}
use finality_grandpa.Voter.VotingRound.Ballots.{count_cast, stage_of, IsAfter}
use finality_grandpa.Voter.VotingRound.Ballots.Polls.{poll-FollowsStages}
use finality_grandpa.Voter.VotingRound.Ballots.Runs.{Event, run, run_once}
use finality_grandpa.Voter.Background
use finality_grandpa.Voter.Background.{Background, choose_commit}
use finality_grandpa.Voter.Background.Commits.{Tells, IsBelow, choose_commit_lem, poll-Tells}
use finality_grandpa.Examples.Voters.{four_voters}
use finality_grandpa.Examples.Commits.{chain}

-- A sink that takes all, and one that refuses after two items.
abbrev open_sink : Sink (List (Message ℕ)) (Message ℕ) ℕ
open_sink = record {
  poll_ready = λ sent. (ready (fine tt), sent);
  start_send = λ sent item. (fine tt, sent ++ item ∷ []);
  poll_flush = λ sent. (ready (fine tt), sent);
}

abbrev small_sink : Sink ℕ ℕ ℕ
small_sink = record {
  poll_ready = λ room. (if ltb 0 room then ready (fine tt) else pending, room);
  start_send = λ room item. (fine tt, room - 1);
  poll_flush = λ room. (ready (fine tt), room);
}

abbrev pub environment : Environment ℕ ℕ ℕ ℕ (List (Message ℕ)) ℕ
environment = record {
  chain = chain;
  best_chain_containing = λ h. h;
  round_data =
      λ n. record { voter_id = some 2; prevote_timer = 0; precommit_timer = 1; outgoing = [] };
  round_commit_timer = 2;
  from = λ _. 99;
}

abbrev signed : Message ℕ → ℕ → Answer ℕ (SignedMessage ℕ ℕ ℕ)
signed message id = fine (record { message = message; signature = 70 + id; id = id })

abbrev prevote_12 : Message ℕ
prevote_12 = Message.prevote (record { target_hash = 12; target_number = 2 })

-- The prevotes of the voters 1, 3 and 4 arrive.
abbrev pub three_prevotes : Polled ℕ ℕ ℕ ℕ ℕ (List (Message ℕ)) ℕ
three_prevotes = record {
  incoming = signed prevote_12 1 ∷ signed prevote_12 3 ∷ signed prevote_12 4 ∷ [];
  incoming_again = [];
  timer = λ _. ready (fine tt);
  best_chain = λ h. ready (fine (some (h, h - 10)));
  sink = open_sink;
  told = λ _. fine tt;
}

-- The last round has finalized its estimate, the base of this round.
abbrev pub started : Running ℕ ℕ ℕ ℕ ℕ (List (Message ℕ))
started = record {
  round = record {
    voting = Voting.primary;
    votes = RoundState.new (record { round_number = 1; voters = four_voters; base = (10, 0) });
    outgoing = record { inner = []; buffer = [] };
    state = some (State.start 0 1);
    bridged_round_state = none;
    last_round_state = some (record { latter_cell = 0 });
    primary_block = none;
    best_finalized = none;
  };
  shared = record { cells = RoundState.genesis (10, 0) ∷ []; calls = []; notifications = [] };
}

starts :
    VotingRound.new 1 four_voters (10, 0) (some (record { latter_cell = 0 })) environment
    ≡ ok started.round
unfolding VotingRound.new RoundState.primary_voter VoterSet.nth_mod
starts = refl

-- A voter that is not in the set, or has no id, does not vote.
no_id : VotingRound.voting_of four_voters 2 none ≡ Voting.no
unfolding VotingRound.voting_of
no_id = refl

unknown_id : VotingRound.voting_of four_voters 2 (some 9) ≡ Voting.no
unfolding VotingRound.voting_of VoterSet.contains VoterSet.get BTreeMap.get
unknown_id = refl

abbrev calls_of :
    {A : Type 0} → Reply ℕ (Running ℕ ℕ ℕ ℕ ℕ (List (Message ℕ))) A → List (Told ℕ ℕ ℕ)
calls_of (returned a s) = s.shared.calls
calls_of (raised x s) = s.shared.calls
calls_of panicked = []

-- In the first poll the round starts to prevote, in the second it prevotes and precommits.
casts_both :
    calls_of
      (run environment (Event.polls three_prevotes ∷ Event.polls three_prevotes ∷ []) started)
    ≡ Told.prevoted 1 (record { target_hash = 10; target_number = 0 })
      ∷ Told.precommitted 1 (record { target_hash = 12; target_number = 2 })
      ∷ []
unfolding run poll is_equal_or_descendent_of RoundState.new target import_prevote VoterSet.get
    BTreeMap.get BTreeMap.insert Tracker.add_vote VoteGraph.insert find_containing_nodes
    BTreeSet.contains BTreeSet.insert BTreeSet.remove in_direct_ancestry ancestor_node max_number
    RoundState.update find_ghost find_ancestor RoundState.has_supermajority
    RoundState.possible_to_precommit Context.new Context.weight Context.equivocation_weight
    VoterSet.nth Bitfield.iter1s_even Bitfield.iter1s_odd Bitfield.is_blank Bitfield.test_word
    Buffered.poll Buffered.push Context.vote Context.add_vote RoundState.set_prevoted_index
    RoundState.set_precommitted_index push_vote Bitfield.set_bit VotingRound.construct_proposal
    VotingRound.construct_prevote VotingRound.construct_precommit
casts_both = refl

poll-FollowsStages_example :
    Leaves
      (IsAfter (stage_of started.round.voting started.round.state) started.shared.calls)
      (poll environment three_prevotes started)
poll-FollowsStages_example = poll-FollowsStages environment three_prevotes started

run_once_example :
    Leaves
      (λ t.
        (cs : List (Told ℕ ℕ ℕ)) × (t.shared.calls ≡ started.shared.calls ++ cs)
        × (count_cast 1 cs
            ≤ (if ltb 1 (stage_of started.round.voting started.round.state) then 0 else 1)))
      (run environment (Event.polls three_prevotes ∷ Event.polls three_prevotes ∷ []) started)
run_once_example =
    run_once environment (Event.polls three_prevotes ∷ Event.polls three_prevotes ∷ []) started 1

-- The round has prevoted and knows a prevote-GHOST.
abbrev waiting : Running ℕ ℕ ℕ ℕ ℕ (List (Message ℕ))
waiting = record started {
  round = record started.round {
    state = some (State.prevoted 1);
    votes = record started.round.votes { prevote_ghost = some (12, 2) };
  };
}

precommit-IsGrounded_example :
    Leaves
      (λ t.
        (t.shared.calls ≡ waiting.shared.calls)
        ⊎ IsGrounded environment three_prevotes (RoundState.genesis (10, 0)) waiting t.shared.calls)
      (precommit environment three_prevotes (RoundState.genesis (10, 0)) waiting)
precommit-IsGrounded_example =
    precommit-IsGrounded environment three_prevotes (RoundState.genesis (10, 0)) waiting

-- The last round's estimate is block 10 and its prevote-GHOST block 14; the primary sends block 12.
abbrev last : RoundState.State ℕ
last = record {
  prevote_ghost = some (14, 4);
  finalized = some (10, 0);
  estimate = some (10, 0);
  completable = true;
}

finds_primary : find_descendent_of chain last (some (12, 2)) ≡ ok 12
unfolding find_descendent_of
finds_primary = refl

find_descendent_of_lem_example :
    (estimate : ℕ × ℕ) × (last.estimate ≡ some estimate)
    × ((12 ≡ estimate.0)
        ⊎ ((primary ghost : ℕ × ℕ) × (some (12, 2) ≡ some primary)
            × (last.prevote_ghost ≡ some ghost)
            × (12 ≡ primary.0)
            × IsHint chain estimate ghost primary))
find_descendent_of_lem_example = find_descendent_of_lem chain last (some (12, 2)) 12 finds_primary

abbrev commit_12 : Commit ℕ ℕ ℕ
commit_12 = record { target_hash = 12; target_number = 2; precommits = [] }

abbrev commit_11 : Commit ℕ ℕ ℕ
commit_11 = record { target_hash = 11; target_number = 1; precommits = [] }

chooses_12 : choose_commit (some commit_11) (some (12, 2)) (some commit_12) ≡ some commit_12
unfolding choose_commit
chooses_12 = refl

choose_commit_lem_example :
    (some commit_12 ≡ some commit_12)
    × ((f : ℕ × ℕ) × (some (12, 2) ≡ some f) × IsBelow (some commit_11) (f.1))
choose_commit_lem_example =
    choose_commit_lem (some commit_11) (some commit_12) (some (12, 2)) commit_12 chooses_12

abbrev backgrounded : Background ℕ ℕ ℕ ℕ ℕ (List (Message ℕ))
backgrounded = record {
  background = record {
    inner = started.round;
    finalized_number = 0;
    round_committer =
        some (record { commit_timer = 2; import_commits = commit_11 ∷ []; last_commit = none });
  };
  shared = started.shared;
}

poll-Tells_example : Answers Tells (Background.poll environment three_prevotes backgrounded)
poll-Tells_example = poll-Tells environment three_prevotes backgrounded

-- Three items, for a sink with room for two and for one with room for all.
items-schedule_all_example :
    items (schedule_all small_sink (record { inner = 2; buffer = 7 ∷ 8 ∷ 9 ∷ [] })) ≡ 7 ∷ 8 ∷ 9 ∷ []
items-schedule_all_example =
    items-schedule_all small_sink (record { inner = 2; buffer = 7 ∷ 8 ∷ 9 ∷ [] })

abbrev flushed : Buffered ℕ ℕ
flushed = record { inner = 2; buffer = [] }

flushes :
    Buffered.poll small_sink (record { inner = 5; buffer = 7 ∷ 8 ∷ 9 ∷ [] })
    ≡ returned (ready tt) flushed
unfolding Buffered.poll
flushes = refl
