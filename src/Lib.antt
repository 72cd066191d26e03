-- ===== src/Lib.antt =====
-- finality-grandpa: the GRANDPA finality gadget. Voters prevote and precommit for blocks of a chain
-- with forks. A round collects the votes, computes the block with a supermajority of prevotes (the
-- prevote-GHOST), the best block that may still get a supermajority of precommits (the estimate)
-- and the block that has one. A commit carries the precommits that justify a block.
--
-- The parts, from the lowest up:
-- - Weights (src/weights.rs): weights of votes and voters, 64 bits wide, with saturating sums.
-- - VoterSet (src/voter_set.rs): the voters in the order of their ids, with weights, positions and
--   the threshold of a supermajority. `VoterSet.new` is `VoterSet::new`, `threshold_of` is
--   `threshold`. Children: Threshold, Tally (sums of weights), Valid, Order.
-- - Bitfield (src/bitfield.rs): bitfields as lists of 64-bit words. Children: Words, Write, Iter,
--   Merged.
-- - Round.Context (src/round/context.rs): votes as bits, two for each voter, and the weight of a
--   vote-node. Round.Tracker, Round.State and Round.Import (src/round.rs): `VoteTracker`, the state
--   of a round with `update` and `precommit_ghost`, and `import_prevote` and `import_precommit`.
--   Round.Finalizing: `finalizing_precommits`.
-- - VoteGraph (src/vote_graph.rs): the graph of the blocks with votes. Search is
--   `find_containing_nodes`, Insert is `insert`, `append`, `introduce_branch` and `adjust_base`,
--   Ancestor is `find_ancestor` and `cumulative_vote`, Ghost is `find_ghost`.
-- - Messages, Chain and Commit (src/lib.rs): the messages, the `Chain` trait and `validate_commit`.
-- - Voter.Bridge (src/bridge_state.rs): the round-states that one round writes and the next reads.
-- - Voter.VotingRound (src/voter/voting_round.rs): a round in which this node votes. Construct is how
--   it starts and which votes it constructs, Incoming is `handle_vote`, `process_incoming` and
--   `check_and_import_from_commit`, Cast is `primary_propose`, `prevote` and `precommit`, Notify is
--   `notify` and `poll`. Ballots states the order of the votes, Grounds and Hints what they are for.
-- - Voter.Background (src/voter/past_rounds.rs): `BackgroundRound` and `RoundCommitter`.
--   Voter.PastRounds: the collection `PastRounds` with its channels and its stream. Which rounds the
--   executor polls, and in which order, is an argument. Children: Counted, Kept.
-- - Voter.Main (src/voter/mod.rs): of `Voter`, `prune_background_rounds`, `completed_best_round` and
--   `set_last_finalized_number`. Start is `new` and `instantiate_last_round`, Finality what the voter
--   tells of finalized blocks.
-- - Voter.Environment, Voter.Buffered and Voter.CatchUp (src/voter/mod.rs): the trait `Environment`,
--   the sink with a buffer, and `validate_catch_up`.
-- - Voter.Call: calls that change a state and may return, fail with an error or panic, with what is
--   kept of the state after an error.
-- - Base: maps and sets of the standard library as sorted lists, an order and an equality as
--   instance arguments, and `Outcome`, the result of a call that may return, fail or panic.
-- - Examples: small voter sets, rounds and commits, and the model run on them.
--
-- A round imports a vote in the order of the code: the tracker counts it, the graph gets its bit at
-- the block and at the vote-nodes below, or the context records an equivocation, then the
-- prevote-GHOST and `update` follow. A failed import keeps what was done before the failure: its
-- round is part of the result (`Attempt`).
--
-- Bounds and fuel. Weights are natural numbers with the saturation at 2^64 - 1 and the checked sum
-- written out. Block numbers are natural numbers, which the source takes as a type parameter. A
-- failed `expect`, an index out of range, a failed assertion and the end of the fuel are `panic`.
-- Debug assertions are left out, as in a release build.
-- Subtractions of block numbers that go below zero fail too, as with overflow checks.
-- The loops over the graph have fuel and end with `panic` when it is used up. The number of a vote is
-- never checked against the chain, so the numbers need not fall along the edges, and on a graph with
-- a cycle the loops of the source do not end. A loop that does end comes to no vote-node twice, so
-- `find_containing_nodes`, `insert` and `find_ghost` have a round for each vote-node and one or two
-- more, and `find_ancestor` has, for each vote-node and once more, a round for each number up to the
-- highest. `ghost_find_merge_point` has one for each number up to the highest of its nodes.
-- VoteGraph.Paths, Settles of Insert, Ancestor and Ghost, and Ghost.Merges are about this fuel.
--
-- A poll of a voting round gets, as an argument, what the environment answers during the poll: the
-- messages of the stream, the timers, the best-chain futures, the sink and the results of the calls
-- that tell it something. These calls and the notifications of finality are recorded in the order in
-- which they are made, in a state that the rounds share.
--
-- The chain (`Chain::ancestry`) and the environment are code of the client of the crate, and
-- parameters, and so are futures, streams and sinks. Wakers, locks, logs, codecs, the `Display` and
-- `Debug` impls, test support and fuzzing are not modelled. Of `Voter`, `process_incoming`, `poll`,
-- `process_best_round` and the reports of its state are not modelled.
pub mod Base
pub mod Weights
pub mod VoterSet
pub mod Bitfield
pub mod Round
pub mod Chain
pub mod VoteGraph
pub mod Messages
pub mod Commit
pub mod Voter
pub mod Examples
