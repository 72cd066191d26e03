-- ===== src/Examples.antt =====
-- Small voter sets, rounds and commits, and runs of the model on them.
mod Voters
mod Graphs
mod Votes
mod Commits
mod Rounds
mod Voting
mod CatchUps
mod PastRounds
mod Finality
