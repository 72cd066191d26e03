-- ===== src/Voter.antt =====
-- src/voter and src/bridge_state.rs: the voter, which runs rounds and casts votes.
pub mod Call
pub mod Bridge
pub mod Buffered
pub mod Environment
pub mod VotingRound
pub mod CatchUp
pub mod Background
pub mod PastRounds
pub mod Main
