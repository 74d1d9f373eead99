-- ===== src/Verdict.antt =====
-- internal/verdict: the consensus of several engines, one verdict for each file.
pub mod Collect
pub mod Votes
pub mod Groups
pub mod Paths
pub mod Ballot
pub mod Targets
pub mod Complete
pub mod Silence
pub mod Outcome
pub mod OneVote
pub mod Sorting
pub mod Decide
pub mod Consolidate
mod Tests
