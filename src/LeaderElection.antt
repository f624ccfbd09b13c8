-- ===== src/LeaderElection.antt =====
-- src/vmss_metrics_exporter/leader_election.py: the candidate's settings, the Lease, the election
-- loop and its supervisor.
pub mod Config
pub mod Lease
pub mod Monad
pub mod Calls
pub mod Acquire
pub mod Loop
pub mod Supervisor
mod Frame
pub mod Clockwork
pub mod Takeover
pub mod Server
pub mod Writes
pub mod Rivals
pub mod Observation
pub mod Ending
pub mod Progress
pub mod Termination
pub mod Backoff
mod Examples
