-- ===== src/Transport.antt =====
-- The connection to the server (apps/web/src/features/terminal/app/engine/transport).
pub mod Contracts
pub mod State
pub mod Policy
pub mod ClosePlan
pub mod Browser
pub mod Bootstrap
pub mod Service
pub mod Heartbeat
pub mod Reporter
pub mod SocketSession
pub mod Reliability
pub mod Lifecycle
pub mod Frames
pub mod Timers
pub mod TimerOps
pub mod Sessions
pub mod Steps
pub mod Invariant
pub mod Reachable
mod Soundness
mod Dropped
mod Commands
mod Disposal
mod Replacement
mod Still
mod Outage
mod Limit
mod Reports
mod Liveness
mod Examples
