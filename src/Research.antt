-- ===== src/Research.antt =====
-- backend/research_agent: the events, the plan and the budget of a research job.
pub mod Events
pub mod Replay
pub mod Turns
pub mod Budget
pub mod Planner
pub mod Plans
pub mod Execution
pub mod Tools
pub mod Executor
pub mod Service
pub mod Posts
pub mod Loop
pub mod Streams
mod Tests
