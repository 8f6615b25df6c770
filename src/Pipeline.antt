-- ===== src/Pipeline.antt =====
-- backend/pipeline_engine: pipelines of filters, rerankers and transforms over search results.
pub mod Models
pub mod Executor
pub mod Service
pub mod Steps
pub mod Order
pub mod Warnings
pub mod Builtin
pub mod Distinct
mod Tests
