-- ===== src/Examples.antt =====
-- Runs of the model at concrete inputs: each theorem of the results that has hypotheses, applied where
-- they hold, over small implementations of the interfaces.
pub mod Memory
mod BreakerRuns
mod LimiterRuns
pub mod EntityRuns
mod PostgresRuns
pub mod WorkerRuns
pub mod TemplateRuns
mod TemplateStoreRuns
mod WebRuns
pub mod ServiceRuns
pub mod HandlerRuns
mod ListRuns
mod SystemRuns
pub mod StreamRuns
pub mod DeliveryRuns
