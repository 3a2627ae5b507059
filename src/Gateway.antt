-- ===== src/Gateway.antt =====
-- cmd/gateway: the parts of the gateway that are not packages of their own.
pub mod Webhooks
pub mod Delivery
pub mod Limits
pub mod Windows
pub mod Alerts
pub mod AlertKeys
pub mod Settling
pub mod Raising
pub mod Crossing
pub mod Scoring
pub mod Judging
pub mod Judgement
pub mod Circuits
pub mod Resetting
mod Examples
mod JudgeExamples
mod ResetExamples
