-- ===== src/Mapper.antt =====
-- The event mapper of the bridge process: packages/openclaw-bridge/src/mapper.ts.
pub mod Types
pub mod Runs
pub mod Sessions
pub mod Poll
pub mod Tables
pub mod Cases
pub mod Keys
pub mod Quiet
pub mod Reporting
pub mod Chains
pub mod Legal
pub mod Vanished
pub mod Inferred
pub mod Settling
pub mod Apart
pub mod Legality
pub mod Envelope
pub mod Accepted
pub mod Own
pub mod Pipeline
pub mod Tests
