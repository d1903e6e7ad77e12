-- ===== src/Tests.antt =====
-- Runs of the model on small inputs, and the theorems at inputs that meet their hypotheses.
mod Samples
mod Runs
mod Gates
mod Tables
mod Journal
mod Redaction
mod Proposals
mod Decimals
mod Reports
mod Matching
mod Proposing
mod Connections
mod Access
