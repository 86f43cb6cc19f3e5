-- ===== src/Tests.antt =====
-- Concrete inputs, and the theorems at them.
mod Conditions
mod Data
mod Schedule
mod Verdicts
mod Registration
mod Restriction
mod Probes
mod Teardown
mod World
mod Passes
mod Clusters
mod Narrowing
