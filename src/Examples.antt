-- ===== src/Examples.antt =====
-- Runs of the model at concrete inputs, and the theorems applied to them.
mod TrackerRuns
mod FakeRuns
mod SharedRuns
mod ListenerRuns
mod Literal
mod SieveRuns
mod SeekerRuns
mod EndpointRuns
mod InstanceRuns
mod TailerRuns
mod LifeRuns
mod AloneRuns
mod CommitRuns
mod CleanUpRuns
mod Codec
mod TimelineRuns
mod SystailRuns
