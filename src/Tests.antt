-- ===== src/Tests.antt =====
-- Concrete inputs: a small cluster with the fake beside it, runs of the model, and instances of
-- the theorems.
mod Cluster
mod Keys
mod Codes
mod Server
mod Objects
mod Passes
mod Store
mod Recoveries
mod Copies
mod History
mod Releases
mod RoundTrip
mod Guards
mod Start
