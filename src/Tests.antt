-- ===== src/Tests.antt =====
-- Runs of the model on small inputs: a pod with one container behind a library that parses every text
-- to it, and the in-memory world.
mod Inputs
mod Validation
mod Storage
mod Services
mod Gateway
mod Table
mod Dynamo
mod Settings
mod Cluster
mod Http
