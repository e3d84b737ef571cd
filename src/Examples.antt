-- ===== src/Examples.antt =====
-- Runs of the models on concrete inputs.
mod Texts
mod NetworkTests
mod Scans
mod Sessions
mod Polls
mod Builders
mod Flights
mod Pathways
mod Values
mod Metrics
mod Answers
mod Neighbours
