-- ===== src/Tests.antt =====
-- A platform and a runtime that keep the promises of Go's library, sample documents, and the
-- theorems at them.
mod Codec
mod Sorts
mod Sample
mod Documents
mod Runs
mod Examples
mod Sensor
mod SensorExamples
mod CommandExamples
mod Assembled
mod Reloaded
