-- ===== src/Tests.antt =====
-- Runs at concrete tables, and each theorem at an input that meets its hypotheses.
mod Data
mod ClaimTests
mod FairTests
mod LeaseTests
mod RetryTests
mod QueueTests
mod WorkerTests
mod DemoTests
mod ClaimerTests
mod SessionTests
mod ServiceTests
mod BenchTests
mod MainTests
mod Parsing
