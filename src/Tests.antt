-- ===== src/Tests.antt =====
-- Runs of the models at concrete inputs, and the theorems applied there.
mod Fixtures
mod EtcdTests
mod SpecTests
mod SyncFixtures
mod SyncTests
mod SettledTests
mod OtherTests
mod WriteTests
mod BuildTests
mod DefaultsTests
mod RoundTests
