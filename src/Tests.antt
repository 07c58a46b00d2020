-- ===== src/Tests.antt =====
-- Concrete inputs and outside parties, and the theorems applied to them.
mod Fixtures
mod RingTests
mod MembershipTests
mod ReplicationTests
mod CoordinatorTests
mod ClockTests
mod WalTests
mod PageTests
mod PoolTests
mod AntiEntropyTests
mod CatalogTests
