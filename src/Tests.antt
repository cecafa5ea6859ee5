-- ===== src/Tests.antt =====
-- Tests of the definitions, and the theorems at concrete inputs.
mod PostingTests
mod DocumentTests
mod PaymentTests
mod LedgerTests
mod GstTests
mod PeriodTests
mod InventoryTests
mod IntegrationTests
mod AutoPostTests
