-- ===== src/Inventory.antt =====
-- Stock by location (backend/src/domains/inventory/services.py), and stock over a year end
-- (backend/src/domains/accounting/roll_forward.py).
pub mod Warehouses
pub mod WarehouseLaws
pub mod StockLaws
pub mod CarryForward
pub mod CarryForwardLaws
