-- ===== src/Posting/Settlement.antt =====
-- Which documents can be posted, and what the entry then moves.
pub mod OfInvoices
pub mod OfBills
pub mod OfDocuments
pub mod OfNotes
pub mod OfPayments
