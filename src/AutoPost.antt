-- ===== src/AutoPost.antt =====
-- Posting a document when it is made (backend/src/domains/accounting/auto_post.py).
pub mod Stock
pub mod Resolution
pub mod Owned
pub mod Documents
pub mod Sound
pub mod Named
pub mod Appends
pub mod Posted
pub mod Sessions
pub mod StockLaws
pub mod Stocked
pub mod Kept
pub mod Notes
pub mod NotesKept
pub mod InStock
