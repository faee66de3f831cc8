-- ===== src/Repo.antt =====
-- The repositories (backend/internal/repository): each method is the SQL statements that it sends,
-- in their order, as steps on the tables.
pub mod Account
pub mod Policy
pub mod Offer
pub mod Document
pub mod Audit
pub mod Deal
pub mod Chat
pub mod Notice
pub mod Delivery
pub mod Reads
pub mod Cascade
pub mod Construction
pub mod Home
pub mod Competitor
pub mod Erp
pub mod Recommendation
pub mod Ancillary
