-- ===== src/OfferService.antt =====
-- backend/internal/service/offer.go: the offers of a deal, from the calculation to the decision. The
-- service works on the repositories that cmd/ gives it.
pub mod Rules
pub mod Calls
pub mod Table
pub mod Lifecycle
pub mod Pricing
pub mod Access
pub mod Decision
pub mod Requests
pub mod Listing
pub mod Approval
