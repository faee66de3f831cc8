-- ===== src/Domain.antt =====
-- The data of the backend (backend/internal/domain) and its errors. Row numbers are naturals: they
-- are only compared with one another and with 0, and 0 stands for every number that is not positive.
-- Times are counted in ticks. A Go string that is one of a few constants is a data type, with a
-- constructor for every other text where the program can meet one.
pub mod Error
pub mod Account
pub mod Estate
pub mod Offer
pub mod Document
pub mod Ai
pub mod Deal
pub mod Chat
pub mod Notice
pub mod Construction
pub mod Rpc
