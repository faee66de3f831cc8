-- ===== src/Broker.antt =====
-- backend/internal/broker/backend_rpc.go: the calls that agents make through the message broker. A
-- delivery names a routing key; `Dispatch` decodes the request, runs the operation of the key and
-- makes one response; `Consumer` publishes it and settles the delivery.
pub mod Keys
pub mod Codec
pub mod Replies
pub mod Fill
pub mod Failures
pub mod Interfaces
pub mod Reads
pub mod Construction
pub mod Sales
pub mod Dispatch
pub mod Consumer
pub mod Answers
pub mod Identity
pub mod Settled
pub mod Setup
pub mod Limits
pub mod Backend
pub mod Dialogs
pub mod Authority
