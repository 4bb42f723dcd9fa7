-- ===== src/WaitingList.antt =====
-- `WaitingList` of src/http_relay/waiting_list.rs: its state, the limit on waiting IDs, its public
-- methods, and their proofs.
pub mod State
pub mod Capacity
pub mod Methods
pub mod Limits
pub mod Invariant
pub mod History
pub mod Store
pub mod Ack
pub mod Subscribe
pub mod Reads
pub mod Survival
pub mod Linked
pub mod Await
pub mod Channel
pub mod Traced
pub mod Senders
pub mod Mailbox
