-- ===== src/ChangeProcessor.antt =====
-- change_processor.rs: the thread that turns events of the file system, and patches from clients, into
-- changes of the tree and messages for the subscribers.
pub mod Events
pub mod Handle
pub mod Client
mod Ancestors
mod Quiescent
mod Removed
mod Owned
mod Tests
