-- ===== src/Remote.antt =====
-- src/remote.rs: the command inbox, the response outbox and the event subscriptions.
pub mod Tables
pub mod Inbox
pub mod Outbox
pub mod Subscriptions
pub mod Scrub
