-- ===== src/Notifications.antt =====
-- services/notification_service: the history of each recipient, the live sockets, and the
-- consumer that feeds both.
pub mod Store
pub mod Manager
pub mod Consumer
pub mod Listing
pub mod Settings
pub mod Lifecycle
