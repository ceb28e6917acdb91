-- ===== src/Web.antt =====
-- The admin console, web/admin/src.
pub mod Number
pub mod Format
pub mod Api
pub mod App
pub mod UseApi
pub mod Ui
pub mod Upstreams
pub mod History
pub mod Logs
pub mod Nodes
pub mod Subscriptions
pub mod Pages
pub mod Dashboard
pub mod Traffic
