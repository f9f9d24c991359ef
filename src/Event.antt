-- ===== src/Event.antt =====
-- src/event/Event.{h,cpp}: events, and the managers that deliver them.
pub mod Keys
pub mod Order
pub mod Types
pub mod MultiMap
pub mod Manager
