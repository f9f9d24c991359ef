-- ===== src/Vkg.antt =====
-- src/vkg: the parts that are over Vulkan.
pub mod Convert
pub mod Errors
pub mod Queue
pub mod Device
pub mod Synchronization
pub mod Windows
pub mod Command
pub mod Chain
pub mod Image
pub mod Choice
