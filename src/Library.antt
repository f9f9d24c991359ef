-- ===== src/Library.antt =====
-- src/library: the parts of the library that stand above a framework such as Vulkan.
pub mod Memory
pub mod Enums
pub mod Attachment
