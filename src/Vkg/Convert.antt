-- ===== src/Vkg/Convert.antt =====
-- src/vkg/Vulkan.cpp: the conversions between the enumerations of the library and Vulkan's.
pub mod Formats
pub mod Layouts
pub mod Usages
pub mod Stages
pub mod RoundTrip
pub mod Numbers
pub mod Attachments
mod Tests
