-- ===== src/Library/Enums.antt =====
-- The enumerations of src/library/Image.h, Chain.h and RenderPass.h.
pub mod Formats
pub mod Layouts
pub mod Usages
pub mod Stages
