-- ===== src/Vkg/Convert/Layouts.antt =====
-- src/vkg/Vulkan.cpp: the conversions of layouts of images.
use kgl.Common.{ℕ, List, [], ◌∷◌}
use kgl.Common.Switch.{Enumeration, switch}
use kgl.Library.Enums.Layouts.{ImageLayout, image_layouts, layout_number}

-- The `vk::ImageLayout` that the code names.
pub data VkLayout : Type 0 where
  e_undefined e_general e_color_attachment_optimal e_shader_read_only_optimal : VkLayout
  e_transfer_src_optimal e_transfer_dst_optimal e_present_src_khr : VkLayout
  e_depth_read_only_optimal_khr e_depth_stencil_attachment_optimal : VkLayout

unfoldable pub layout_table : List (ImageLayout × VkLayout)
layout_table =
    (ImageLayout.undefined, VkLayout.e_undefined)
    ∷ (ImageLayout.general, VkLayout.e_general)
    ∷ (ImageLayout.color_attachment, VkLayout.e_color_attachment_optimal)
    ∷ (ImageLayout.shader_read, VkLayout.e_shader_read_only_optimal)
    ∷ (ImageLayout.transfer_src, VkLayout.e_transfer_src_optimal)
    ∷ (ImageLayout.transfer_dst, VkLayout.e_transfer_dst_optimal)
    ∷ (ImageLayout.present_src, VkLayout.e_present_src_khr)
    ∷ (ImageLayout.depth_read, VkLayout.e_depth_read_only_optimal_khr)
    ∷ (ImageLayout.depth_stencil, VkLayout.e_depth_stencil_attachment_optimal)
    ∷ []

-- `Vulkan::convert( nyx::ImageLayout )`
unfoldable pub layout_to_vk : Enumeration VkLayout → ℕ → ℕ
layout_to_vk vk layout = vk.value (switch image_layouts layout_table VkLayout.e_undefined layout)

unfoldable pub vk_layout_table : List (VkLayout × ImageLayout)
vk_layout_table =
    (VkLayout.e_undefined, ImageLayout.undefined)
    ∷ (VkLayout.e_general, ImageLayout.general)
    ∷ (VkLayout.e_color_attachment_optimal, ImageLayout.color_attachment)
    ∷ (VkLayout.e_shader_read_only_optimal, ImageLayout.shader_read)
    ∷ (VkLayout.e_transfer_src_optimal, ImageLayout.transfer_src)
    ∷ (VkLayout.e_transfer_dst_optimal, ImageLayout.transfer_dst)
    ∷ (VkLayout.e_present_src_khr, ImageLayout.present_src)
    ∷ (VkLayout.e_depth_read_only_optimal_khr, ImageLayout.depth_read)
    ∷ []

-- `Vulkan::convert( vk::ImageLayout )`
unfoldable pub layout_from_vk : Enumeration VkLayout → ℕ → ℕ
layout_from_vk vk layout = layout_number (switch vk vk_layout_table ImageLayout.undefined layout)
