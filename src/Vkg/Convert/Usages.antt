-- ===== src/Vkg/Convert/Usages.antt =====
-- src/vkg/Vulkan.cpp: the conversions of usages and types of images.
use kgl.Common.{ℕ, List, [], ◌∷◌}
use kgl.Common.Switch.{Enumeration, switch}
use kgl.Library.Enums.Usages.{
  ImageUsage, image_usages, usage_number, ImageType, image_types, image_type_number,
}

-- The `vk::ImageUsageFlagBits` that the code names.
pub data VkUsage : Type 0 where
  e_transfer_src e_transfer_dst e_sampled e_storage e_color_attachment : VkUsage
  e_depth_stencil_attachment e_input_attachment e_shading_rate_image_nv : VkUsage
  e_fragment_density_map_ext : VkUsage

unfoldable pub usage_table : List (ImageUsage × VkUsage)
usage_table =
    (ImageUsage.transfer_src, VkUsage.e_transfer_src)
    ∷ (ImageUsage.transfer_dst, VkUsage.e_transfer_dst)
    ∷ (ImageUsage.sampled, VkUsage.e_sampled)
    ∷ (ImageUsage.storage, VkUsage.e_storage)
    ∷ (ImageUsage.color_attachment, VkUsage.e_color_attachment)
    ∷ (ImageUsage.depth_stencil, VkUsage.e_depth_stencil_attachment)
    ∷ (ImageUsage.input, VkUsage.e_input_attachment)
    ∷ (ImageUsage.shading_rate, VkUsage.e_shading_rate_image_nv)
    ∷ (ImageUsage.vkext_fragment_density, VkUsage.e_fragment_density_map_ext)
    ∷ []

-- `Vulkan::convert( nyx::ImageUsage )`
unfoldable pub usage_to_vk : Enumeration VkUsage → ℕ → ℕ
usage_to_vk vk usage = vk.value (switch image_usages usage_table VkUsage.e_input_attachment usage)

unfoldable pub vk_usage_table : List (VkUsage × ImageUsage)
vk_usage_table =
    (VkUsage.e_transfer_src, ImageUsage.transfer_src)
    ∷ (VkUsage.e_transfer_dst, ImageUsage.transfer_dst)
    ∷ (VkUsage.e_sampled, ImageUsage.sampled)
    ∷ (VkUsage.e_storage, ImageUsage.storage)
    ∷ (VkUsage.e_color_attachment, ImageUsage.color_attachment)
    ∷ (VkUsage.e_depth_stencil_attachment, ImageUsage.depth_stencil)
    ∷ (VkUsage.e_input_attachment, ImageUsage.input)
    ∷ (VkUsage.e_shading_rate_image_nv, ImageUsage.shading_rate)
    ∷ (VkUsage.e_fragment_density_map_ext, ImageUsage.vkext_fragment_density)
    ∷ []

-- `Vulkan::convert( vk::ImageUsageFlagBits )`
unfoldable pub usage_from_vk : Enumeration VkUsage → ℕ → ℕ
usage_from_vk vk usage = usage_number (switch vk vk_usage_table ImageUsage.input usage)

-- The `vk::ImageType` that the code names.
pub data VkImageType : Type 0 where
  e1d e2d e3d : VkImageType

unfoldable pub image_type_table : List (ImageType × VkImageType)
image_type_table =
    (ImageType.n1d, VkImageType.e1d)
    ∷ (ImageType.n2d, VkImageType.e2d)
    ∷ (ImageType.n3d, VkImageType.e3d)
    ∷ []

-- `Vulkan::convert( nyx::ImageType )`
unfoldable pub image_type_to_vk : Enumeration VkImageType → ℕ → ℕ
image_type_to_vk vk type = vk.value (switch image_types image_type_table VkImageType.e2d type)

unfoldable pub vk_image_type_table : List (VkImageType × ImageType)
vk_image_type_table =
    (VkImageType.e1d, ImageType.n1d)
    ∷ (VkImageType.e2d, ImageType.n2d)
    ∷ (VkImageType.e3d, ImageType.n3d)
    ∷ []

-- `Vulkan::convert( vk::ImageType )`
unfoldable pub image_type_from_vk : Enumeration VkImageType → ℕ → ℕ
image_type_from_vk vk type = image_type_number (switch vk vk_image_type_table ImageType.n2d type)
