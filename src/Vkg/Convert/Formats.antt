-- ===== src/Vkg/Convert/Formats.antt =====
-- src/vkg/Vulkan.cpp: the conversions of formats of images.
use kgl.Common.{ℕ, List, [], ◌∷◌}
use kgl.Common.Switch.{Enumeration, switch}
use kgl.Library.Enums.Formats.{ImageFormat, image_formats, format_number}

-- The `vk::Format` that the code names.
pub data VkFormat : Type 0 where
  e_r8_srgb e_r8g8b8_srgb e_b8g8r8_srgb e_r8g8b8a8_srgb e_b8g8r8a8_srgb e_r32_sint : VkFormat
  e_r32g32b32_sint e_r32g32b32a32_sint e_r32_sfloat e_r32g32b32_sfloat : VkFormat
  e_r32g32b32a32_sfloat e_d24_unorm_s8_uint e_d32_sfloat e_undefined : VkFormat

unfoldable pub format_table : List (ImageFormat × VkFormat)
format_table =
    (ImageFormat.r8, VkFormat.e_r8_srgb)
    ∷ (ImageFormat.rgb8, VkFormat.e_r8g8b8_srgb)
    ∷ (ImageFormat.bgr8, VkFormat.e_b8g8r8_srgb)
    ∷ (ImageFormat.rgba8, VkFormat.e_r8g8b8a8_srgb)
    ∷ (ImageFormat.bgra8, VkFormat.e_b8g8r8a8_srgb)
    ∷ (ImageFormat.r32i, VkFormat.e_r32_sint)
    ∷ (ImageFormat.rgb32i, VkFormat.e_r32g32b32_sint)
    ∷ (ImageFormat.rgba32i, VkFormat.e_r32g32b32a32_sint)
    ∷ (ImageFormat.r32f, VkFormat.e_r32_sfloat)
    ∷ (ImageFormat.rgb32f, VkFormat.e_r32g32b32_sfloat)
    ∷ (ImageFormat.rgba32f, VkFormat.e_r32g32b32a32_sfloat)
    ∷ (ImageFormat.d32f, VkFormat.e_d24_unorm_s8_uint)
    ∷ []

-- `Vulkan::convert( nyx::ImageFormat )`
unfoldable pub format_to_vk : Enumeration VkFormat → ℕ → ℕ
format_to_vk vk format = vk.value (switch image_formats format_table VkFormat.e_undefined format)

unfoldable pub vk_format_table : List (VkFormat × ImageFormat)
vk_format_table =
    (VkFormat.e_r8_srgb, ImageFormat.r8)
    ∷ (VkFormat.e_r8g8b8_srgb, ImageFormat.rgb8)
    ∷ (VkFormat.e_b8g8r8_srgb, ImageFormat.bgr8)
    ∷ (VkFormat.e_r8g8b8a8_srgb, ImageFormat.rgba8)
    ∷ (VkFormat.e_b8g8r8a8_srgb, ImageFormat.bgra8)
    ∷ (VkFormat.e_r32_sint, ImageFormat.r32i)
    ∷ (VkFormat.e_r32g32b32_sint, ImageFormat.rgb32i)
    ∷ (VkFormat.e_r32g32b32a32_sint, ImageFormat.rgba32i)
    ∷ (VkFormat.e_r32_sfloat, ImageFormat.r32f)
    ∷ (VkFormat.e_r32g32b32_sfloat, ImageFormat.rgb32f)
    ∷ (VkFormat.e_r32g32b32a32_sfloat, ImageFormat.rgba32f)
    ∷ (VkFormat.e_d32_sfloat, ImageFormat.d32f)
    ∷ (VkFormat.e_d24_unorm_s8_uint, ImageFormat.d32f)
    ∷ []

-- `Vulkan::convert( vk::Format )`
unfoldable pub format_from_vk : Enumeration VkFormat → ℕ → ℕ
format_from_vk vk format = format_number (switch vk vk_format_table ImageFormat.rgb8 format)
