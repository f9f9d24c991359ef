-- ===== src/Vkg/Convert/Tests.antt =====
-- Runs of the conversions.
use kgl.Common.{ℕ, ◌≡◌, ◌↔◌, refl, List, [], ◌∷◌, true, false}
use kgl.Common.Switch.{switch}
use kgl.Library.Enums.Formats.{ImageFormat, format_number}
use kgl.Library.Enums.Layouts.{ImageLayout, layout_number}
use kgl.Library.Enums.Usages.{ImageUsage, ImageType, usage_number, image_type_number}
use kgl.Library.Attachment.{Setting, set, set_all, new_attachment}
use kgl.Vkg.Convert.Formats.{VkFormat, format_table, format_to_vk, format_from_vk}
use kgl.Vkg.Convert.Layouts.{VkLayout, layout_to_vk, layout_from_vk}
use kgl.Vkg.Convert.Usages.{usage_to_vk, usage_from_vk, image_type_to_vk, image_type_from_vk}
use kgl.Vkg.Convert.Numbers.{
  vk_formats, vk_layouts, vk_usages, vk_image_types, vk_format_number, vk_layout_number,
}
use kgl.Vkg.Convert.RoundTrip.{from_vk-to_vk}
use kgl.Vkg.Convert.Attachments.{
  e_load, e_clear, e_store, store_dont_care, convert_attachment, convert_attachment-set_all,
}

abbrev settings : List (Setting ℕ)
settings =
    Setting.stencil_test true
    ∷ Setting.format ImageFormat.bgr8
    ∷ Setting.layout ImageLayout.present_src
    ∷ Setting.stencil_clear true
    ∷ Setting.stencil_test false
    ∷ []

-- A format that no enumerator has is undefined for Vulkan.
no_such_format : format_to_vk vk_formats 40 ≡ vk_format_number VkFormat.e_undefined
unfolding format_to_vk switch format_table vk_format_number format_number
no_such_format = refl

description :
    convert_attachment vk_formats vk_layouts (set_all settings (new_attachment 0 1)) ≡ record {
      samples = 1;
      load_op = e_clear;
      store_op = e_store;
      format = format_to_vk vk_formats (format_number ImageFormat.bgr8);
      initial_layout = 0;
      stencil_load_op = e_clear;
      stencil_store_op = store_dont_care;
      final_layout = layout_to_vk vk_layouts (layout_number ImageLayout.present_src);
    }
unfolding convert_attachment set_all set new_attachment vk_layout_number
description = refl

from_vk-to_vk_example :
    (format_from_vk vk_formats (format_to_vk vk_formats (format_number ImageFormat.rgb8))
      ≡ format_number ImageFormat.rgb8)
    × (layout_from_vk vk_layouts (layout_to_vk vk_layouts (layout_number ImageLayout.general))
        ≡ layout_number ImageLayout.general)
    × (usage_from_vk vk_usages (usage_to_vk vk_usages (usage_number ImageUsage.storage))
        ≡ usage_number ImageUsage.storage)
    × (image_type_from_vk vk_image_types
          (image_type_to_vk vk_image_types (image_type_number ImageType.n3d))
        ≡ image_type_number ImageType.n3d)
from_vk-to_vk_example =
    from_vk-to_vk vk_formats vk_layouts vk_usages vk_image_types ImageFormat.rgb8
      ImageLayout.general ImageUsage.storage ImageType.n3d (λ e. cc)

convert_attachment-set_all_example :
    let d = convert_attachment vk_formats vk_layouts (set_all settings (new_attachment 0 1)) in
    (d.format ≡ vk_formats.value VkFormat.e_b8g8r8_srgb)
    × (d.initial_layout ≡ vk_layouts.value VkLayout.e_undefined)
    × (d.final_layout ≡ vk_layouts.value VkLayout.e_present_src_khr)
    × ((d.stencil_load_op ≡ e_load) ↔ (false ≡ true))
    × ((d.stencil_load_op ≡ e_clear) ↔ ((false ≡ false) × (true ≡ true)))
    × ((d.stencil_store_op ≡ e_store) ↔ (false ≡ true))
convert_attachment-set_all_example = convert_attachment-set_all vk_formats vk_layouts 0 1 settings
