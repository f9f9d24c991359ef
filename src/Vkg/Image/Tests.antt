-- ===== src/Vkg/Image/Tests.antt =====
-- Runs of an image.
use kgl.Common.{◌≡◌, refl, true, false, List, [], ◌∷◌}
use kgl.Common.Switch.{switch}
use kgl.Library.Enums.Layouts.{ImageLayout, layout_number}
use kgl.Vkg.Convert.Formats.{VkFormat}
use kgl.Vkg.Convert.Layouts.{VkLayout, layout_table, vk_layout_table, layout_to_vk, layout_from_vk}
use kgl.Vkg.Convert.Numbers.{vk_formats, vk_layouts, vk_format_number, vk_layout_number}
use kgl.Vkg.Image.{Image, initialize, transition, revert_layout, resize}
use kgl.Vkg.Image.Layouts.{
  AreLinked, At, Change, transitions, reverts, change, changes, changes-AreLinked,
  revert_layout-transition,
}

abbrev image : Image
image = record {
  made = true;
  width = 4;
  height = 4;
  layers = 2;
  preallocated = false;
  format = vk_format_number VkFormat.e_r8_srgb;
  layout = vk_layout_number VkLayout.e_general;
  old_layout = vk_layout_number VkLayout.e_undefined;
  barriers = [];
}

-- A resize of the width alone does nothing.
resize_width : resize vk_formats vk_layouts 8 4 true image ≡ (image, false)
unfolding resize
resize_width = refl

-- A resize of both leaves one layer.
resize_both : (resize vk_formats vk_layouts 8 8 true image).0.layers ≡ 1
unfolding resize initialize transition
resize_both = refl

abbrev there_and_back : List Change
there_and_back = transitions ImageLayout.transfer_dst ∷ reverts ∷ []

barriers_run :
    (changes vk_formats vk_layouts there_and_back image).barriers
    ≡ (vk_layout_number VkLayout.e_general, vk_layout_number VkLayout.e_transfer_dst_optimal)
      ∷ (vk_layout_number VkLayout.e_transfer_dst_optimal, vk_layout_number VkLayout.e_general)
      ∷ []
unfolding changes change transition revert_layout layout_to_vk layout_from_vk switch layout_table
    vk_layout_table layout_number vk_layout_number
barriers_run = refl

changes-AreLinked_example :
    let m' =
      changes vk_formats vk_layouts there_and_back
        (initialize vk_formats vk_layouts 0 2 2 1 true image).0 in
    AreLinked image.layout m'.barriers m'.layout
changes-AreLinked_example =
    changes-AreLinked vk_formats vk_layouts there_and_back 0 2 2 1 true image

revert_layout-transition_example :
    let back =
      revert_layout vk_formats vk_layouts
        (transition vk_formats vk_layouts (layout_number ImageLayout.transfer_dst) image) in
    At vk_formats vk_layouts ImageLayout.transfer_dst ImageLayout.general back
    × At vk_formats vk_layouts ImageLayout.general ImageLayout.transfer_dst
        (revert_layout vk_formats vk_layouts back)
revert_layout-transition_example =
    revert_layout-transition vk_formats vk_layouts ImageLayout.general ImageLayout.transfer_dst
      image (unfold layout_to_vk switch layout_table layout_number vk_layout_number in refl)
