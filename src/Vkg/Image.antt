-- ===== src/Vkg/Image.antt =====
-- src/vkg/Image.cpp: the size, the format and the layouts of an image, with the barriers that its
-- transitions record. The device's part (memory, view, sampler) is left out: `made` says whether
-- there is an image.
pub mod Layouts
mod Tests
use kgl.Common.{
  ℕ, ◌*◌, ◌%◌, ◌^◌, Bool, true, false, not, ◌&&◌, if◌then◌else◌, ◌==◌, List, [], ◌∷◌, ◌++◌,
}
use kgl.Common.Switch.{Enumeration}
use kgl.Library.Enums.Formats.{ImageFormat, format_number}
use kgl.Library.Enums.Layouts.{ImageLayout, layout_number}
use kgl.Vkg.Convert.Formats.{VkFormat, format_to_vk, format_from_vk}
use kgl.Vkg.Convert.Layouts.{VkLayout, layout_to_vk, layout_from_vk}

-- `ImageData`: formats and layouts are numbers of Vulkan. `barriers` are the old and the new layout
-- of each barrier that has been submitted for the image.
pub record Image : Type 0 where
  pub made : Bool
  pub width : ℕ
  pub height : ℕ
  pub layers : ℕ
  pub preallocated : Bool
  pub format : ℕ
  pub layout : ℕ
  pub old_layout : ℕ
  pub barriers : List (ℕ × ℕ)

module _ (formats : Enumeration VkFormat) (layouts : Enumeration VkLayout) where
  -- `ImageData()`
  unfoldable pub new_image : Image
  new_image = record {
    made = false;
    width = 0;
    height = 0;
    layers = 1;
    preallocated = false;
    format = formats.value VkFormat.e_r8g8b8a8_srgb;
    layout = layouts.value VkLayout.e_undefined;
    old_layout = layouts.value VkLayout.e_undefined;
    barriers = [];
  }

  -- `initialize`, from the number of a format. `fits` says whether the memory is large enough for
  -- the image, which is made in any case.
  unfoldable pub initialize : ℕ → ℕ → ℕ → ℕ → Bool → Image → Image × Bool
  initialize format width height num_layers fits m = (
    record m {
      made = true;
      width = width;
      height = height;
      layers = num_layers;
      format = format_to_vk formats format;
      barriers = [];
    },
    fits,
  )

  -- `setLayout`
  unfoldable pub set_layout : ℕ → Image → Image
  set_layout layout m = record m { layout = layout_to_vk layouts layout }

  -- `layout` and `format`
  unfoldable pub layout_of : Image → ℕ
  layout_of m = layout_from_vk layouts m.layout

  unfoldable pub format_of : Image → ℕ
  format_of m = format_from_vk formats m.format

  -- `transition`
  unfoldable pub transition : ℕ → Image → Image
  transition layout m =
      let new_layout = layout_to_vk layouts layout in
      record m {
        barriers = m.barriers ++ (m.layout, new_layout) ∷ [];
        old_layout = m.layout;
        layout = new_layout;
      }

  -- `revertLayout`
  unfoldable pub revert_layout : Image → Image
  revert_layout m =
      if not (m.old_layout == layouts.value VkLayout.e_undefined)
      then transition (layout_from_vk layouts m.old_layout) m
      else m

  -- `reset`
  unfoldable pub reset : Image → Image
  reset m = record m { made = false; layout = layouts.value VkLayout.e_undefined }

  -- `resize`, with the one layer that `initialize` takes by default, and whatever it returns.
  unfoldable pub resize : ℕ → ℕ → Bool → Image → Image × Bool
  resize width height fits m =
      if not (m.width == width) && not (m.height == height)
      then (
        transition (layout_from_vk layouts m.layout)
            (initialize (format_from_vk formats m.format) width height 1 fits (reset m)).0,
        true,
      )
      else (m, false)

-- `size`
unfoldable pub size : Image → ℕ
size m = m.width * m.height * m.layers % 2 ^ 32
