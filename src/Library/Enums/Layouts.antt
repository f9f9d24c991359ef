-- ===== src/Library/Enums/Layouts.antt =====
-- src/library/Image.h: `ImageLayout`.
use kgl.Common.{ℕ, ◌≡◌, refl, sym, ap, ◌∙◌, List, [], ◌∷◌, get_elem?, from_option}
use kgl.Common.Switch.{Enumeration}

-- `enum class ImageLayout`, and the numbers of its enumerators.
pub data ImageLayout : Type 0 where
  undefined general color_attachment shader_read transfer_src transfer_dst : ImageLayout
  present_src depth_read depth_stencil : ImageLayout

abbrev all_image_layouts : List ImageLayout
all_image_layouts =
    undefined ∷ general ∷ color_attachment ∷ shader_read ∷ transfer_src ∷ transfer_dst ∷ present_src
    ∷ depth_read ∷ depth_stencil ∷ []

unfoldable pub layout_number : ImageLayout → ℕ
layout_number undefined = 0
layout_number general = 1
layout_number color_attachment = 2
layout_number shader_read = 3
layout_number transfer_src = 4
layout_number transfer_dst = 5
layout_number present_src = 6
layout_number depth_read = 7
layout_number depth_stencil = 8

abbrev image_layout_at : ℕ → ImageLayout
image_layout_at n =
    from_option (λ (this : ImageLayout). this) undefined (get_elem? all_image_layouts (n))

image_layout_at-layout_number : (this : ImageLayout) → image_layout_at (layout_number this) ≡ this
unfolding layout_number
image_layout_at-layout_number undefined = refl
image_layout_at-layout_number _ = refl

pub layout_number-injective :
    (this that : ImageLayout) → layout_number this ≡ layout_number that → this ≡ that
layout_number-injective this that same =
    sym (image_layout_at-layout_number this)
    ∙ ap image_layout_at same
    ∙ image_layout_at-layout_number that

abbrev pub image_layouts : Enumeration ImageLayout
image_layouts = record { value = layout_number; distinct = layout_number-injective }
