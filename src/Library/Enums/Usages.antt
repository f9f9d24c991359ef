-- ===== src/Library/Enums/Usages.antt =====
-- src/library/Image.h: `ImageUsage`, `ImageType`.
use kgl.Common.{ℕ, ◌≡◌, refl, sym, ap, ◌∙◌, List, [], ◌∷◌, get_elem?, from_option, ◌-◌}
use kgl.Common.Switch.{Enumeration}

-- `enum class ImageUsage`, and the numbers of its enumerators.
pub data ImageUsage : Type 0 where
  transfer_src transfer_dst sampled storage color_attachment depth_stencil input : ImageUsage
  shading_rate vkext_fragment_density : ImageUsage

abbrev all_image_usages : List ImageUsage
all_image_usages =
    transfer_src ∷ transfer_dst ∷ sampled ∷ storage ∷ color_attachment ∷ depth_stencil ∷ input
    ∷ shading_rate ∷ vkext_fragment_density ∷ []

unfoldable pub usage_number : ImageUsage → ℕ
usage_number transfer_src = 0
usage_number transfer_dst = 1
usage_number sampled = 2
usage_number storage = 3
usage_number color_attachment = 4
usage_number depth_stencil = 5
usage_number input = 6
usage_number shading_rate = 7
usage_number vkext_fragment_density = 8

abbrev image_usage_at : ℕ → ImageUsage
image_usage_at n =
    from_option (λ (this : ImageUsage). this) transfer_src (get_elem? all_image_usages (n))

image_usage_at-usage_number : (this : ImageUsage) → image_usage_at (usage_number this) ≡ this
unfolding usage_number
image_usage_at-usage_number transfer_src = refl
image_usage_at-usage_number _ = refl

pub usage_number-injective :
    (this that : ImageUsage) → usage_number this ≡ usage_number that → this ≡ that
usage_number-injective this that same =
    sym (image_usage_at-usage_number this)
    ∙ ap image_usage_at same
    ∙ image_usage_at-usage_number that

abbrev pub image_usages : Enumeration ImageUsage
image_usages = record { value = usage_number; distinct = usage_number-injective }

-- `enum class ImageType`, and the numbers of its enumerators.
pub data ImageType : Type 0 where
  n1d n2d n3d : ImageType

abbrev all_image_types : List ImageType
all_image_types = n1d ∷ n2d ∷ n3d ∷ []

unfoldable pub image_type_number : ImageType → ℕ
image_type_number n1d = 1
image_type_number n2d = 2
image_type_number n3d = 3

abbrev image_type_at : ℕ → ImageType
image_type_at n = from_option (λ (this : ImageType). this) n1d (get_elem? all_image_types (n - 1))

image_type_at-image_type_number : (this : ImageType) → image_type_at (image_type_number this) ≡ this
unfolding image_type_number
image_type_at-image_type_number n1d = refl
image_type_at-image_type_number _ = refl

pub image_type_number-injective :
    (this that : ImageType) → image_type_number this ≡ image_type_number that → this ≡ that
image_type_number-injective this that same =
    sym (image_type_at-image_type_number this)
    ∙ ap image_type_at same
    ∙ image_type_at-image_type_number that

abbrev pub image_types : Enumeration ImageType
image_types = record { value = image_type_number; distinct = image_type_number-injective }
