-- ===== src/Library/Enums/Formats.antt =====
-- src/library/Image.h: `ImageFormat`.
use kgl.Common.{ℕ, ◌≡◌, refl, sym, ap, ◌∙◌, List, [], ◌∷◌, get_elem?, from_option}
use kgl.Common.Switch.{Enumeration}

-- `enum class ImageFormat`, and the numbers of its enumerators.
pub data ImageFormat : Type 0 where
  r8 r32i r32f rgb8 bgr8 rgb32i rgb32f rgba8 bgra8 rgba32i rgba32f d32f : ImageFormat

abbrev all_image_formats : List ImageFormat
all_image_formats =
    r8 ∷ r32i ∷ r32f ∷ rgb8 ∷ bgr8 ∷ rgb32i ∷ rgb32f ∷ rgba8 ∷ bgra8 ∷ rgba32i ∷ rgba32f ∷ d32f ∷ []

unfoldable pub format_number : ImageFormat → ℕ
format_number r8 = 0
format_number r32i = 1
format_number r32f = 2
format_number rgb8 = 3
format_number bgr8 = 4
format_number rgb32i = 5
format_number rgb32f = 6
format_number rgba8 = 7
format_number bgra8 = 8
format_number rgba32i = 9
format_number rgba32f = 10
format_number d32f = 11

abbrev image_format_at : ℕ → ImageFormat
image_format_at n = from_option (λ (this : ImageFormat). this) r8 (get_elem? all_image_formats (n))

image_format_at-format_number : (this : ImageFormat) → image_format_at (format_number this) ≡ this
unfolding format_number
image_format_at-format_number r8 = refl
image_format_at-format_number _ = refl

pub format_number-injective :
    (this that : ImageFormat) → format_number this ≡ format_number that → this ≡ that
format_number-injective this that same =
    sym (image_format_at-format_number this)
    ∙ ap image_format_at same
    ∙ image_format_at-format_number that

abbrev pub image_formats : Enumeration ImageFormat
image_formats = record { value = format_number; distinct = format_number-injective }
