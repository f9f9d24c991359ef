-- ===== src/Vkg/Convert/Attachments.antt =====
-- src/vkg/Vulkan.cpp: the description of an attachment for Vulkan.
use kgl.Common.{ℕ, ◌≡◌, ◌↔◌, refl, Bool, true, false, if◌then◌else◌, List, [], ◌∷◌, arith}
use kgl.Common.Switch.{Enumeration, switch}
use kgl.Library.Enums.Formats.{ImageFormat, format_number}
use kgl.Library.Enums.Layouts.{ImageLayout, layout_number}
use kgl.Library.Attachment.{Attachment, Setting, set, set_all, new_attachment}
use kgl.Vkg.Convert.Formats.{VkFormat, format_table, format_to_vk}
use kgl.Vkg.Convert.Layouts.{VkLayout, layout_table, layout_to_vk}

pub data LoadOp : Type 0 where
  e_load e_clear load_dont_care : LoadOp

pub data StoreOp : Type 0 where
  e_store store_dont_care : StoreOp

-- `vk::AttachmentDescription`, as far as the code sets it. `samples` is a number of samples.
pub record AttachmentDescription : Type 0 where
  pub samples : ℕ
  pub load_op : LoadOp
  pub store_op : StoreOp
  pub format : ℕ
  pub initial_layout : ℕ
  pub stencil_load_op : LoadOp
  pub stencil_store_op : StoreOp
  pub final_layout : ℕ

module _ {F : Type 0} (formats : Enumeration VkFormat) (layouts : Enumeration VkLayout) where
  -- `Vulkan::convert( const nyx::Attachment& )`
  unfoldable pub convert_attachment : Attachment F → AttachmentDescription
  convert_attachment attachment = record {
    samples = 1;
    load_op = e_clear;
    store_op = e_store;
    format = format_to_vk formats attachment.img_format;
    initial_layout = layouts.value VkLayout.e_undefined;
    stencil_load_op =
        if attachment.test_stencil
        then e_load
        else if attachment.clear_stencil
        then e_clear
        else load_dont_care;
    stencil_store_op = if attachment.store_stencil then e_store else store_dont_care;
    final_layout = layout_to_vk layouts attachment.img_layout;
  }

-- The last setting of this kind.
abbrev pub last_format : {F : Type 0} → ImageFormat → List (Setting F) → ImageFormat
last_format x [] = x
last_format x (Setting.format y ∷ rest) = last_format y rest
last_format x (_ ∷ rest) = last_format x rest

set_all-last_format :
    {F : Type 0} (settings : List (Setting F)) (t : Attachment F) (x : ImageFormat)
    → t.img_format ≡ format_number x
    → (set_all settings t).img_format ≡ format_number (last_format x settings)
unfolding set_all set
set_all-last_format [] t x h = h
set_all-last_format (Setting.format y ∷ rest) t x h =
    set_all-last_format rest (set (Setting.format y) t) y refl
set_all-last_format (Setting.clear_color r g b a ∷ rest) t x h =
    set_all-last_format rest (set (Setting.clear_color r g b a) t) x h
set_all-last_format (Setting.stencil_test v ∷ rest) t x h =
    set_all-last_format rest (set (Setting.stencil_test v) t) x h
set_all-last_format (Setting.stencil_clear v ∷ rest) t x h =
    set_all-last_format rest (set (Setting.stencil_clear v) t) x h
set_all-last_format (Setting.stencil_store v ∷ rest) t x h =
    set_all-last_format rest (set (Setting.stencil_store v) t) x h
set_all-last_format (Setting.layout v ∷ rest) t x h =
    set_all-last_format rest (set (Setting.layout v) t) x h

-- The last setting of this kind.
abbrev pub last_layout : {F : Type 0} → ImageLayout → List (Setting F) → ImageLayout
last_layout x [] = x
last_layout x (Setting.layout y ∷ rest) = last_layout y rest
last_layout x (_ ∷ rest) = last_layout x rest

set_all-last_layout :
    {F : Type 0} (settings : List (Setting F)) (t : Attachment F) (x : ImageLayout)
    → t.img_layout ≡ layout_number x
    → (set_all settings t).img_layout ≡ layout_number (last_layout x settings)
unfolding set_all set
set_all-last_layout [] t x h = h
set_all-last_layout (Setting.layout y ∷ rest) t x h =
    set_all-last_layout rest (set (Setting.layout y) t) y refl
set_all-last_layout (Setting.clear_color r g b a ∷ rest) t x h =
    set_all-last_layout rest (set (Setting.clear_color r g b a) t) x h
set_all-last_layout (Setting.stencil_test v ∷ rest) t x h =
    set_all-last_layout rest (set (Setting.stencil_test v) t) x h
set_all-last_layout (Setting.stencil_clear v ∷ rest) t x h =
    set_all-last_layout rest (set (Setting.stencil_clear v) t) x h
set_all-last_layout (Setting.stencil_store v ∷ rest) t x h =
    set_all-last_layout rest (set (Setting.stencil_store v) t) x h
set_all-last_layout (Setting.format v ∷ rest) t x h =
    set_all-last_layout rest (set (Setting.format v) t) x h

-- The last setting of this kind.
abbrev pub last_test : {F : Type 0} → Bool → List (Setting F) → Bool
last_test x [] = x
last_test x (Setting.stencil_test y ∷ rest) = last_test y rest
last_test x (_ ∷ rest) = last_test x rest

set_all-last_test :
    {F : Type 0} (settings : List (Setting F)) (t : Attachment F) (x : Bool)
    → t.test_stencil ≡ x
    → (set_all settings t).test_stencil ≡ last_test x settings
unfolding set_all set
set_all-last_test [] t x h = h
set_all-last_test (Setting.stencil_test y ∷ rest) t x h =
    set_all-last_test rest (set (Setting.stencil_test y) t) y refl
set_all-last_test (Setting.clear_color r g b a ∷ rest) t x h =
    set_all-last_test rest (set (Setting.clear_color r g b a) t) x h
set_all-last_test (Setting.stencil_clear v ∷ rest) t x h =
    set_all-last_test rest (set (Setting.stencil_clear v) t) x h
set_all-last_test (Setting.stencil_store v ∷ rest) t x h =
    set_all-last_test rest (set (Setting.stencil_store v) t) x h
set_all-last_test (Setting.format v ∷ rest) t x h =
    set_all-last_test rest (set (Setting.format v) t) x h
set_all-last_test (Setting.layout v ∷ rest) t x h =
    set_all-last_test rest (set (Setting.layout v) t) x h

-- The last setting of this kind.
abbrev pub last_clear : {F : Type 0} → Bool → List (Setting F) → Bool
last_clear x [] = x
last_clear x (Setting.stencil_clear y ∷ rest) = last_clear y rest
last_clear x (_ ∷ rest) = last_clear x rest

set_all-last_clear :
    {F : Type 0} (settings : List (Setting F)) (t : Attachment F) (x : Bool)
    → t.clear_stencil ≡ x
    → (set_all settings t).clear_stencil ≡ last_clear x settings
unfolding set_all set
set_all-last_clear [] t x h = h
set_all-last_clear (Setting.stencil_clear y ∷ rest) t x h =
    set_all-last_clear rest (set (Setting.stencil_clear y) t) y refl
set_all-last_clear (Setting.clear_color r g b a ∷ rest) t x h =
    set_all-last_clear rest (set (Setting.clear_color r g b a) t) x h
set_all-last_clear (Setting.stencil_test v ∷ rest) t x h =
    set_all-last_clear rest (set (Setting.stencil_test v) t) x h
set_all-last_clear (Setting.stencil_store v ∷ rest) t x h =
    set_all-last_clear rest (set (Setting.stencil_store v) t) x h
set_all-last_clear (Setting.format v ∷ rest) t x h =
    set_all-last_clear rest (set (Setting.format v) t) x h
set_all-last_clear (Setting.layout v ∷ rest) t x h =
    set_all-last_clear rest (set (Setting.layout v) t) x h

-- The last setting of this kind.
abbrev pub last_store : {F : Type 0} → Bool → List (Setting F) → Bool
last_store x [] = x
last_store x (Setting.stencil_store y ∷ rest) = last_store y rest
last_store x (_ ∷ rest) = last_store x rest

set_all-last_store :
    {F : Type 0} (settings : List (Setting F)) (t : Attachment F) (x : Bool)
    → t.store_stencil ≡ x
    → (set_all settings t).store_stencil ≡ last_store x settings
unfolding set_all set
set_all-last_store [] t x h = h
set_all-last_store (Setting.stencil_store y ∷ rest) t x h =
    set_all-last_store rest (set (Setting.stencil_store y) t) y refl
set_all-last_store (Setting.clear_color r g b a ∷ rest) t x h =
    set_all-last_store rest (set (Setting.clear_color r g b a) t) x h
set_all-last_store (Setting.stencil_test v ∷ rest) t x h =
    set_all-last_store rest (set (Setting.stencil_test v) t) x h
set_all-last_store (Setting.stencil_clear v ∷ rest) t x h =
    set_all-last_store rest (set (Setting.stencil_clear v) t) x h
set_all-last_store (Setting.format v ∷ rest) t x h =
    set_all-last_store rest (set (Setting.format v) t) x h
set_all-last_store (Setting.layout v ∷ rest) t x h =
    set_all-last_store rest (set (Setting.layout v) t) x h

-- Vulkan's format with the same channels, of 32 bits or of 8 in sRGB; for the depth it is that of 24
-- bits with a stencil.
abbrev pub vk_format_of : ImageFormat → VkFormat
vk_format_of ImageFormat.r8 = VkFormat.e_r8_srgb
vk_format_of ImageFormat.rgb8 = VkFormat.e_r8g8b8_srgb
vk_format_of ImageFormat.bgr8 = VkFormat.e_b8g8r8_srgb
vk_format_of ImageFormat.rgba8 = VkFormat.e_r8g8b8a8_srgb
vk_format_of ImageFormat.bgra8 = VkFormat.e_b8g8r8a8_srgb
vk_format_of ImageFormat.r32i = VkFormat.e_r32_sint
vk_format_of ImageFormat.rgb32i = VkFormat.e_r32g32b32_sint
vk_format_of ImageFormat.rgba32i = VkFormat.e_r32g32b32a32_sint
vk_format_of ImageFormat.r32f = VkFormat.e_r32_sfloat
vk_format_of ImageFormat.rgb32f = VkFormat.e_r32g32b32_sfloat
vk_format_of ImageFormat.rgba32f = VkFormat.e_r32g32b32a32_sfloat
vk_format_of ImageFormat.d32f = VkFormat.e_d24_unorm_s8_uint

-- Vulkan's layout of the same name.
abbrev pub vk_layout_of : ImageLayout → VkLayout
vk_layout_of ImageLayout.undefined = VkLayout.e_undefined
vk_layout_of ImageLayout.general = VkLayout.e_general
vk_layout_of ImageLayout.color_attachment = VkLayout.e_color_attachment_optimal
vk_layout_of ImageLayout.shader_read = VkLayout.e_shader_read_only_optimal
vk_layout_of ImageLayout.transfer_src = VkLayout.e_transfer_src_optimal
vk_layout_of ImageLayout.transfer_dst = VkLayout.e_transfer_dst_optimal
vk_layout_of ImageLayout.present_src = VkLayout.e_present_src_khr
vk_layout_of ImageLayout.depth_read = VkLayout.e_depth_read_only_optimal_khr
vk_layout_of ImageLayout.depth_stencil = VkLayout.e_depth_stencil_attachment_optimal

format_to_vk_lem :
    (vk : Enumeration VkFormat) (f : ImageFormat)
    → format_to_vk vk (format_number f) ≡ vk.value (vk_format_of f)
unfolding format_to_vk switch format_table format_number
format_to_vk_lem vk ImageFormat.r8 = refl
format_to_vk_lem vk _ = refl

layout_to_vk_lem :
    (vk : Enumeration VkLayout) (l : ImageLayout)
    → layout_to_vk vk (layout_number l) ≡ vk.value (vk_layout_of l)
unfolding layout_to_vk switch layout_table layout_number
layout_to_vk_lem vk ImageLayout.undefined = refl
layout_to_vk_lem vk _ = refl

-- After any settings of a new attachment, the description for Vulkan starts from eUndefined and has
-- Vulkan's format and final layout for the last format and layout that were set, the format for
-- `D32F` being eD24UnormS8Uint; the stencil is loaded just when its test was last switched on,
-- cleared just when its clearing was and the test was not, and stored just when storing was.
pub convert_attachment-set_all :
    {F : Type 0} (formats : Enumeration VkFormat) (layouts : Enumeration VkLayout) (f0 f1 : F)
    (settings : List (Setting F))
    → let d = convert_attachment formats layouts (set_all settings (new_attachment f0 f1)) in
      (d.format ≡ formats.value (vk_format_of (last_format ImageFormat.rgba8 settings)))
      × (d.initial_layout ≡ layouts.value VkLayout.e_undefined)
      × (d.final_layout
          ≡ layouts.value (vk_layout_of (last_layout ImageLayout.color_attachment settings)))
      × ((d.stencil_load_op ≡ e_load) ↔ (last_test false settings ≡ true))
      × ((d.stencil_load_op ≡ e_clear)
          ↔ ((last_test false settings ≡ false) × (last_clear false settings ≡ true)))
      × ((d.stencil_store_op ≡ e_store) ↔ (last_store false settings ≡ true))
unfolding convert_attachment
convert_attachment-set_all formats layouts f0 f1 settings =
    let t = new_attachment f0 f1 in
    (
      rw (set_all-last_format settings t ImageFormat.rgba8 (unfold new_attachment in refl))
          (format_to_vk_lem formats _),
      refl,
      rw
          (set_all-last_layout settings t ImageLayout.color_attachment
            (unfold new_attachment in refl))
          (layout_to_vk_lem layouts _),
      rw (set_all-last_test settings t false (unfold new_attachment in refl)) (ground arith),
      rw
          (
            set_all-last_test settings t false (unfold new_attachment in refl),
            set_all-last_clear settings t false (unfold new_attachment in refl),
          )
          (ground arith),
      rw (set_all-last_store settings t false (unfold new_attachment in refl)) (ground arith),
    )
