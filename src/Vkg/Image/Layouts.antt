-- ===== src/Vkg/Image/Layouts.antt =====
-- The layouts of an image over its transitions, and what a resize does.
use kgl.Common.{
  Bool, arith, true, ℕ, ◌≡◌, ◌≢◌, inl, inr, refl, sym, ap, ◌∙◌, not, ◌==◌, ==_iff, List, [], ◌∷◌,
  ◌++◌, Bool-cases,
}
use kgl.Common.Switch.{Enumeration, switch, switch-switch}
use kgl.Library.Enums.Layouts.{ImageLayout, layout_number, image_layouts}
use kgl.Vkg.Convert.Formats.{VkFormat}
use kgl.Vkg.Convert.Layouts.{VkLayout, layout_table, vk_layout_table, layout_to_vk, layout_from_vk}
use kgl.Vkg.Convert.Numbers.{vk_layouts, vk_layout_number}
use kgl.Vkg.Convert.RoundTrip.{layout_from_vk-layout_to_vk}
use kgl.Vkg.Image.{Image, initialize, transition, revert_layout}

-- Each barrier starts from the layout at which the one before it ended.
abbrev pub AreLinked : ℕ → List (ℕ × ℕ) → ℕ → Type 0
AreLinked from [] to = from ≡ to
AreLinked from ((old, new) ∷ barriers) to = (from ≡ old) × AreLinked new barriers to

AreLinked-append :
    (barriers : List (ℕ × ℕ)) (from old new : ℕ)
    → AreLinked from barriers old
    → AreLinked from (barriers ++ (old, new) ∷ []) new
AreLinked-append [] from old new h = (h, refl)
AreLinked-append ((a, b) ∷ barriers) from old new h = (h.0, AreLinked-append barriers b old new h.1)

-- What a client does to the layout of an image.
pub data Change : Type 0 where
  transitions : ImageLayout → Change
  reverts : Change

module _ (formats : Enumeration VkFormat) (layouts : Enumeration VkLayout) where
  unfoldable pub change : Change → Image → Image
  change (transitions l) m = transition formats layouts (layout_number l) m
  change reverts m = revert_layout formats layouts m

  unfoldable pub changes : List Change → Image → Image
  changes [] m = m
  changes (c ∷ cs) m = changes cs (change c m)

  change-AreLinked :
      (c : Change) (m : Image) (from : ℕ)
      → AreLinked from m.barriers m.layout
      → AreLinked from (change c m).barriers (change c m).layout
  unfolding change transition revert_layout
  change-AreLinked (transitions l) m from h = AreLinked-append m.barriers from m.layout _ h
  change-AreLinked reverts m from h =
      elim (Bool-cases (not (m.old_layout == layouts.value VkLayout.e_undefined))) [
        | inl back ↦ rw back (AreLinked-append m.barriers from m.layout _ h)
        | inr still ↦ rw still h
      ]

  changes-linked :
      (cs : List Change) (m : Image) (from : ℕ)
      → AreLinked from m.barriers m.layout
      → AreLinked from (changes cs m).barriers (changes cs m).layout
  unfolding changes
  changes-linked [] m from h = h
  changes-linked (c ∷ cs) m from h =
      changes-linked cs (change c m) from (change-AreLinked c m from h)

-- The layout that Vulkan's layout comes from.
abbrev layout_back : VkLayout → ImageLayout
layout_back VkLayout.e_general = ImageLayout.general
layout_back VkLayout.e_color_attachment_optimal = ImageLayout.color_attachment
layout_back VkLayout.e_shader_read_only_optimal = ImageLayout.shader_read
layout_back VkLayout.e_transfer_src_optimal = ImageLayout.transfer_src
layout_back VkLayout.e_transfer_dst_optimal = ImageLayout.transfer_dst
layout_back VkLayout.e_present_src_khr = ImageLayout.present_src
layout_back VkLayout.e_depth_read_only_optimal_khr = ImageLayout.depth_read
layout_back VkLayout.e_depth_stencil_attachment_optimal = ImageLayout.depth_stencil
layout_back _ = ImageLayout.undefined

layout_again :
    (l : ImageLayout)
    → layout_back (switch image_layouts layout_table VkLayout.e_undefined (layout_number l)) ≡ l
unfolding switch layout_table layout_number
layout_again ImageLayout.general = refl
layout_again _ = refl

-- Only `Undefined` is converted to eUndefined.
layout_to_vk_undefined :
    (vk : Enumeration VkLayout) (l : ImageLayout)
    → layout_to_vk vk (layout_number l) ≡ vk.value VkLayout.e_undefined
    → l ≡ ImageLayout.undefined
unfolding layout_to_vk
layout_to_vk_undefined vk l same =
    sym (layout_again l) ∙ ap layout_back (vk.distinct _ VkLayout.e_undefined same)

layout_from_vk_undefined :
    (vk : Enumeration VkLayout)
    → layout_from_vk vk (layout_to_vk vk (layout_number ImageLayout.depth_stencil))
      ≡ layout_number ImageLayout.undefined
unfolding layout_from_vk layout_to_vk
layout_from_vk_undefined vk =
    ap layout_number (switch-switch vk vk_layouts vk_layout_table _ _)
    ∙ unfold switch layout_table vk_layout_table layout_number vk_layout_number in refl

-- The layout that a revert to a layout comes to, where the image has another one: it stays where the
-- old one is `Undefined`, and `DepthStencil` is read back as `Undefined`.
abbrev pub reverted : ImageLayout → ImageLayout → ImageLayout
reverted ImageLayout.undefined l' = l'
reverted ImageLayout.depth_stencil l' = ImageLayout.undefined
reverted l l' = l

-- The old layout after that.
abbrev pub reverted_from : ImageLayout → ImageLayout → ImageLayout
reverted_from ImageLayout.undefined l' = ImageLayout.undefined
reverted_from _ l' = l'

module _ (formats : Enumeration VkFormat) (layouts : Enumeration VkLayout) where
  -- The old layout and the layout of an image are those of the library.
  pub record At (old now : ImageLayout) (m : Image) : Type 0 where
    pub old_is : m.old_layout ≡ layout_to_vk layouts (layout_number old)
    pub now_is : m.layout ≡ layout_to_vk layouts (layout_number now)

  still :
      (l' : ImageLayout) (m : Image)
      → At ImageLayout.undefined l' m
      → revert_layout formats layouts m ≡ m
  unfolding revert_layout
  still l' m h =
      let none_yet : layout_to_vk layouts (layout_number ImageLayout.undefined)
          ≡ layouts.value VkLayout.e_undefined =
        unfold layout_to_vk switch layout_table layout_number in refl in
      let same : (layouts.value VkLayout.e_undefined == layouts.value VkLayout.e_undefined) ≡ true =
        ground arith in
      rw (h.old_is, none_yet, same) refl

  goes :
      (l l' : ImageLayout) (m : Image)
      → At l l' m
      → l ≢ ImageLayout.undefined
      → revert_layout formats layouts m
        ≡ transition formats layouts
            (layout_from_vk layouts (layout_to_vk layouts (layout_number l)))
            m
  unfolding revert_layout
  goes l l' m h defined = elim (Bool-cases (m.old_layout == layouts.value VkLayout.e_undefined)) [
    | inl same ↦ absurd (
        defined (
          layout_to_vk_undefined layouts l
            (sym h.old_is ∙ (==_iff m.old_layout (layouts.value VkLayout.e_undefined)).0 same)))
    | inr differ ↦ rw (differ, h.old_is) refl
  ]

  back :
      (l r l' : ImageLayout) (m : Image)
      → At l l' m
      → l ≢ ImageLayout.undefined
      → layout_from_vk layouts (layout_to_vk layouts (layout_number l)) ≡ layout_number r
      → At l' r (revert_layout formats layouts m)
  unfolding transition
  back l r l' m h defined read =
      rw (goes l l' m h defined, read) record { old_is = h.now_is; now_is = refl }

  -- A revert, wherever the image was and is.
  revert_layout-At :
      (l l' : ImageLayout) (m : Image)
      → At l l' m
      → At (reverted_from l l') (reverted l l') (revert_layout formats layouts m)
  revert_layout-At ImageLayout.undefined l' m h = rw (still l' m h) h
  revert_layout-At ImageLayout.depth_stencil l' m h =
      back ImageLayout.depth_stencil ImageLayout.undefined l' m h (λ e. cc)
        (layout_from_vk_undefined layouts)
  revert_layout-At l l' m h =
      back l l l' m h (λ e. cc) (layout_from_vk-layout_to_vk layouts l (λ e. cc))

-- Over any transitions and reverts after an initialisation, each barrier starts from the layout at
-- which the one before it ended, the first from the layout that the image had, and the last one
-- ends at the layout that the image then has.
pub changes-AreLinked :
    (formats : Enumeration VkFormat) (layouts : Enumeration VkLayout) (cs : List Change)
    (format width height num_layers : ℕ) (fits : Bool) (m : Image)
    → let m' =
        changes formats layouts cs
          (initialize formats layouts format width height num_layers fits m).0 in
      AreLinked m.layout m'.barriers m'.layout
changes-AreLinked formats layouts cs format width height num_layers fits m =
    changes-linked formats layouts cs
      (initialize formats layouts format width height num_layers fits m).0 m.layout
      (unfold initialize in refl)

-- A transition from a layout of the library to another, and two reverts. The first goes back to the
-- layout from before, except that it does nothing when that was `Undefined`, and goes to `Undefined`
-- when it was `DepthStencil`. The second goes, in the same way, to the layout that the first left,
-- which becomes the old one when the first does something.
pub revert_layout-transition :
    (formats : Enumeration VkFormat) (layouts : Enumeration VkLayout) (l l' : ImageLayout)
    (m : Image)
    → m.layout ≡ layout_to_vk layouts (layout_number l)
    → let back = revert_layout formats layouts (transition formats layouts (layout_number l') m) in
      At formats layouts (reverted_from l l') (reverted l l') back
      × At formats layouts
          (reverted_from (reverted_from l l') (reverted l l'))
          (reverted (reverted_from l l') (reverted l l'))
          (revert_layout formats layouts back)
revert_layout-transition formats layouts l l' m at =
    let m' = transition formats layouts (layout_number l') m in
    let moved : At formats layouts l l' m' =
      unfold transition in record { old_is = at; now_is = refl } in
    let one = revert_layout-At formats layouts l l' m' moved in
    (one, revert_layout-At formats layouts (reverted_from l l') (reverted l l') _ one)
