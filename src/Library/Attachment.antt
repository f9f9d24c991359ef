-- ===== src/Library/Attachment.antt =====
-- src/library/RenderPass.cpp: the settings of an attachment of a render pass, over a type of floats.
use kgl.Common.{ℕ, Bool, false, List, [], ◌∷◌}
use kgl.Library.Enums.Formats.{ImageFormat, format_number}
use kgl.Library.Enums.Layouts.{ImageLayout, layout_number}

-- `Attachment`
pub record Attachment (F : Type 0) : Type 0 where
  pub r : F
  pub g : F
  pub b : F
  pub a : F
  pub store_stencil : Bool
  pub test_stencil : Bool
  pub clear_stencil : Bool
  pub img_format : ℕ
  pub img_layout : ℕ

-- `Attachment()`, with the floats 0 and 1.
unfoldable pub new_attachment : {F : Type 0} → F → F → Attachment F
new_attachment f0 f1 = record {
  r = f0;
  g = f0;
  b = f0;
  a = f1;
  store_stencil = false;
  test_stencil = false;
  clear_stencil = false;
  img_format = format_number ImageFormat.rgba8;
  img_layout = layout_number ImageLayout.color_attachment;
}

-- The setters.
pub data Setting (F : Type 0) : Type 0 where
  clear_color : F → F → F → F → Setting F
  stencil_test : Bool → Setting F
  stencil_clear : Bool → Setting F
  stencil_store : Bool → Setting F
  format : ImageFormat → Setting F
  layout : ImageLayout → Setting F

unfoldable pub set : {F : Type 0} → Setting F → Attachment F → Attachment F
set (clear_color red green blue alpha) t = record t { r = red; g = green; b = blue; a = alpha }
set (stencil_test value) t = record t { test_stencil = value }
set (stencil_clear value) t = record t { clear_stencil = value }
set (stencil_store value) t = record t { store_stencil = value }
set (format f) t = record t { img_format = format_number f }
set (layout l) t = record t { img_layout = layout_number l }

unfoldable pub set_all : {F : Type 0} → List (Setting F) → Attachment F → Attachment F
set_all [] t = t
set_all (setting ∷ settings) t = set_all settings (set setting t)
