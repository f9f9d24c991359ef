-- ===== src/Vkg/Convert/RoundTrip.antt =====
-- What the conversions keep.
use kgl.Common.{◌≡◌, ◌≢◌, refl, sym, ap, ◌∙◌}
use kgl.Common.Switch.{Enumeration, switch, switch-switch}
use kgl.Library.Enums.Formats.{ImageFormat, format_number}
use kgl.Library.Enums.Layouts.{ImageLayout, layout_number, image_layouts}
use kgl.Library.Enums.Usages.{ImageUsage, ImageType, usage_number, image_type_number}
use kgl.Library.Enums.Stages.{GpuStage, gpu_stage_number, gpu_stages}
use kgl.Vkg.Convert.Formats.{VkFormat, format_table, vk_format_table, format_to_vk, format_from_vk}
use kgl.Vkg.Convert.Layouts.{VkLayout, layout_table, vk_layout_table, layout_to_vk, layout_from_vk}
use kgl.Vkg.Convert.Usages.{
  VkUsage, VkImageType, usage_table, vk_usage_table, image_type_table, vk_image_type_table,
  usage_to_vk, usage_from_vk, image_type_to_vk, image_type_from_vk,
}
use kgl.Vkg.Convert.Stages.{VkStage, stage_table, stage_to_vk}
use kgl.Vkg.Convert.Numbers.{
  vk_formats, vk_layouts, vk_usages, vk_image_types, vk_format_number, vk_layout_number,
  vk_usage_number, vk_image_type_number,
}

format_again :
    (f : ImageFormat)
    → format_from_vk vk_formats (format_to_vk vk_formats (format_number f)) ≡ format_number f
unfolding format_from_vk format_to_vk switch format_table vk_format_table format_number
    vk_format_number
format_again ImageFormat.r8 = refl
format_again _ = refl

pub format_from_vk-format_to_vk :
    (vk : Enumeration VkFormat) (f : ImageFormat)
    → format_from_vk vk (format_to_vk vk (format_number f)) ≡ format_number f
unfolding format_from_vk format_to_vk
format_from_vk-format_to_vk vk f =
    ap format_number (switch-switch vk vk_formats vk_format_table _ _) ∙ format_again f

layout_again :
    (x : ImageLayout)
    → x ≢ ImageLayout.depth_stencil
    → layout_from_vk vk_layouts (layout_to_vk vk_layouts (layout_number x)) ≡ layout_number x
unfolding layout_from_vk layout_to_vk switch layout_table vk_layout_table layout_number
    vk_layout_number
layout_again ImageLayout.depth_stencil other = absurd (other refl)
layout_again _ other = refl

pub layout_from_vk-layout_to_vk :
    (vk : Enumeration VkLayout) (x : ImageLayout)
    → x ≢ ImageLayout.depth_stencil
    → layout_from_vk vk (layout_to_vk vk (layout_number x)) ≡ layout_number x
unfolding layout_from_vk layout_to_vk
layout_from_vk-layout_to_vk vk x other =
    ap layout_number (switch-switch vk vk_layouts vk_layout_table _ _) ∙ layout_again x other

usage_again :
    (x : ImageUsage)
    → usage_from_vk vk_usages (usage_to_vk vk_usages (usage_number x)) ≡ usage_number x
unfolding usage_from_vk usage_to_vk switch usage_table vk_usage_table usage_number vk_usage_number
usage_again ImageUsage.transfer_src = refl
usage_again _ = refl

pub usage_from_vk-usage_to_vk :
    (vk : Enumeration VkUsage) (x : ImageUsage)
    → usage_from_vk vk (usage_to_vk vk (usage_number x)) ≡ usage_number x
unfolding usage_from_vk usage_to_vk
usage_from_vk-usage_to_vk vk x =
    ap usage_number (switch-switch vk vk_usages vk_usage_table _ _) ∙ usage_again x

image_type_again :
    (x : ImageType)
    → image_type_from_vk vk_image_types (image_type_to_vk vk_image_types (image_type_number x))
      ≡ image_type_number x
unfolding image_type_from_vk image_type_to_vk switch image_type_table vk_image_type_table
    image_type_number vk_image_type_number
image_type_again ImageType.n1d = refl
image_type_again _ = refl

pub image_type_from_vk-image_type_to_vk :
    (vk : Enumeration VkImageType) (x : ImageType)
    → image_type_from_vk vk (image_type_to_vk vk (image_type_number x)) ≡ image_type_number x
unfolding image_type_from_vk image_type_to_vk
image_type_from_vk-image_type_to_vk vk x =
    ap image_type_number (switch-switch vk vk_image_types vk_image_type_table _ _)
    ∙ image_type_again x

-- A format, a layout, a usage and a type of an image come back from Vulkan's as they went, whatever
-- Vulkan's numbers are, but for the layout `DepthStencil`.
pub from_vk-to_vk :
    (formats : Enumeration VkFormat) (layouts : Enumeration VkLayout) (usages : Enumeration VkUsage)
    (types : Enumeration VkImageType) (f : ImageFormat) (l : ImageLayout) (u : ImageUsage)
    (t : ImageType)
    → l ≢ ImageLayout.depth_stencil
    → (format_from_vk formats (format_to_vk formats (format_number f)) ≡ format_number f)
      × (layout_from_vk layouts (layout_to_vk layouts (layout_number l)) ≡ layout_number l)
      × (usage_from_vk usages (usage_to_vk usages (usage_number u)) ≡ usage_number u)
      × (image_type_from_vk types (image_type_to_vk types (image_type_number t))
          ≡ image_type_number t)
from_vk-to_vk formats layouts usages types f l u t other = (
  format_from_vk-format_to_vk formats f,
  layout_from_vk-layout_to_vk layouts l other,
  usage_from_vk-usage_to_vk usages u,
  image_type_from_vk-image_type_to_vk types t,
)

-- The layout `DepthStencil` comes back as `Undefined`.
pub layout_depth_stencil :
    (vk : Enumeration VkLayout)
    → layout_from_vk vk (layout_to_vk vk (layout_number ImageLayout.depth_stencil))
      ≡ layout_number ImageLayout.undefined
unfolding layout_from_vk layout_to_vk
layout_depth_stencil vk = ap layout_number (switch-switch vk vk_layouts vk_layout_table _ _) ∙ back
  where
    back :
        layout_number (
          switch vk_layouts vk_layout_table ImageLayout.undefined (
            vk_layouts.value (
              switch image_layouts layout_table VkLayout.e_undefined
                (image_layouts.value ImageLayout.depth_stencil))))
        ≡ layout_number ImageLayout.undefined
    back = unfold switch layout_table vk_layout_table layout_number vk_layout_number in refl

-- The stage that a flag stands for.
abbrev stage_of : VkStage → GpuStage
stage_of VkStage.e_top_of_pipe = GpuStage.top
stage_of VkStage.e_draw_indirect = GpuStage.draw_indirect
stage_of VkStage.e_vertex_input = GpuStage.vertex_input
stage_of VkStage.e_vertex_shader = GpuStage.vertex_shader
stage_of VkStage.e_tessellation_control_shader = GpuStage.tessellation_control_shader
stage_of VkStage.e_tessellation_evaluation_shader = GpuStage.tessellation_evaluation_shader
stage_of VkStage.e_geometry_shader = GpuStage.geometry_shader
stage_of VkStage.e_fragment_shader = GpuStage.fragment_shader
stage_of VkStage.e_early_fragment_tests = GpuStage.early_fragment_tests
stage_of VkStage.e_late_fragment_tests = GpuStage.late_fragment_tests
stage_of VkStage.e_color_attachment_output = GpuStage.color_attachment_output
stage_of VkStage.e_compute_shader = GpuStage.compute_shader
stage_of VkStage.e_transfer = GpuStage.transfer
stage_of VkStage.e_bottom_of_pipe = GpuStage.bottom_of_pipe
stage_of VkStage.e_host = GpuStage.host
stage_of VkStage.e_all_graphics = GpuStage.all_graphics
stage_of VkStage.e_all_commands = GpuStage.all_commands
stage_of VkStage.e_shading_rate_image_nv = GpuStage.shading_rate_image
stage_of VkStage.e_task_shader_nv = GpuStage.task_shader
stage_of VkStage.e_mesh_shader_nv = GpuStage.mesh_shader
stage_of VkStage.e_command_preprocess_nv = GpuStage.command_preprocess
stage_of VkStage.e_acceleration_structure_build_nv = GpuStage.acceleration_structure_build
stage_of VkStage.e_ray_tracing_shader_nv = GpuStage.ray_tracing

stage_again :
    (s : GpuStage)
    → stage_of (switch gpu_stages stage_table VkStage.e_all_commands (gpu_stage_number s)) ≡ s
unfolding switch stage_table gpu_stage_number
stage_again GpuStage.all_graphics = refl
stage_again _ = refl

-- Different stages are converted to different flags.
pub stage_to_vk_injective :
    (vk : Enumeration VkStage) (s t : GpuStage)
    → stage_to_vk vk (gpu_stage_number s) ≡ stage_to_vk vk (gpu_stage_number t)
    → s ≡ t
unfolding stage_to_vk
stage_to_vk_injective vk s t same =
    sym (stage_again s) ∙ ap stage_of (vk.distinct _ _ same) ∙ stage_again t
