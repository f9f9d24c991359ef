-- ===== src/Vkg/Convert/Stages.antt =====
-- src/vkg/Vulkan.cpp: the conversions of stages of pipelines.
use kgl.Common.{ℕ, List, [], ◌∷◌}
use kgl.Common.Switch.{Enumeration, switch}
use kgl.Library.Enums.Stages.{PipelineStage, pipeline_stages, GpuStage, gpu_stages}

-- The `vk::ShaderStageFlagBits` that the code names.
pub data VkShaderStage : Type 0 where
  e_vertex e_fragment e_compute e_tessellation_control : VkShaderStage

unfoldable pub shader_stage_table : List (PipelineStage × VkShaderStage)
shader_stage_table =
    (PipelineStage.vertex, VkShaderStage.e_vertex)
    ∷ (PipelineStage.fragment, VkShaderStage.e_fragment)
    ∷ (PipelineStage.compute, VkShaderStage.e_compute)
    ∷ (PipelineStage.tess_c, VkShaderStage.e_tessellation_control)
    ∷ []

-- `Vulkan::convert( nyx::PipelineStage )`
unfoldable pub shader_stage_to_vk : Enumeration VkShaderStage → ℕ → ℕ
shader_stage_to_vk vk stage =
    vk.value (switch pipeline_stages shader_stage_table VkShaderStage.e_vertex stage)

-- The `vk::PipelineStageFlagBits` that the code names.
pub data VkStage : Type 0 where
  e_top_of_pipe e_draw_indirect e_vertex_input e_vertex_shader : VkStage
  e_tessellation_control_shader e_tessellation_evaluation_shader e_geometry_shader : VkStage
  e_fragment_shader e_early_fragment_tests e_late_fragment_tests : VkStage
  e_color_attachment_output e_compute_shader e_transfer e_bottom_of_pipe e_host : VkStage
  e_all_graphics e_all_commands e_shading_rate_image_nv e_task_shader_nv : VkStage
  e_mesh_shader_nv e_command_preprocess_nv e_acceleration_structure_build_nv : VkStage
  e_ray_tracing_shader_nv : VkStage

unfoldable pub stage_table : List (GpuStage × VkStage)
stage_table =
    (GpuStage.top, VkStage.e_top_of_pipe)
    ∷ (GpuStage.draw_indirect, VkStage.e_draw_indirect)
    ∷ (GpuStage.vertex_input, VkStage.e_vertex_input)
    ∷ (GpuStage.vertex_shader, VkStage.e_vertex_shader)
    ∷ (GpuStage.tessellation_control_shader, VkStage.e_tessellation_control_shader)
    ∷ (GpuStage.tessellation_evaluation_shader, VkStage.e_tessellation_evaluation_shader)
    ∷ (GpuStage.geometry_shader, VkStage.e_geometry_shader)
    ∷ (GpuStage.fragment_shader, VkStage.e_fragment_shader)
    ∷ (GpuStage.early_fragment_tests, VkStage.e_early_fragment_tests)
    ∷ (GpuStage.late_fragment_tests, VkStage.e_late_fragment_tests)
    ∷ (GpuStage.color_attachment_output, VkStage.e_color_attachment_output)
    ∷ (GpuStage.compute_shader, VkStage.e_compute_shader)
    ∷ (GpuStage.transfer, VkStage.e_transfer)
    ∷ (GpuStage.bottom_of_pipe, VkStage.e_bottom_of_pipe)
    ∷ (GpuStage.host, VkStage.e_host)
    ∷ (GpuStage.all_graphics, VkStage.e_all_graphics)
    ∷ (GpuStage.all_commands, VkStage.e_all_commands)
    ∷ (GpuStage.shading_rate_image, VkStage.e_shading_rate_image_nv)
    ∷ (GpuStage.task_shader, VkStage.e_task_shader_nv)
    ∷ (GpuStage.mesh_shader, VkStage.e_mesh_shader_nv)
    ∷ (GpuStage.command_preprocess, VkStage.e_command_preprocess_nv)
    ∷ (GpuStage.acceleration_structure_build, VkStage.e_acceleration_structure_build_nv)
    ∷ (GpuStage.ray_tracing, VkStage.e_ray_tracing_shader_nv)
    ∷ []

-- `Vulkan::convert( nyx::GPUStages )`
unfoldable pub stage_to_vk : Enumeration VkStage → ℕ → ℕ
stage_to_vk vk stage = vk.value (switch gpu_stages stage_table VkStage.e_all_commands stage)
