-- ===== src/Library/Enums/Stages.antt =====
-- src/library/Chain.h and RenderPass.h: `GPUStages`, `PipelineStage`.
use kgl.Common.{ℕ, ◌≡◌, refl, sym, ap, ◌∙◌, List, [], ◌∷◌, get_elem?, from_option}
use kgl.Common.Switch.{Enumeration}

-- `enum class GPUStages`, and the numbers of its enumerators.
pub data GpuStage : Type 0 where
  acceleration_structure_build all_graphics all_commands bottom_of_pipe : GpuStage
  color_attachment_output compute_shader command_preprocess draw_indirect : GpuStage
  early_fragment_tests fragment_shader geometry_shader host late_fragment_tests : GpuStage
  mesh_shader ray_tracing shading_rate_image top task_shader transfer : GpuStage
  tessellation_control_shader tessellation_evaluation_shader vertex_input : GpuStage
  vertex_shader : GpuStage

abbrev all_gpu_stages : List GpuStage
all_gpu_stages =
    acceleration_structure_build ∷ all_graphics ∷ all_commands ∷ bottom_of_pipe
    ∷ color_attachment_output ∷ compute_shader ∷ command_preprocess ∷ draw_indirect
    ∷ early_fragment_tests ∷ fragment_shader ∷ geometry_shader ∷ host ∷ late_fragment_tests
    ∷ mesh_shader ∷ ray_tracing ∷ shading_rate_image ∷ top ∷ task_shader ∷ transfer
    ∷ tessellation_control_shader ∷ tessellation_evaluation_shader ∷ vertex_input ∷ vertex_shader
    ∷ []

unfoldable pub gpu_stage_number : GpuStage → ℕ
gpu_stage_number acceleration_structure_build = 0
gpu_stage_number all_graphics = 1
gpu_stage_number all_commands = 2
gpu_stage_number bottom_of_pipe = 3
gpu_stage_number color_attachment_output = 4
gpu_stage_number compute_shader = 5
gpu_stage_number command_preprocess = 6
gpu_stage_number draw_indirect = 7
gpu_stage_number early_fragment_tests = 8
gpu_stage_number fragment_shader = 9
gpu_stage_number geometry_shader = 10
gpu_stage_number host = 11
gpu_stage_number late_fragment_tests = 12
gpu_stage_number mesh_shader = 13
gpu_stage_number ray_tracing = 14
gpu_stage_number shading_rate_image = 15
gpu_stage_number top = 16
gpu_stage_number task_shader = 17
gpu_stage_number transfer = 18
gpu_stage_number tessellation_control_shader = 19
gpu_stage_number tessellation_evaluation_shader = 20
gpu_stage_number vertex_input = 21
gpu_stage_number vertex_shader = 22

abbrev gpu_stage_at : ℕ → GpuStage
gpu_stage_at n =
    from_option (λ (this : GpuStage). this) acceleration_structure_build
      (get_elem? all_gpu_stages (n))

gpu_stage_at-gpu_stage_number : (this : GpuStage) → gpu_stage_at (gpu_stage_number this) ≡ this
unfolding gpu_stage_number
gpu_stage_at-gpu_stage_number acceleration_structure_build = refl
gpu_stage_at-gpu_stage_number _ = refl

pub gpu_stage_number-injective :
    (this that : GpuStage) → gpu_stage_number this ≡ gpu_stage_number that → this ≡ that
gpu_stage_number-injective this that same =
    sym (gpu_stage_at-gpu_stage_number this)
    ∙ ap gpu_stage_at same
    ∙ gpu_stage_at-gpu_stage_number that

abbrev pub gpu_stages : Enumeration GpuStage
gpu_stages = record { value = gpu_stage_number; distinct = gpu_stage_number-injective }

-- `enum class PipelineStage`, and the numbers of its enumerators.
pub data PipelineStage : Type 0 where
  vertex fragment compute tess_c : PipelineStage

abbrev all_pipeline_stages : List PipelineStage
all_pipeline_stages = vertex ∷ fragment ∷ compute ∷ tess_c ∷ []

unfoldable pub pipeline_stage_number : PipelineStage → ℕ
pipeline_stage_number vertex = 0
pipeline_stage_number fragment = 1
pipeline_stage_number compute = 2
pipeline_stage_number tess_c = 3

abbrev pipeline_stage_at : ℕ → PipelineStage
pipeline_stage_at n =
    from_option (λ (this : PipelineStage). this) vertex (get_elem? all_pipeline_stages (n))

pipeline_stage_at-pipeline_stage_number :
    (this : PipelineStage) → pipeline_stage_at (pipeline_stage_number this) ≡ this
unfolding pipeline_stage_number
pipeline_stage_at-pipeline_stage_number vertex = refl
pipeline_stage_at-pipeline_stage_number _ = refl

pub pipeline_stage_number-injective :
    (this that : PipelineStage)
    → pipeline_stage_number this ≡ pipeline_stage_number that
    → this ≡ that
pipeline_stage_number-injective this that same =
    sym (pipeline_stage_at-pipeline_stage_number this)
    ∙ ap pipeline_stage_at same
    ∙ pipeline_stage_at-pipeline_stage_number that

abbrev pub pipeline_stages : Enumeration PipelineStage
pipeline_stages = record {
  value = pipeline_stage_number;
  distinct = pipeline_stage_number-injective;
}
