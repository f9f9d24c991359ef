-- ===== src/Vkg/Convert/Numbers.antt =====
-- Numbers for Vulkan's enumerators, to compute with the tables of the conversions, and for runs.
use kgl.Common.{ℕ, ◌≡◌, refl, sym, ap, ◌∙◌, List, [], ◌∷◌, get_elem?, from_option}
use kgl.Common.Switch.{Enumeration}
use kgl.Vkg.Convert.Formats.{VkFormat}
use kgl.Vkg.Convert.Layouts.{VkLayout}
use kgl.Vkg.Convert.Usages.{VkUsage}
use kgl.Vkg.Convert.Usages.{VkImageType}
use kgl.Vkg.Convert.Stages.{VkShaderStage}
use kgl.Vkg.Convert.Stages.{VkStage}

abbrev all_vk_formats : List VkFormat
all_vk_formats =
    VkFormat.e_r8_srgb ∷ VkFormat.e_r8g8b8_srgb ∷ VkFormat.e_b8g8r8_srgb ∷ VkFormat.e_r8g8b8a8_srgb
    ∷ VkFormat.e_b8g8r8a8_srgb ∷ VkFormat.e_r32_sint ∷ VkFormat.e_r32g32b32_sint
    ∷ VkFormat.e_r32g32b32a32_sint ∷ VkFormat.e_r32_sfloat ∷ VkFormat.e_r32g32b32_sfloat
    ∷ VkFormat.e_r32g32b32a32_sfloat ∷ VkFormat.e_d24_unorm_s8_uint ∷ VkFormat.e_d32_sfloat
    ∷ VkFormat.e_undefined ∷ []

unfoldable pub vk_format_number : VkFormat → ℕ
vk_format_number VkFormat.e_r8_srgb = 0
vk_format_number VkFormat.e_r8g8b8_srgb = 1
vk_format_number VkFormat.e_b8g8r8_srgb = 2
vk_format_number VkFormat.e_r8g8b8a8_srgb = 3
vk_format_number VkFormat.e_b8g8r8a8_srgb = 4
vk_format_number VkFormat.e_r32_sint = 5
vk_format_number VkFormat.e_r32g32b32_sint = 6
vk_format_number VkFormat.e_r32g32b32a32_sint = 7
vk_format_number VkFormat.e_r32_sfloat = 8
vk_format_number VkFormat.e_r32g32b32_sfloat = 9
vk_format_number VkFormat.e_r32g32b32a32_sfloat = 10
vk_format_number VkFormat.e_d24_unorm_s8_uint = 11
vk_format_number VkFormat.e_d32_sfloat = 12
vk_format_number VkFormat.e_undefined = 13

abbrev vk_format_at : ℕ → VkFormat
vk_format_at n =
    from_option (λ (this : VkFormat). this) VkFormat.e_r8_srgb (get_elem? all_vk_formats (n))

vk_format_at-vk_format_number : (this : VkFormat) → vk_format_at (vk_format_number this) ≡ this
unfolding vk_format_number
vk_format_at-vk_format_number VkFormat.e_r8_srgb = refl
vk_format_at-vk_format_number _ = refl

pub vk_format_number-injective :
    (this that : VkFormat) → vk_format_number this ≡ vk_format_number that → this ≡ that
vk_format_number-injective this that same =
    sym (vk_format_at-vk_format_number this)
    ∙ ap vk_format_at same
    ∙ vk_format_at-vk_format_number that

abbrev pub vk_formats : Enumeration VkFormat
vk_formats = record { value = vk_format_number; distinct = vk_format_number-injective }

abbrev all_vk_layouts : List VkLayout
all_vk_layouts =
    VkLayout.e_undefined ∷ VkLayout.e_general ∷ VkLayout.e_color_attachment_optimal
    ∷ VkLayout.e_shader_read_only_optimal ∷ VkLayout.e_transfer_src_optimal
    ∷ VkLayout.e_transfer_dst_optimal ∷ VkLayout.e_present_src_khr
    ∷ VkLayout.e_depth_read_only_optimal_khr ∷ VkLayout.e_depth_stencil_attachment_optimal ∷ []

unfoldable pub vk_layout_number : VkLayout → ℕ
vk_layout_number VkLayout.e_undefined = 0
vk_layout_number VkLayout.e_general = 1
vk_layout_number VkLayout.e_color_attachment_optimal = 2
vk_layout_number VkLayout.e_shader_read_only_optimal = 3
vk_layout_number VkLayout.e_transfer_src_optimal = 4
vk_layout_number VkLayout.e_transfer_dst_optimal = 5
vk_layout_number VkLayout.e_present_src_khr = 6
vk_layout_number VkLayout.e_depth_read_only_optimal_khr = 7
vk_layout_number VkLayout.e_depth_stencil_attachment_optimal = 8

abbrev vk_layout_at : ℕ → VkLayout
vk_layout_at n =
    from_option (λ (this : VkLayout). this) VkLayout.e_undefined (get_elem? all_vk_layouts (n))

vk_layout_at-vk_layout_number : (this : VkLayout) → vk_layout_at (vk_layout_number this) ≡ this
unfolding vk_layout_number
vk_layout_at-vk_layout_number VkLayout.e_undefined = refl
vk_layout_at-vk_layout_number _ = refl

pub vk_layout_number-injective :
    (this that : VkLayout) → vk_layout_number this ≡ vk_layout_number that → this ≡ that
vk_layout_number-injective this that same =
    sym (vk_layout_at-vk_layout_number this)
    ∙ ap vk_layout_at same
    ∙ vk_layout_at-vk_layout_number that

abbrev pub vk_layouts : Enumeration VkLayout
vk_layouts = record { value = vk_layout_number; distinct = vk_layout_number-injective }

abbrev all_vk_usages : List VkUsage
all_vk_usages =
    VkUsage.e_transfer_src ∷ VkUsage.e_transfer_dst ∷ VkUsage.e_sampled ∷ VkUsage.e_storage
    ∷ VkUsage.e_color_attachment ∷ VkUsage.e_depth_stencil_attachment ∷ VkUsage.e_input_attachment
    ∷ VkUsage.e_shading_rate_image_nv ∷ VkUsage.e_fragment_density_map_ext ∷ []

unfoldable pub vk_usage_number : VkUsage → ℕ
vk_usage_number VkUsage.e_transfer_src = 0
vk_usage_number VkUsage.e_transfer_dst = 1
vk_usage_number VkUsage.e_sampled = 2
vk_usage_number VkUsage.e_storage = 3
vk_usage_number VkUsage.e_color_attachment = 4
vk_usage_number VkUsage.e_depth_stencil_attachment = 5
vk_usage_number VkUsage.e_input_attachment = 6
vk_usage_number VkUsage.e_shading_rate_image_nv = 7
vk_usage_number VkUsage.e_fragment_density_map_ext = 8

abbrev vk_usage_at : ℕ → VkUsage
vk_usage_at n =
    from_option (λ (this : VkUsage). this) VkUsage.e_transfer_src (get_elem? all_vk_usages (n))

vk_usage_at-vk_usage_number : (this : VkUsage) → vk_usage_at (vk_usage_number this) ≡ this
unfolding vk_usage_number
vk_usage_at-vk_usage_number VkUsage.e_transfer_src = refl
vk_usage_at-vk_usage_number _ = refl

pub vk_usage_number-injective :
    (this that : VkUsage) → vk_usage_number this ≡ vk_usage_number that → this ≡ that
vk_usage_number-injective this that same =
    sym (vk_usage_at-vk_usage_number this) ∙ ap vk_usage_at same ∙ vk_usage_at-vk_usage_number that

abbrev pub vk_usages : Enumeration VkUsage
vk_usages = record { value = vk_usage_number; distinct = vk_usage_number-injective }

abbrev all_vk_image_types : List VkImageType
all_vk_image_types = VkImageType.e1d ∷ VkImageType.e2d ∷ VkImageType.e3d ∷ []

unfoldable pub vk_image_type_number : VkImageType → ℕ
vk_image_type_number VkImageType.e1d = 0
vk_image_type_number VkImageType.e2d = 1
vk_image_type_number VkImageType.e3d = 2

abbrev vk_image_type_at : ℕ → VkImageType
vk_image_type_at n =
    from_option (λ (this : VkImageType). this) VkImageType.e1d (get_elem? all_vk_image_types (n))

vk_image_type_at-vk_image_type_number :
    (this : VkImageType) → vk_image_type_at (vk_image_type_number this) ≡ this
unfolding vk_image_type_number
vk_image_type_at-vk_image_type_number VkImageType.e1d = refl
vk_image_type_at-vk_image_type_number _ = refl

pub vk_image_type_number-injective :
    (this that : VkImageType) → vk_image_type_number this ≡ vk_image_type_number that → this ≡ that
vk_image_type_number-injective this that same =
    sym (vk_image_type_at-vk_image_type_number this)
    ∙ ap vk_image_type_at same
    ∙ vk_image_type_at-vk_image_type_number that

abbrev pub vk_image_types : Enumeration VkImageType
vk_image_types = record { value = vk_image_type_number; distinct = vk_image_type_number-injective }

abbrev all_vk_shader_stages : List VkShaderStage
all_vk_shader_stages =
    VkShaderStage.e_vertex ∷ VkShaderStage.e_fragment ∷ VkShaderStage.e_compute
    ∷ VkShaderStage.e_tessellation_control ∷ []

unfoldable pub vk_shader_stage_number : VkShaderStage → ℕ
vk_shader_stage_number VkShaderStage.e_vertex = 0
vk_shader_stage_number VkShaderStage.e_fragment = 1
vk_shader_stage_number VkShaderStage.e_compute = 2
vk_shader_stage_number VkShaderStage.e_tessellation_control = 3

abbrev vk_shader_stage_at : ℕ → VkShaderStage
vk_shader_stage_at n =
    from_option (λ (this : VkShaderStage). this) VkShaderStage.e_vertex
      (get_elem? all_vk_shader_stages (n))

vk_shader_stage_at-vk_shader_stage_number :
    (this : VkShaderStage) → vk_shader_stage_at (vk_shader_stage_number this) ≡ this
unfolding vk_shader_stage_number
vk_shader_stage_at-vk_shader_stage_number VkShaderStage.e_vertex = refl
vk_shader_stage_at-vk_shader_stage_number _ = refl

pub vk_shader_stage_number-injective :
    (this that : VkShaderStage)
    → vk_shader_stage_number this ≡ vk_shader_stage_number that
    → this ≡ that
vk_shader_stage_number-injective this that same =
    sym (vk_shader_stage_at-vk_shader_stage_number this)
    ∙ ap vk_shader_stage_at same
    ∙ vk_shader_stage_at-vk_shader_stage_number that

abbrev pub vk_shader_stages : Enumeration VkShaderStage
vk_shader_stages = record {
  value = vk_shader_stage_number;
  distinct = vk_shader_stage_number-injective;
}

abbrev all_vk_stages : List VkStage
all_vk_stages =
    VkStage.e_top_of_pipe ∷ VkStage.e_draw_indirect ∷ VkStage.e_vertex_input
    ∷ VkStage.e_vertex_shader ∷ VkStage.e_tessellation_control_shader
    ∷ VkStage.e_tessellation_evaluation_shader ∷ VkStage.e_geometry_shader
    ∷ VkStage.e_fragment_shader ∷ VkStage.e_early_fragment_tests ∷ VkStage.e_late_fragment_tests
    ∷ VkStage.e_color_attachment_output ∷ VkStage.e_compute_shader ∷ VkStage.e_transfer
    ∷ VkStage.e_bottom_of_pipe ∷ VkStage.e_host ∷ VkStage.e_all_graphics ∷ VkStage.e_all_commands
    ∷ VkStage.e_shading_rate_image_nv ∷ VkStage.e_task_shader_nv ∷ VkStage.e_mesh_shader_nv
    ∷ VkStage.e_command_preprocess_nv ∷ VkStage.e_acceleration_structure_build_nv
    ∷ VkStage.e_ray_tracing_shader_nv ∷ []

unfoldable pub vk_stage_number : VkStage → ℕ
vk_stage_number VkStage.e_top_of_pipe = 0
vk_stage_number VkStage.e_draw_indirect = 1
vk_stage_number VkStage.e_vertex_input = 2
vk_stage_number VkStage.e_vertex_shader = 3
vk_stage_number VkStage.e_tessellation_control_shader = 4
vk_stage_number VkStage.e_tessellation_evaluation_shader = 5
vk_stage_number VkStage.e_geometry_shader = 6
vk_stage_number VkStage.e_fragment_shader = 7
vk_stage_number VkStage.e_early_fragment_tests = 8
vk_stage_number VkStage.e_late_fragment_tests = 9
vk_stage_number VkStage.e_color_attachment_output = 10
vk_stage_number VkStage.e_compute_shader = 11
vk_stage_number VkStage.e_transfer = 12
vk_stage_number VkStage.e_bottom_of_pipe = 13
vk_stage_number VkStage.e_host = 14
vk_stage_number VkStage.e_all_graphics = 15
vk_stage_number VkStage.e_all_commands = 16
vk_stage_number VkStage.e_shading_rate_image_nv = 17
vk_stage_number VkStage.e_task_shader_nv = 18
vk_stage_number VkStage.e_mesh_shader_nv = 19
vk_stage_number VkStage.e_command_preprocess_nv = 20
vk_stage_number VkStage.e_acceleration_structure_build_nv = 21
vk_stage_number VkStage.e_ray_tracing_shader_nv = 22

abbrev vk_stage_at : ℕ → VkStage
vk_stage_at n =
    from_option (λ (this : VkStage). this) VkStage.e_top_of_pipe (get_elem? all_vk_stages (n))

vk_stage_at-vk_stage_number : (this : VkStage) → vk_stage_at (vk_stage_number this) ≡ this
unfolding vk_stage_number
vk_stage_at-vk_stage_number VkStage.e_top_of_pipe = refl
vk_stage_at-vk_stage_number _ = refl

pub vk_stage_number-injective :
    (this that : VkStage) → vk_stage_number this ≡ vk_stage_number that → this ≡ that
vk_stage_number-injective this that same =
    sym (vk_stage_at-vk_stage_number this) ∙ ap vk_stage_at same ∙ vk_stage_at-vk_stage_number that

abbrev pub vk_stages : Enumeration VkStage
vk_stages = record { value = vk_stage_number; distinct = vk_stage_number-injective }
