-- ===== src/Vkg/Errors/Codes.antt =====
-- src/vkg/Vulkan.h: the errors of the library and their severities, and `vk::Result`.
use kgl.Common.{ℕ, ◌≡◌, refl, sym, ap, ◌∙◌, List, [], ◌∷◌, get_elem?, from_option}
use kgl.Common.Switch.{Enumeration}

-- The enumerators of `Vulkan::Error`.
pub data Error : Type 0 where
  no_error success device_not_found not_ready incomplete out_of_host_memory : Error
  out_of_device_memory device_lost feature_not_present extension_not_present : Error
  layer_not_present unknown fragmentation invalid_external_handle initialization_failed : Error
  incompatible_surface surface_lost native_window_in_use recreate_swapchain : Error
  suboptimal_khr out_of_data_khr memory_map_failed validation_failed invalid_device : Error

abbrev all_errors : List Error
all_errors =
    no_error ∷ success ∷ device_not_found ∷ not_ready ∷ incomplete ∷ out_of_host_memory
    ∷ out_of_device_memory ∷ device_lost ∷ feature_not_present ∷ extension_not_present
    ∷ layer_not_present ∷ unknown ∷ fragmentation ∷ invalid_external_handle ∷ initialization_failed
    ∷ incompatible_surface ∷ surface_lost ∷ native_window_in_use ∷ recreate_swapchain
    ∷ suboptimal_khr ∷ out_of_data_khr ∷ memory_map_failed ∷ validation_failed ∷ invalid_device ∷ []

unfoldable pub error_number : Error → ℕ
error_number no_error = 0
error_number success = 1
error_number device_not_found = 2
error_number not_ready = 3
error_number incomplete = 4
error_number out_of_host_memory = 5
error_number out_of_device_memory = 6
error_number device_lost = 7
error_number feature_not_present = 8
error_number extension_not_present = 9
error_number layer_not_present = 10
error_number unknown = 11
error_number fragmentation = 12
error_number invalid_external_handle = 13
error_number initialization_failed = 14
error_number incompatible_surface = 15
error_number surface_lost = 16
error_number native_window_in_use = 17
error_number recreate_swapchain = 18
error_number suboptimal_khr = 19
error_number out_of_data_khr = 20
error_number memory_map_failed = 21
error_number validation_failed = 22
error_number invalid_device = 23

abbrev error_at : ℕ → Error
error_at n = from_option (λ (this : Error). this) no_error (get_elem? all_errors (n))

error_at-error_number : (this : Error) → error_at (error_number this) ≡ this
unfolding error_number
error_at-error_number no_error = refl
error_at-error_number _ = refl

pub error_number-injective :
    (this that : Error) → error_number this ≡ error_number that → this ≡ that
error_number-injective this that same =
    sym (error_at-error_number this) ∙ ap error_at same ∙ error_at-error_number that

abbrev pub errors : Enumeration Error
errors = record { value = error_number; distinct = error_number-injective }

-- The enumerators of `Vulkan::Severity`.
pub data Severity : Type 0 where
  no_severity info warning fatal : Severity

abbrev all_severitys : List Severity
all_severitys = no_severity ∷ info ∷ warning ∷ fatal ∷ []

unfoldable pub severity_number : Severity → ℕ
severity_number no_severity = 0
severity_number info = 1
severity_number warning = 2
severity_number fatal = 3

abbrev severity_at : ℕ → Severity
severity_at n = from_option (λ (this : Severity). this) no_severity (get_elem? all_severitys (n))

severity_at-severity_number : (this : Severity) → severity_at (severity_number this) ≡ this
unfolding severity_number
severity_at-severity_number no_severity = refl
severity_at-severity_number _ = refl

pub severity_number-injective :
    (this that : Severity) → severity_number this ≡ severity_number that → this ≡ that
severity_number-injective this that same =
    sym (severity_at-severity_number this) ∙ ap severity_at same ∙ severity_at-severity_number that

abbrev pub severities : Enumeration Severity
severities = record { value = severity_number; distinct = severity_number-injective }

-- The results that the code names, and numbers for them, to compute with.
pub data VkResult : Type 0 where
  e_error_device_lost e_success e_error_feature_not_present : VkResult
  e_error_initialization_failed e_error_out_of_date_khr e_suboptimal_khr : VkResult
  e_error_out_of_device_memory e_error_memory_map_failed e_error_validation_failed_ext : VkResult
  e_error_native_window_in_use_khr : VkResult

abbrev all_vk_results : List VkResult
all_vk_results =
    e_error_device_lost ∷ e_success ∷ e_error_feature_not_present ∷ e_error_initialization_failed
    ∷ e_error_out_of_date_khr ∷ e_suboptimal_khr ∷ e_error_out_of_device_memory
    ∷ e_error_memory_map_failed ∷ e_error_validation_failed_ext ∷ e_error_native_window_in_use_khr
    ∷ []

unfoldable pub vk_result_number : VkResult → ℕ
vk_result_number e_error_device_lost = 0
vk_result_number e_success = 1
vk_result_number e_error_feature_not_present = 2
vk_result_number e_error_initialization_failed = 3
vk_result_number e_error_out_of_date_khr = 4
vk_result_number e_suboptimal_khr = 5
vk_result_number e_error_out_of_device_memory = 6
vk_result_number e_error_memory_map_failed = 7
vk_result_number e_error_validation_failed_ext = 8
vk_result_number e_error_native_window_in_use_khr = 9

abbrev vk_result_at : ℕ → VkResult
vk_result_at n =
    from_option (λ (this : VkResult). this) e_error_device_lost (get_elem? all_vk_results (n))

vk_result_at-vk_result_number : (this : VkResult) → vk_result_at (vk_result_number this) ≡ this
unfolding vk_result_number
vk_result_at-vk_result_number e_error_device_lost = refl
vk_result_at-vk_result_number _ = refl

pub vk_result_number-injective :
    (this that : VkResult) → vk_result_number this ≡ vk_result_number that → this ≡ that
vk_result_number-injective this that same =
    sym (vk_result_at-vk_result_number this)
    ∙ ap vk_result_at same
    ∙ vk_result_at-vk_result_number that

abbrev pub vk_results : Enumeration VkResult
vk_results = record { value = vk_result_number; distinct = vk_result_number-injective }
