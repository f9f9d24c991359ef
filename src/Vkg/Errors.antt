-- ===== src/Vkg/Errors.antt =====
-- src/vkg/Vulkan.cpp: how results of Vulkan become errors of the library, and who is told. A user's
-- callbacks and handlers are numbers; what is printed and called is a list of effects.
pub mod Codes
pub mod Exits
mod Tests
use kgl.Common.{ℕ, List, [], ◌∷◌, ◌++◌, Bool, true, false, if◌then◌else◌, ◌==◌, Option, none, some}
use kgl.Common.Switch.{Enumeration, switch}
use kgl.Vkg.Errors.Codes.{Error, Severity, VkResult, errors, error_number, severity_number}

-- `Error::severity`
unfoldable pub severity_table : List (Error × Severity)
severity_table =
    (Error.device_not_found, Severity.warning)
    ∷ (Error.feature_not_present, Severity.warning)
    ∷ (Error.suboptimal_khr, Severity.warning)
    ∷ (Error.native_window_in_use, Severity.fatal)
    ∷ (Error.validation_failed, Severity.fatal)
    ∷ (Error.device_lost, Severity.fatal)
    ∷ (Error.out_of_data_khr, Severity.fatal)
    ∷ (Error.initialization_failed, Severity.fatal)
    ∷ (Error.out_of_device_memory, Severity.fatal)
    ∷ []

unfoldable pub severity : ℕ → ℕ
severity err = severity_number (switch errors severity_table Severity.fatal err)

-- `Vulkan::convert( vk::Result )`
unfoldable pub result_table : List (VkResult × Error)
result_table =
    (VkResult.e_error_device_lost, Error.device_lost)
    ∷ (VkResult.e_success, Error.success)
    ∷ (VkResult.e_error_feature_not_present, Error.feature_not_present)
    ∷ (VkResult.e_error_initialization_failed, Error.initialization_failed)
    ∷ (VkResult.e_error_out_of_date_khr, Error.recreate_swapchain)
    ∷ (VkResult.e_suboptimal_khr, Error.recreate_swapchain)
    ∷ (VkResult.e_error_out_of_device_memory, Error.out_of_device_memory)
    ∷ (VkResult.e_error_memory_map_failed, Error.memory_map_failed)
    ∷ (VkResult.e_error_validation_failed_ext, Error.validation_failed)
    ∷ (VkResult.e_error_native_window_in_use_khr, Error.native_window_in_use)
    ∷ []

unfoldable pub convert_result : Enumeration VkResult → ℕ → ℕ
convert_result vk error = error_number (switch vk result_table Error.unknown error)

-- `prints`: a severity and an error. `calls` and `handles`: a callback or handler with an error.
pub data Effect : Type 0 where
  prints calls handles : ℕ → ℕ → Effect

-- What has been done, and whether the process then exited.
pub record Outcome : Type 0 where
  pub effects : List Effect
  pub exited : Bool

-- `defaultHandler`
unfoldable pub default_handler : ℕ → Outcome
default_handler error = record {
  effects = prints (severity error) error ∷ [];
  exited = severity error == severity_number Severity.fatal;
}

pub data Callback : Type 0 where
  null default : Callback
  user : ℕ → Callback

-- `error_cb` and `handler` of VulkanData.
pub record Handlers : Type 0 where
  pub error_cb : Callback
  pub handler : Option ℕ

-- `VulkanData()`
unfoldable pub new_handlers : Handlers
new_handlers = record { error_cb = Callback.default; handler = none }

-- The call of `error_cb`, where a callback of the user returns.
unfoldable pub call : Callback → ℕ → Outcome
call Callback.null error = record { effects = []; exited = false }
call Callback.default error = default_handler error
call (Callback.user n) error = record { effects = calls n error ∷ []; exited = false }

unfoldable pub handle : Option ℕ → ℕ → List Effect
handle none error = []
handle (some n) error = handles n error ∷ []

-- `Vulkan::add( Error )`
unfoldable pub add : Handlers → ℕ → Outcome
add d error =
    if error == error_number Error.success
    then record { effects = []; exited = false }
    else let called = call d.error_cb error in
      record called {
        effects =
            if called.exited then called.effects else called.effects ++ handle d.handler error;
      }

-- `Vulkan::add( vk::Result )`
unfoldable pub add_result : Enumeration VkResult → Handlers → ℕ → Outcome
add_result vk d error = add d (convert_result vk error)
