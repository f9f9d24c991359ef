-- ===== src/Vkg/Errors/Tests.antt =====
-- Runs of the handlers.
use kgl.Common.{◌≡◌, ◌↔◌, ◌⊎◌, refl, [], ◌∷◌, true, false, some}
use kgl.Common.Switch.{switch}
use kgl.Vkg.Errors.Codes.{
  Error, Severity, VkResult, error_number, severity_number, vk_results, vk_result_number,
}
use kgl.Vkg.Errors.{
  severity_table, severity, result_table, convert_result, prints, calls, handles, default_handler,
  Callback, call, handle, add, add_result, new_handlers,
}
use kgl.Vkg.Errors.Exits.{add_result-exits_iff}

-- A suboptimal swapchain is only a warning by its own name, and ends the process all the same.
suboptimal_exits :
    add_result vk_results new_handlers (vk_result_number VkResult.e_suboptimal_khr) ≡ record {
      effects =
          prints (severity_number Severity.fatal) (error_number Error.recreate_swapchain) ∷ [];
      exited = true;
    }
unfolding add_result convert_result switch result_table vk_result_number error_number add call
    default_handler severity severity_table severity_number new_handlers
suboptimal_exits = refl

users_are_told :
    add_result vk_results
      (record { error_cb = Callback.user 1; handler = some 2 })
      (vk_result_number VkResult.e_error_device_lost)
    ≡ record {
      effects =
          calls 1 (error_number Error.device_lost)
          ∷ handles 2 (error_number Error.device_lost)
          ∷ [];
      exited = false;
    }
unfolding add_result convert_result switch result_table vk_result_number error_number add call
    handle severity_number
users_are_told = refl

add_result-exits_iff_example :
    ((add_result vk_results (record { error_cb = Callback.default; handler = some 2 }) 77).exited
      ≡ false)
    ↔ ((77 ≡ vk_results.value VkResult.e_success)
        ⊎ (77 ≡ vk_results.value VkResult.e_error_feature_not_present))
add_result-exits_iff_example = add_result-exits_iff vk_results (some 2) 77
