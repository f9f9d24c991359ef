-- ===== src/Window/State/Tests.antt =====
-- Runs of a window.
use kgl.Common.{◌++◌, ◌≡◌, refl, List, [], ◌∷◌, true, false, ok, fault, indeterminate, bind}
use kgl.Window.State.{
  points, WindowFlags, sdl_init, create_window, set_window_size, System, new_window_data, create,
  creation_flags, initialize, initialized, call_window, set_window_width, set_window_height,
  Setting, set, set_all,
}
use kgl.Window.State.Shown.{Ends, opening, set_all-initialize}

abbrev flags : WindowFlags
flags = record {
  vulkan = 1;
  shown = 2;
  resizable = 4;
  maximized = 8;
  fullscreen_desktop = 16;
  borderless = 32;
  fullscreen = 64;
}

abbrev new_system : System
new_system = record { sdl2_initialized = false; window_data = new_window_data; calls = [] }

abbrev settings : List Setting
settings = Setting.width 640 ∷ Setting.borderless true ∷ Setting.height 480 ∷ Setting.width 800 ∷ []

calls_run :
    bind (set_all settings (initialize flags (points 3) [] 10 20 new_system)) (λ s. ok s.calls)
    ≡ ok (
        sdl_init
        ∷ create_window [] 0 0 10 20 3
        ∷ set_window_size 3 640 20
        ∷ set_window_size 3 640 480
        ∷ set_window_size 3 800 480
        ∷ [])
unfolding set_all set set_window_width set_window_height call_window initialize create
    creation_flags new_window_data
calls_run = refl

-- The pointer is read before anything has set it.
width_before_initialize : set (Setting.width 640) new_system ≡ fault indeterminate
unfolding set set_window_width call_window new_window_data
width_before_initialize = refl

initialized_before_initialize : initialized new_system ≡ fault indeterminate
unfolding initialized new_window_data
initialized_before_initialize = refl

set_all-initialize_example :
    Ends 3 10 20 settings
      (new_system.calls ++ opening flags [] 10 20 new_system)
      (set_all settings (initialize flags (points 3) [] 10 20 new_system))
set_all-initialize_example = set_all-initialize flags 3 [] 10 20 new_system settings
