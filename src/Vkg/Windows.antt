-- ===== src/Vkg/Windows.antt =====
-- src/vkg/Vulkan.cpp: the windows of the library, a map of Window objects (src/library/Window.h) over
-- those of src/window/Window.cpp.
pub mod Seen
pub mod View
mod Tests
use kgl.Common.{
  ℕ, Bool, true, false, List, [], ◌∷◌, Option, none, some, Result, ok, fault, exited, bind,
  from_option,
}
use kgl.Common.OrderedMap.{lookup, insert, assign}
use kgl.Window.State.{
  Pointer, WindowData, WindowFlags, SdlCall, System, new_window_data, initialize, Setting, set,
}

-- `BaseWindow`: the window of the system, and the surface for Vulkan.
pub record BaseWindow : Type 0 where
  pub os_window : WindowData
  pub api_context : ℕ

-- `VulkanData::windows`, with what all the windows share: SDL2_INITIALIZED, and the calls so far.
pub record Windows : Type 0 where
  pub sdl2_initialized : Bool
  pub calls : List SdlCall
  pub windows : List (ℕ × BaseWindow)

abbrev pub system : WindowData → Windows → System
system d s = record { sdl2_initialized = s.sdl2_initialized; window_data = d; calls = s.calls }

abbrev pub with_system : System → List (ℕ × BaseWindow) → Windows
with_system s windows = record {
  sdl2_initialized = s.sdl2_initialized;
  calls = s.calls;
  windows = windows;
}

-- What the window system answers to the request for a surface: there is no instance of Vulkan to ask
-- for, SDL_Vulkan_CreateSurface fails, or it makes one.
pub data SurfaceAnswer : Type 0 where
  no_instance refused : SurfaceAnswer
  surface_at : ℕ → SurfaceAnswer

-- `contextFromBaseWindow`: the null surface when there is no instance.
unfoldable pub context_from_base_window : SurfaceAnswer → Result ℕ
context_from_base_window no_instance = ok 0
context_from_base_window refused = fault exited
context_from_base_window (surface_at surface) = ok surface

-- A new window, where SDL_CreateWindow returns `created`.
unfoldable pub open_window :
    WindowFlags → Pointer → SurfaceAnswer → ℕ → List ℕ → ℕ → ℕ → Windows → Result Windows
open_window flags created surface id title width height s =
    let window = initialize flags created title width height (system new_window_data s) in
    bind (context_from_base_window surface) λ context. ok (
      with_system window
        (insert id (record { os_window = window.window_data; api_context = context }) s.windows))

-- `addWindow`
unfoldable pub add_window :
    WindowFlags → Pointer → SurfaceAnswer → ℕ → List ℕ → ℕ → ℕ → Windows → Result Windows
add_window flags created surface id title width height s =
    from_option (λ found. ok s) (open_window flags created surface id title width height s)
      (lookup id s.windows)

-- `hasWindow`
unfoldable pub has_window : ℕ → Windows → Bool
has_window id s = from_option (λ found. true) false (lookup id s.windows)

unfoldable pub set_found : ℕ → Setting → Windows → BaseWindow → Result Windows
set_found id setting s window =
    bind (set setting (system window.os_window s))
      λ s'. ok (with_system s' (assign id (record window { os_window = s'.window_data }) s.windows))

-- The settings that the library passes on to a window.
pub data WindowSetting : Type 0 where
  window_title : List ℕ → WindowSetting
  window_resizable window_borderless : Bool → WindowSetting
  window_width window_height : ℕ → WindowSetting

abbrev pub window_setting : WindowSetting → Setting
window_setting (window_title title) = Setting.title title
window_setting (window_resizable value) = Setting.resizable value
window_setting (window_borderless value) = Setting.borderless value
window_setting (window_width width) = Setting.width width
window_setting (window_height height) = Setting.height height

-- `setWindowTitle`, `setWindowResizable`, `setWindowWidth`, `setWindowHeight` and
-- `setWindowBorderless`: the setter of the window, where there is one.
unfoldable pub set_window : ℕ → WindowSetting → Windows → Result Windows
set_window id setting s =
    from_option (set_found id (window_setting setting) s) (ok s) (lookup id s.windows)

-- `context`: the null surface for the dummy.
unfoldable pub context : ℕ → Windows → ℕ
context id s = from_option (λ (window : BaseWindow). window.api_context) 0 (lookup id s.windows)

-- What a client asks for: a window with its size, or a setting of one.
pub data Request : Type 0 where
  added : Pointer → SurfaceAnswer → ℕ → List ℕ → ℕ → ℕ → Request
  settled : ℕ → WindowSetting → Request

unfoldable pub serve : WindowFlags → Request → Windows → Result Windows
serve flags (added created surface id title width height) s =
    add_window flags created surface id title width height s
serve flags (settled id setting) s = set_window id setting s

unfoldable pub serve_all : WindowFlags → List Request → Windows → Result Windows
serve_all flags [] s = ok s
serve_all flags (r ∷ rs) s = bind (serve flags r s) (serve_all flags rs)
