-- ===== src/Window/State.antt =====
-- src/window/Window.cpp: WindowData and Window, with the calls of the window system that they make.
pub mod Shown
mod Tests
use kgl.Common.{
  ℕ, List, [], ◌∷◌, ◌++◌, Bool, true, false, not, ◌&&◌, if◌then◌else◌, Option, none, some, Result,
  ok, fault, indeterminate, bind,
}
use Prim.Native.Nat.{bit_or}

-- `SDL_Window*`
pub data Pointer : Type 0 where
  unset nullptr : Pointer
  points : ℕ → Pointer

-- `WindowData`, less `depth` and `has_mouse`, which nothing reads or writes.
pub record WindowData : Type 0 where
  pub window : Pointer
  pub title : List ℕ
  pub xpos : ℕ
  pub ypos : ℕ
  pub width : ℕ
  pub height : ℕ
  pub monitor : Option ℕ
  pub fullscreen : Bool
  pub borderless : Bool
  pub minimized : Bool
  pub maximized : Bool
  pub resizable : Bool

-- The window system's flags.
pub record WindowFlags : Type 0 where
  pub vulkan : ℕ
  pub shown : ℕ
  pub resizable : ℕ
  pub maximized : ℕ
  pub fullscreen_desktop : ℕ
  pub borderless : ℕ
  pub fullscreen : ℕ

-- The calls of the window system: SDL_Init, SDL_CreateWindow (title, position, size and flags),
-- SDL_SetWindowSize and SDL_SetWindowResizable.
pub data SdlCall : Type 0 where
  sdl_init : SdlCall
  create_window : List ℕ → ℕ → ℕ → ℕ → ℕ → ℕ → SdlCall
  set_window_size : ℕ → ℕ → ℕ → SdlCall
  set_window_resizable : ℕ → Bool → SdlCall

-- `SDL2_INITIALIZED`, the data of one window, and the calls so far.
pub record System : Type 0 where
  pub sdl2_initialized : Bool
  pub window_data : WindowData
  pub calls : List SdlCall

-- `WindowData()`: the pointer and the monitor are not set.
unfoldable pub new_window_data : WindowData
new_window_data = record {
  window = unset;
  title = [];
  xpos = 0;
  ypos = 0;
  width = 1280;
  height = 1024;
  monitor = none;
  fullscreen = false;
  borderless = false;
  minimized = false;
  maximized = false;
  resizable = false;
}

-- The flags of `create`.
unfoldable pub creation_flags : WindowFlags → WindowData → ℕ
creation_flags f d =
    let flags : ℕ = bit_or f.vulkan f.shown in
    let flags : ℕ = if d.resizable then bit_or flags f.resizable else flags in
    let flags : ℕ = if d.maximized then bit_or flags f.maximized else flags in
    if d.borderless && d.fullscreen
    then bit_or flags f.fullscreen_desktop
    else if d.borderless
    then bit_or flags f.borderless
    else if d.fullscreen
    then bit_or flags f.fullscreen
    else flags

-- `create`, where SDL_CreateWindow returns `created`.
unfoldable pub create : WindowFlags → Pointer → System → System
create f created s =
    let d = s.window_data in
    record {
      sdl2_initialized = true;
      window_data = record d { window = created };
      calls =
          (if not s.sdl2_initialized then s.calls ++ sdl_init ∷ [] else s.calls)
          ++ create_window d.title d.xpos d.ypos d.width d.height (creation_flags f d) ∷ [];
    }

-- `Window::initialized`
unfoldable pub initialized : System → Result Bool
initialized s = elim s.window_data.window [
  | unset ↦ fault indeterminate
  | nullptr ↦ ok false
  | points _ ↦ ok true
]

-- `Window::initialize`
unfoldable pub initialize : WindowFlags → Pointer → List ℕ → ℕ → ℕ → System → System
initialize f created window_title width height s = create f created (record s {
  window_data = record s.window_data { title = window_title; width = width; height = height };
})

-- A call of the window system, if there is a window.
unfoldable pub call_window : (ℕ → SdlCall) → System → Result System
call_window call s = elim s.window_data.window [
  | unset ↦ fault indeterminate
  | nullptr ↦ ok s
  | points window ↦ ok (record s { calls = s.calls ++ call window ∷ [] })
]

-- `setWindowWidth`
unfoldable pub set_window_width : ℕ → System → Result System
set_window_width value s =
    let d = record s.window_data { width = value } in
    call_window (λ window. set_window_size window d.width d.height) (record s { window_data = d })

-- `setWindowHeight`
unfoldable pub set_window_height : ℕ → System → Result System
set_window_height value s =
    let d = record s.window_data { height = value } in
    call_window (λ window. set_window_size window d.width d.height) (record s { window_data = d })

-- `Window::setResizable`
unfoldable pub set_resizable : Bool → System → Result System
set_resizable value s =
    call_window (λ window. set_window_resizable window value)
      (record s { window_data = record s.window_data { resizable = value } })

-- The setters of Window.
pub data Setting : Type 0 where
  x_position y_position width height monitor : ℕ → Setting
  title : List ℕ → Setting
  fullscreen resizable borderless minimize maximized : Bool → Setting

unfoldable pub set : Setting → System → Result System
set (x_position n) s = ok (record s { window_data = record s.window_data { xpos = n } })
set (y_position n) s = ok (record s { window_data = record s.window_data { ypos = n } })
set (width n) s = set_window_width n s
set (height n) s = set_window_height n s
set (monitor n) s = ok (record s { window_data = record s.window_data { monitor = some n } })
set (title value) s = ok (record s { window_data = record s.window_data { title = value } })
set (fullscreen b) s = ok (record s { window_data = record s.window_data { fullscreen = b } })
set (resizable b) s = set_resizable b s
set (borderless b) s = ok (record s { window_data = record s.window_data { borderless = b } })
set (minimize b) s = ok (record s { window_data = record s.window_data { minimized = b } })
set (maximized b) s = ok (record s { window_data = record s.window_data { maximized = b } })

unfoldable pub set_all : List Setting → System → Result System
set_all [] s = ok s
set_all (setting ∷ settings) s = bind (set setting s) (set_all settings)
