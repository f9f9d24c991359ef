-- ===== src/Vkg/Windows/Tests.antt =====
-- Runs of the windows of the library.
use kgl.Common.{ℕ, ◌≡◌, refl, List, [], ◌∷◌, Bool, false, ok, fault, exited, bind, from_option}
use kgl.Common.OrderedMap.{lookup, insert, assign}
use kgl.Window.State.{
  points, WindowFlags, set, set_window_width, call_window, initialize, create, new_window_data,
}
use kgl.Vkg.Windows.{
  BaseWindow, Windows, Request, added, settled, add_window, open_window, context_from_base_window,
  surface_at, refused, window_width, set_window, set_found, serve, serve_all, has_window, context,
}

abbrev flags : WindowFlags
flags = record {
  vulkan = 1;
  shown = 2;
  resizable = 4;
  maximized = 8;
  fullscreen_desktop = 16;
  borderless = 32;
  fullscreen = 64;
}

abbrev no_windows : Windows
no_windows = record { sdl2_initialized = false; calls = []; windows = [] }

-- Window 5 is added twice and resized; window 6 is not there.
abbrev requests : List Request
requests =
    added (points 1) (surface_at 70) 5 [] 640 480
    ∷ added (points 2) (surface_at 71) 5 [] 10 10
    ∷ settled 5 (window_width 800)
    ∷ settled 6 (window_width 900)
    ∷ []

windows_run :
    bind {B = ℕ × Bool × ℕ} (serve_all flags requests no_windows) (λ s. ok (
      context 5 s,
      has_window 6 s,
      from_option (λ (w : BaseWindow). w.os_window.width) 0 (lookup 5 s.windows),
    ))
    ≡ ok (70, false, 800)
unfolding serve_all serve add_window open_window context_from_base_window set_window set_found
    lookup insert assign context has_window set set_window_width call_window initialize create
    new_window_data
windows_run = refl

-- A window without a surface ends the process.
no_surface : serve flags (added (points 1) refused 5 [] 640 480) no_windows ≡ fault exited
unfolding serve add_window open_window context_from_base_window lookup
no_surface = refl
