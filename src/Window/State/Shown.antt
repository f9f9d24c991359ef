-- ===== src/Window/State/Shown.antt =====
-- The calls of the window system that settings make, and the size that Window returns.
use mathlib.Core.Path.{subst}
use kgl.Common.{
  ap, sym, append-nil, append_assoc, Bool-cases, inl, inr, ℕ, ◌≡◌, ◌∙◌, refl, List, [], ◌∷◌, ◌++◌,
  not, if◌then◌else◌, Result, ok,
}
use kgl.Window.State.{
  Pointer, creation_flags, points, WindowFlags, SdlCall, sdl_init, create_window, set_window_size,
  set_window_resizable, System, create, initialize, call_window, set_window_width,
  set_window_height, set_resizable, Setting, set, set_all,
}

-- The last width that is asked for, and the last height.
abbrev pub last_width : ℕ → List Setting → ℕ
last_width w [] = w
last_width w (Setting.width n ∷ rest) = last_width n rest
last_width w (_ ∷ rest) = last_width w rest

abbrev pub last_height : ℕ → List Setting → ℕ
last_height h [] = h
last_height h (Setting.height n ∷ rest) = last_height n rest
last_height h (_ ∷ rest) = last_height h rest

-- The calls of some settings of a window, from the width and the height that it has: each of the
-- width or the height asks for both, and the others for nothing, save the one of `resizable`.
abbrev pub calls_for : ℕ → ℕ → ℕ → List Setting → List SdlCall
calls_for window w h [] = []
calls_for window w h (Setting.width n ∷ rest) =
    set_window_size window n h ∷ calls_for window n h rest
calls_for window w h (Setting.height n ∷ rest) =
    set_window_size window w n ∷ calls_for window w n rest
calls_for window w h (Setting.resizable b ∷ rest) =
    set_window_resizable window b ∷ calls_for window w h rest
calls_for window w h (_ ∷ rest) = calls_for window w h rest

-- There is a window, with the size.
pub record IsShown (window w h : ℕ) (s : System) : Type 0 where
  pub opened : s.window_data.window ≡ points window
  pub width : s.window_data.width ≡ w
  pub height : s.window_data.height ≡ h

-- The settings are made, with just their calls, and Window has the last size that was asked for.
pub record Ends (window w h : ℕ) (settings : List Setting) (calls : List SdlCall)
    (r : Result System) : Type 0 where
  pub end : System
  pub returned : r ≡ ok end
  pub shown : IsShown window (last_width w settings) (last_height h settings) end
  pub made : end.calls ≡ calls ++ calls_for window w h settings

set-Ends :
    (setting : Setting) (window w h : ℕ) (s : System)
    → IsShown window w h s
    → Ends window w h (setting ∷ []) s.calls (set setting s)
unfolding set
set-Ends (Setting.width n) window w h s i =
    unfold set_window_width call_window in
    rw i.opened record {
      end = record s {
        window_data = record s.window_data { width = n };
        calls = s.calls ++ set_window_size window n s.window_data.height ∷ [];
      };
      returned = refl;
      shown = record { opened = i.opened; width = refl; height = i.height };
      made = ap (λ x. s.calls ++ set_window_size window n x ∷ []) i.height;
    }
set-Ends (Setting.height n) window w h s i =
    unfold set_window_height call_window in
    rw i.opened record {
      end = record s {
        window_data = record s.window_data { height = n };
        calls = s.calls ++ set_window_size window s.window_data.width n ∷ [];
      };
      returned = refl;
      shown = record { opened = i.opened; width = i.width; height = refl };
      made = ap (λ x. s.calls ++ set_window_size window x n ∷ []) i.width;
    }
set-Ends (Setting.resizable b) window w h s i =
    unfold set_resizable call_window in
    rw i.opened record {
      end = record s {
        window_data = record s.window_data { resizable = b };
        calls = s.calls ++ set_window_resizable window b ∷ [];
      };
      returned = refl;
      shown = record { opened = i.opened; width = i.width; height = i.height };
      made = refl;
    }
set-Ends _ window w h s i = record {
  end = _;
  returned = refl;
  shown = record { opened = i.opened; width = i.width; height = i.height };
  made = sym (append-nil s.calls);
}

last_width-cons :
    (w : ℕ) (setting : Setting) (rest : List Setting)
    → last_width (last_width w (setting ∷ [])) rest ≡ last_width w (setting ∷ rest)
last_width-cons w (Setting.width n) rest = refl
last_width-cons w _ rest = refl

last_height-cons :
    (h : ℕ) (setting : Setting) (rest : List Setting)
    → last_height (last_height h (setting ∷ [])) rest ≡ last_height h (setting ∷ rest)
last_height-cons h (Setting.height n) rest = refl
last_height-cons h _ rest = refl

calls_for-cons :
    (window w h : ℕ) (setting : Setting) (rest : List Setting)
    → calls_for window w h (setting ∷ [])
        ++ calls_for window (last_width w (setting ∷ [])) (last_height h (setting ∷ [])) rest
      ≡ calls_for window w h (setting ∷ rest)
calls_for-cons window w h (Setting.width n) rest = refl
calls_for-cons window w h _ rest = refl

set_all-Ends :
    (settings : List Setting) (window w h : ℕ) (s : System)
    → IsShown window w h s
    → Ends window w h settings s.calls (set_all settings s)
unfolding set_all
set_all-Ends [] window w h s i = record {
  end = s;
  returned = refl;
  shown = i;
  made = sym (append-nil s.calls);
}
set_all-Ends (setting ∷ rest) window w h s i =
    let one = set-Ends setting window w h s i in
    let later =
      set_all-Ends rest window (last_width w (setting ∷ [])) (last_height h (setting ∷ [])) one.end
        one.shown in
    record {
      end = later.end;
      returned = rw one.returned later.returned;
      shown = rw (← last_width-cons w setting rest, ← last_height-cons h setting rest) later.shown;
      made =
          later.made
          ∙ ap
              (λ calls.
                calls
                ++ calls_for window (last_width w (setting ∷ [])) (last_height h (setting ∷ []))
                    rest)
              one.made
          ∙ append_assoc s.calls _ _
          ∙ ap (◌++◌ s.calls) (calls_for-cons window w h setting rest);
    }

-- The calls of `create`: SDL_Init when nothing has done it yet, and SDL_CreateWindow with the title,
-- the position, the size and the flags.
abbrev pub opening : WindowFlags → List ℕ → ℕ → ℕ → System → List SdlCall
opening f title w h s =
    (if not s.sdl2_initialized then sdl_init ∷ [] else [])
    ++ create_window title s.window_data.xpos s.window_data.ypos w h
        (creation_flags f s.window_data)
      ∷ []

opening_lem :
    (f : WindowFlags) (created : Pointer) (title : List ℕ) (w h : ℕ) (s : System)
    → (initialize f created title w h s).calls ≡ s.calls ++ opening f title w h s
unfolding initialize create creation_flags
opening_lem f created title w h s = elim (Bool-cases (not s.sdl2_initialized)) [
  | inl new ↦ rw new (append_assoc s.calls (sdl_init ∷ []) _)
  | inr old ↦ rw old refl
]

initialize-IsShown :
    (f : WindowFlags) (window : ℕ) (title : List ℕ) (w h : ℕ) (s : System)
    → IsShown window w h (initialize f (points window) title w h s)
unfolding initialize create
initialize-IsShown f window title w h s = record { opened = refl; width = refl; height = refl }

-- Once `initialize` has got a window, any settings succeed, and `width` and `height` then return the
-- last that were asked for. The calls of the window system are those of `create`, with the position
-- and the flags from before, and then one for each setting of the width or the height, with that
-- size and the last one asked for in the other direction, and one for each setting of `resizable`;
-- the other settings call nothing.
pub set_all-initialize :
    (f : WindowFlags) (window : ℕ) (title : List ℕ) (w h : ℕ) (s : System) (settings : List Setting)
    → Ends window w h settings
        (s.calls ++ opening f title w h s)
        (set_all settings (initialize f (points window) title w h s))
set_all-initialize f window title w h s settings =
    subst
      (λ calls.
        Ends window w h settings calls
          (set_all settings (initialize f (points window) title w h s)))
      (opening_lem f (points window) title w h s)
      (set_all-Ends settings window w h _ (initialize-IsShown f window title w h s))
