-- ===== src/Vkg/Windows/Seen.antt =====
-- The windows as a function from their numbers: what a request does to it.
use kgl.Common.{
  ℕ, ◌≡◌, refl, ap, ◌∙◌, Bool, true, false, if◌then◌else◌, ◌==◌, List, [], ◌∷◌, ◌⊎◌, Option, none,
  some, ==_iff, Option-cases, Bool-cases, inl, inr,
}
use mathlib.Core.Path.{subst}
use kgl.Common.OrderedMap.{lookup, IsSorted}
use kgl.Window.State.{Pointer, unset, nullptr, points, WindowData, new_window_data, Setting}
use kgl.Vkg.Windows.{
  BaseWindow, SurfaceAnswer, no_instance, refused, surface_at, WindowSetting, window_setting,
  Windows, Request, added, settled,
}

abbrev pub was_set : Pointer → Bool
was_set unset = false
was_set nullptr = true
was_set (points _) = true

-- What a setting does to the data of a window.
abbrev pub setting_of : Setting → WindowData → WindowData
setting_of (Setting.x_position n) d = record d { xpos = n }
setting_of (Setting.y_position n) d = record d { ypos = n }
setting_of (Setting.width n) d = record d { width = n }
setting_of (Setting.height n) d = record d { height = n }
setting_of (Setting.monitor n) d = record d { monitor = some n }
setting_of (Setting.title t) d = record d { title = t }
setting_of (Setting.fullscreen b) d = record d { fullscreen = b }
setting_of (Setting.resizable b) d = record d { resizable = b }
setting_of (Setting.borderless b) d = record d { borderless = b }
setting_of (Setting.minimize b) d = record d { minimized = b }
setting_of (Setting.maximized b) d = record d { maximized = b }

abbrev pub set_of : Setting → BaseWindow → BaseWindow
set_of setting w = record w { os_window = setting_of setting w.os_window }

-- The surface that a window gets, and whether it gets one.
abbrev pub context_of : SurfaceAnswer → ℕ
context_of no_instance = 0
context_of refused = 0
context_of (surface_at surface) = surface

abbrev pub goes_on : SurfaceAnswer → Bool
goes_on no_instance = true
goes_on refused = false
goes_on (surface_at surface) = true

abbrev pub new_window : Pointer → SurfaceAnswer → List ℕ → ℕ → ℕ → BaseWindow
new_window created surface title width height = record {
  os_window = record new_window_data {
    window = created;
    title = title;
    width = width;
    height = height;
  };
  api_context = context_of surface;
}

-- What a request does to the window with one number, if there is one.
abbrev pub seen : ℕ → Request → Option BaseWindow → Option BaseWindow
seen i (added created surface id title width height) (some w) = some w
seen i (added created surface id title width height) none =
    if id == i then some (new_window created surface title width height) else none
seen i (settled id setting) (some w) =
    if id == i then some (set_of (window_setting setting) w) else some w
seen i (settled id setting) none = none

abbrev pub seen_all : ℕ → List Request → Option BaseWindow → Option BaseWindow
seen_all i [] w = w
seen_all i (r ∷ rs) w = seen_all i rs (seen i r w)

-- The map is in order, and its windows have pointers that have been set.
pub record IsValid (s : Windows) : Type 0 where
  pub sorted : IsSorted s.windows
  pub pointers :
      (i : ℕ) (w : BaseWindow) → lookup i s.windows ≡ some w → was_set w.os_window.window ≡ true

-- SDL_CreateWindow returns a pointer, and the request for a surface does not fail.
abbrev pub Creates : Request → Type 0
Creates (added created surface _ _ _ _) = (was_set created ≡ true) × (goes_on surface ≡ true)
Creates (settled _ _) = Unit

setting_of_pointer : (setting : Setting) (d : WindowData) → (setting_of setting d).window ≡ d.window
setting_of_pointer (Setting.width n) d = refl
setting_of_pointer _ d = refl

module _ (i id : ℕ) where
  pub seen_taken :
      (created : Pointer) (surface : SurfaceAnswer) (title : List ℕ) (width height : ℕ)
      (w : BaseWindow) (o : Option BaseWindow)
      → (id ≡ i → o ≡ some w)
      → o ≡ seen i (added created surface id title width height) o
  seen_taken created surface title width height w (some x) h = refl
  seen_taken created surface title width height w none h = elim (Bool-cases (id == i)) [
    | inl same ↦ let e = h ((==_iff id i).0 same) in absurd (cc)
    | inr other ↦ rw other refl
  ]

  pub seen_new :
      (created : Pointer) (surface : SurfaceAnswer) (title : List ℕ) (width height : ℕ)
      (o : Option BaseWindow)
      → (id ≡ i → o ≡ none)
      → (if id == i then some (new_window created surface title width height) else o)
        ≡ seen i (added created surface id title width height) o
  seen_new created surface title width height none h = refl
  seen_new created surface title width height (some x) h = elim (Bool-cases (id == i)) [
    | inl same ↦ let e = h ((==_iff id i).0 same) in absurd (cc)
    | inr other ↦ rw other refl
  ]

  pub seen_settled :
      (setting : WindowSetting) (w w' : BaseWindow) (o : Option BaseWindow)
      → w' ≡ set_of (window_setting setting) w
      → (id ≡ i → o ≡ some w)
      → (if id == i then some w' else o) ≡ seen i (settled id setting) o
  seen_settled setting w w' o p h = elim (Bool-cases (id == i)) [
    | inl same ↦ rw (same, h ((==_iff id i).0 same), p) (rw same refl)
    | inr other ↦ elim (Option-cases o) [
      | inl e ↦ rw (e, other) refl
      | inr (x, e) ↦ rw (e, other) refl
    ]
  ]

  pub seen_missing :
      (setting : WindowSetting) (o : Option BaseWindow)
      → (id ≡ i → o ≡ none)
      → o ≡ seen i (settled id setting) o
  seen_missing setting none h = refl
  seen_missing setting (some x) h = elim (Bool-cases (id == i)) [
    | inl same ↦ let e = h ((==_iff id i).0 same) in absurd (cc)
    | inr other ↦ rw other refl
  ]

some_if : (b : Bool) (x w : BaseWindow) → (if b then some x else none) ≡ some w → x ≡ w
some_if true x w e = cc
some_if false x w e = absurd (cc)

either_if :
    (b : Bool) (x y w : BaseWindow) → (if b then some x else some y) ≡ some w → (x ≡ w) ⊎ (y ≡ w)
either_if true x y w e = inl (cc)
either_if false x y w e = inr (cc)

pub seen-was_set :
    (i : ℕ) (r : Request) (o : Option BaseWindow) (w : BaseWindow)
    → Creates r
    → ((x : BaseWindow) → o ≡ some x → was_set x.os_window.window ≡ true)
    → seen i r o ≡ some w
    → was_set w.os_window.window ≡ true
seen-was_set i (added created surface id title width height) (some x) w c h e = h w e
seen-was_set i (added created surface id title width height) none w c h e =
    subst (λ (x : BaseWindow). was_set x.os_window.window ≡ true)
      (some_if (id == i) (new_window created surface title width height) w e) c.0
seen-was_set i (settled id setting) (some x) w c h e =
    elim (either_if (id == i) (set_of (window_setting setting) x) x w e) [
      | inl same ↦
          subst (λ (y : BaseWindow). was_set y.os_window.window ≡ true) same
            (ap was_set (setting_of_pointer (window_setting setting) x.os_window) ∙ h x refl)
      | inr same ↦ h w (ap some same)
    ]
seen-was_set i (settled id setting) none w c h e = absurd (cc)
