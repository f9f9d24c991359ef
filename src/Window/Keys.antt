-- ===== src/Window/Keys.antt =====
-- src/window/Window.cpp: the keys and the buttons of the mouse, from the numbers of the window
-- system. Those numbers are parameters; a key code is the 32 bits of the signed number.
pub mod Injective
use kgl.Common.{
  ℕ, ◌≡◌, ◌≢◌, refl, sym, ap, ◌∙◌, List, [], ◌∷◌, Option, none, some, All, from_option,
}
use mathlib.Core.Path.{subst}
use kgl.Common.Switch.{Enumeration, switch, Taken, default, label, switch-Taken}
use kgl.Event.Keys.{Key, no_key}
use kgl.Event.Types.{
  MouseButton, no_button, left_click, middle_click, right_click, button01, button02,
}

-- The labels of the switch in keyFromSDL.
pub data Keycode : Type 0 where
  sdlk_escape sdlk_1 sdlk_2 sdlk_3 sdlk_4 sdlk_5 sdlk_6 sdlk_7 sdlk_8 sdlk_9 sdlk_0 : Keycode
  sdlk_equals sdlk_q sdlk_w sdlk_e sdlk_r sdlk_t sdlk_y sdlk_u sdlk_i sdlk_o : Keycode
  sdlk_leftbracket sdlk_rightbracket sdlk_return sdlk_lctrl sdlk_a sdlk_s sdlk_d sdlk_f : Keycode
  sdlk_g sdlk_h sdlk_j sdlk_k sdlk_l sdlk_semicolon sdlk_backquote sdlk_lshift : Keycode
  sdlk_backslash sdlk_z sdlk_x sdlk_c sdlk_v sdlk_b sdlk_n sdlk_m sdlk_comma sdlk_period : Keycode
  sdlk_slash sdlk_space sdlk_up sdlk_left sdlk_right sdlk_down : Keycode

unfoldable pub key_table : List (Keycode × Key)
key_table =
    (sdlk_escape, Key.esc)
    ∷ (sdlk_1, Key.one)
    ∷ (sdlk_2, Key.two)
    ∷ (sdlk_3, Key.three)
    ∷ (sdlk_4, Key.four)
    ∷ (sdlk_5, Key.five)
    ∷ (sdlk_6, Key.six)
    ∷ (sdlk_7, Key.seven)
    ∷ (sdlk_8, Key.eight)
    ∷ (sdlk_9, Key.nine)
    ∷ (sdlk_0, Key.zero)
    ∷ (sdlk_equals, Key.equals)
    ∷ (sdlk_q, Key.q)
    ∷ (sdlk_w, Key.w)
    ∷ (sdlk_e, Key.e)
    ∷ (sdlk_r, Key.r)
    ∷ (sdlk_t, Key.t)
    ∷ (sdlk_y, Key.y)
    ∷ (sdlk_u, Key.u)
    ∷ (sdlk_i, Key.i)
    ∷ (sdlk_o, Key.o)
    ∷ (sdlk_leftbracket, Key.l_bracket)
    ∷ (sdlk_rightbracket, Key.r_bracket)
    ∷ (sdlk_return, Key.return)
    ∷ (sdlk_lctrl, Key.l_ctrl)
    ∷ (sdlk_a, Key.a)
    ∷ (sdlk_s, Key.s)
    ∷ (sdlk_d, Key.d)
    ∷ (sdlk_f, Key.f)
    ∷ (sdlk_g, Key.g)
    ∷ (sdlk_h, Key.h)
    ∷ (sdlk_j, Key.j)
    ∷ (sdlk_k, Key.k)
    ∷ (sdlk_l, Key.l)
    ∷ (sdlk_semicolon, Key.semicolon)
    ∷ (sdlk_backquote, Key.backtick)
    ∷ (sdlk_lshift, Key.l_shift)
    ∷ (sdlk_backslash, Key.b_slash)
    ∷ (sdlk_z, Key.z)
    ∷ (sdlk_x, Key.x)
    ∷ (sdlk_c, Key.c)
    ∷ (sdlk_v, Key.v)
    ∷ (sdlk_b, Key.b)
    ∷ (sdlk_n, Key.n)
    ∷ (sdlk_m, Key.m)
    ∷ (sdlk_comma, Key.comma)
    ∷ (sdlk_period, Key.period)
    ∷ (sdlk_slash, Key.f_slash)
    ∷ (sdlk_space, Key.space)
    ∷ (sdlk_up, Key.up)
    ∷ (sdlk_left, Key.left)
    ∷ (sdlk_right, Key.right)
    ∷ (sdlk_down, Key.down)
    ∷ []

-- `keyFromSDL`
unfoldable pub key_from_sdl : Enumeration Keycode → ℕ → Key
key_from_sdl sdl key = switch sdl key_table no_key key

-- The labels of the switch in mouseButtonFromSDL.
pub data ButtonCode : Type 0 where
  sdl_button_left sdl_button_right sdl_button_middle sdl_button_x1 sdl_button_x2 : ButtonCode

unfoldable pub button_table : List (ButtonCode × MouseButton)
button_table =
    (sdl_button_left, left_click)
    ∷ (sdl_button_right, middle_click)
    ∷ (sdl_button_middle, right_click)
    ∷ (sdl_button_x1, button01)
    ∷ (sdl_button_x2, button02)
    ∷ []

-- `mouseButtonFromSDL`
unfoldable pub mouse_button_from_sdl : Enumeration ButtonCode → ℕ → MouseButton
mouse_button_from_sdl sdl key = switch sdl button_table no_button key
