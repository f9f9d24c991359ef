-- ===== src/Window/Keys/Injective.antt =====
-- Different key codes have different keys, and the buttons of the mouse likewise.
use kgl.Common.{
  ℕ, ◌≡◌, ◌≢◌, refl, sym, ap, ◌∙◌, Option, none, some, All, from_option, List, [], ◌∷◌, map,
}
use mathlib.Core.Path.{subst}
use kgl.Common.Switch.{Enumeration, switch, Taken, default, label, switch-Taken}
use kgl.Event.Keys.{Key, no_key}
use kgl.Event.Types.{
  MouseButton, no_button, left_click, middle_click, right_click, button01, button02,
}
use kgl.Window.Keys.{
  Keycode, ButtonCode, key_table, button_table, key_from_sdl, mouse_button_from_sdl, sdlk_escape,
  sdlk_1, sdlk_2, sdlk_3, sdlk_4, sdlk_5, sdlk_6, sdlk_7, sdlk_8, sdlk_9, sdlk_0, sdlk_equals,
  sdlk_q, sdlk_w, sdlk_e, sdlk_r, sdlk_t, sdlk_y, sdlk_u, sdlk_i, sdlk_o, sdlk_leftbracket,
  sdlk_rightbracket, sdlk_return, sdlk_lctrl, sdlk_a, sdlk_s, sdlk_d, sdlk_f, sdlk_g, sdlk_h,
  sdlk_j, sdlk_k, sdlk_l, sdlk_semicolon, sdlk_backquote, sdlk_lshift, sdlk_backslash, sdlk_z,
  sdlk_x, sdlk_c, sdlk_v, sdlk_b, sdlk_n, sdlk_m, sdlk_comma, sdlk_period, sdlk_slash, sdlk_space,
  sdlk_up, sdlk_left, sdlk_right, sdlk_down, sdl_button_left, sdl_button_right, sdl_button_middle,
  sdl_button_x1, sdl_button_x2,
}

-- The code of a key that the table has.
abbrev code_of : Key → Option Keycode
code_of Key.esc = some sdlk_escape
code_of Key.one = some sdlk_1
code_of Key.two = some sdlk_2
code_of Key.three = some sdlk_3
code_of Key.four = some sdlk_4
code_of Key.five = some sdlk_5
code_of Key.six = some sdlk_6
code_of Key.seven = some sdlk_7
code_of Key.eight = some sdlk_8
code_of Key.nine = some sdlk_9
code_of Key.zero = some sdlk_0
code_of Key.equals = some sdlk_equals
code_of Key.q = some sdlk_q
code_of Key.w = some sdlk_w
code_of Key.e = some sdlk_e
code_of Key.r = some sdlk_r
code_of Key.t = some sdlk_t
code_of Key.y = some sdlk_y
code_of Key.u = some sdlk_u
code_of Key.i = some sdlk_i
code_of Key.o = some sdlk_o
code_of Key.l_bracket = some sdlk_leftbracket
code_of Key.r_bracket = some sdlk_rightbracket
code_of Key.return = some sdlk_return
code_of Key.l_ctrl = some sdlk_lctrl
code_of Key.a = some sdlk_a
code_of Key.s = some sdlk_s
code_of Key.d = some sdlk_d
code_of Key.f = some sdlk_f
code_of Key.g = some sdlk_g
code_of Key.h = some sdlk_h
code_of Key.j = some sdlk_j
code_of Key.k = some sdlk_k
code_of Key.l = some sdlk_l
code_of Key.semicolon = some sdlk_semicolon
code_of Key.backtick = some sdlk_backquote
code_of Key.l_shift = some sdlk_lshift
code_of Key.b_slash = some sdlk_backslash
code_of Key.z = some sdlk_z
code_of Key.x = some sdlk_x
code_of Key.c = some sdlk_c
code_of Key.v = some sdlk_v
code_of Key.b = some sdlk_b
code_of Key.n = some sdlk_n
code_of Key.m = some sdlk_m
code_of Key.comma = some sdlk_comma
code_of Key.period = some sdlk_period
code_of Key.f_slash = some sdlk_slash
code_of Key.space = some sdlk_space
code_of Key.up = some sdlk_up
code_of Key.left = some sdlk_left
code_of Key.right = some sdlk_right
code_of Key.down = some sdlk_down
code_of _ = none

-- A table whose values have their labels as codes, entry for entry.
codes-All :
    {N V : Type 0} (code : V → Option N) (cases : List (N × V))
    → map (λ c. code c.1) cases ≡ map (λ c. some c.0) cases
    → All (λ c. code c.1 ≡ some c.0) cases
codes-All code [] h = tt
codes-All code (c ∷ cases) h = (cc, codes-All code cases (cc))

key_table_codes : All (λ c. code_of c.1 ≡ some c.0) key_table
unfolding key_table
key_table_codes = codes-All code_of key_table refl

abbrev button_code_of : MouseButton → Option ButtonCode
button_code_of left_click = some sdl_button_left
button_code_of middle_click = some sdl_button_right
button_code_of right_click = some sdl_button_middle
button_code_of button01 = some sdl_button_x1
button_code_of button02 = some sdl_button_x2
button_code_of _ = none

button_table_codes : All (λ c. button_code_of c.1 ≡ some c.0) button_table
unfolding button_table
button_table_codes = codes-All button_code_of button_table refl

-- A switch whose table has an inverse takes two numbers to one value only by its default.
module _ {N V : Type 0} (e : Enumeration N) (code : V → Option N) where
  Taken-injective :
      (d v : V) (x y : ℕ)
      → Taken e (λ n v. code v ≡ some n) d x v
      → Taken e (λ n v. code v ≡ some n) d y v
      → v ≢ d
      → x ≡ y
  Taken-injective d v x y default q other = absurd (other refl)
  Taken-injective d v x y (label n _ p at) default other = absurd (other refl)
  Taken-injective d v x y (label n _ p at) (label m _ q at') other =
      sym p ∙ ap (from_option e.value 0) (sym at ∙ at') ∙ q

-- Two key codes with the same key, one that is not `None`, are the same, whatever numbers the
-- window system gives to its keys.
pub key_from_sdl_injective :
    (keys : Enumeration Keycode) (x y : ℕ)
    → key_from_sdl keys x ≢ no_key
    → key_from_sdl keys x ≡ key_from_sdl keys y
    → x ≡ y
unfolding key_from_sdl
key_from_sdl_injective keys x y other same =
    Taken-injective keys code_of no_key (switch keys key_table no_key x) x y
      (switch-Taken keys _ key_table no_key x key_table_codes)
      (subst (λ v. Taken keys (λ n v. code_of v ≡ some n) no_key y v) (sym same)
        (switch-Taken keys _ key_table no_key y key_table_codes))
      other

-- The buttons of the mouse likewise.
mouse_button_from_sdl_injective :
    (buttons : Enumeration ButtonCode) (x y : ℕ)
    → mouse_button_from_sdl buttons x ≢ no_button
    → mouse_button_from_sdl buttons x ≡ mouse_button_from_sdl buttons y
    → x ≡ y
unfolding mouse_button_from_sdl
mouse_button_from_sdl_injective buttons x y other same =
    Taken-injective buttons button_code_of no_button (switch buttons button_table no_button x) x y
      (switch-Taken buttons _ button_table no_button x button_table_codes)
      (subst (λ v. Taken buttons (λ n v. button_code_of v ≡ some n) no_button y v) (sym same)
        (switch-Taken buttons _ button_table no_button y button_table_codes))
      other
