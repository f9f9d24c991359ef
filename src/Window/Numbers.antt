-- ===== src/Window/Numbers.antt =====
-- Numbers for the window system's keys, buttons and events, for runs of the code.
use kgl.Common.{ℕ, ◌≡◌, refl, sym, ap, ◌∙◌, List, [], ◌∷◌, get_elem?, from_option}
use kgl.Common.Switch.{Enumeration}
use kgl.Window.Keys.{
  Keycode, ButtonCode, sdlk_escape, sdlk_1, sdlk_2, sdlk_3, sdlk_4, sdlk_5, sdlk_6, sdlk_7, sdlk_8,
  sdlk_9, sdlk_0, sdlk_equals, sdlk_q, sdlk_w, sdlk_e, sdlk_r, sdlk_t, sdlk_y, sdlk_u, sdlk_i,
  sdlk_o, sdlk_leftbracket, sdlk_rightbracket, sdlk_return, sdlk_lctrl, sdlk_a, sdlk_s, sdlk_d,
  sdlk_f, sdlk_g, sdlk_h, sdlk_j, sdlk_k, sdlk_l, sdlk_semicolon, sdlk_backquote, sdlk_lshift,
  sdlk_backslash, sdlk_z, sdlk_x, sdlk_c, sdlk_v, sdlk_b, sdlk_n, sdlk_m, sdlk_comma, sdlk_period,
  sdlk_slash, sdlk_space, sdlk_up, sdlk_left, sdlk_right, sdlk_down, sdl_button_left,
  sdl_button_right, sdl_button_middle, sdl_button_x1, sdl_button_x2,
}
use kgl.Window.Events.{
  SdlType, Sdl, sdl_keydown, sdl_keyup, sdl_mousebuttondown, sdl_mousebuttonup, sdl_quit,
  sdl_mousemotion,
}

abbrev all_keycodes : List Keycode
all_keycodes =
    sdlk_escape ∷ sdlk_1 ∷ sdlk_2 ∷ sdlk_3 ∷ sdlk_4 ∷ sdlk_5 ∷ sdlk_6 ∷ sdlk_7 ∷ sdlk_8 ∷ sdlk_9
    ∷ sdlk_0 ∷ sdlk_equals ∷ sdlk_q ∷ sdlk_w ∷ sdlk_e ∷ sdlk_r ∷ sdlk_t ∷ sdlk_y ∷ sdlk_u ∷ sdlk_i
    ∷ sdlk_o ∷ sdlk_leftbracket ∷ sdlk_rightbracket ∷ sdlk_return ∷ sdlk_lctrl ∷ sdlk_a ∷ sdlk_s
    ∷ sdlk_d ∷ sdlk_f ∷ sdlk_g ∷ sdlk_h ∷ sdlk_j ∷ sdlk_k ∷ sdlk_l ∷ sdlk_semicolon ∷ sdlk_backquote
    ∷ sdlk_lshift ∷ sdlk_backslash ∷ sdlk_z ∷ sdlk_x ∷ sdlk_c ∷ sdlk_v ∷ sdlk_b ∷ sdlk_n ∷ sdlk_m
    ∷ sdlk_comma ∷ sdlk_period ∷ sdlk_slash ∷ sdlk_space ∷ sdlk_up ∷ sdlk_left ∷ sdlk_right
    ∷ sdlk_down ∷ []

unfoldable pub keycode_number : Keycode → ℕ
keycode_number sdlk_escape = 0
keycode_number sdlk_1 = 1
keycode_number sdlk_2 = 2
keycode_number sdlk_3 = 3
keycode_number sdlk_4 = 4
keycode_number sdlk_5 = 5
keycode_number sdlk_6 = 6
keycode_number sdlk_7 = 7
keycode_number sdlk_8 = 8
keycode_number sdlk_9 = 9
keycode_number sdlk_0 = 10
keycode_number sdlk_equals = 11
keycode_number sdlk_q = 12
keycode_number sdlk_w = 13
keycode_number sdlk_e = 14
keycode_number sdlk_r = 15
keycode_number sdlk_t = 16
keycode_number sdlk_y = 17
keycode_number sdlk_u = 18
keycode_number sdlk_i = 19
keycode_number sdlk_o = 20
keycode_number sdlk_leftbracket = 21
keycode_number sdlk_rightbracket = 22
keycode_number sdlk_return = 23
keycode_number sdlk_lctrl = 24
keycode_number sdlk_a = 25
keycode_number sdlk_s = 26
keycode_number sdlk_d = 27
keycode_number sdlk_f = 28
keycode_number sdlk_g = 29
keycode_number sdlk_h = 30
keycode_number sdlk_j = 31
keycode_number sdlk_k = 32
keycode_number sdlk_l = 33
keycode_number sdlk_semicolon = 34
keycode_number sdlk_backquote = 35
keycode_number sdlk_lshift = 36
keycode_number sdlk_backslash = 37
keycode_number sdlk_z = 38
keycode_number sdlk_x = 39
keycode_number sdlk_c = 40
keycode_number sdlk_v = 41
keycode_number sdlk_b = 42
keycode_number sdlk_n = 43
keycode_number sdlk_m = 44
keycode_number sdlk_comma = 45
keycode_number sdlk_period = 46
keycode_number sdlk_slash = 47
keycode_number sdlk_space = 48
keycode_number sdlk_up = 49
keycode_number sdlk_left = 50
keycode_number sdlk_right = 51
keycode_number sdlk_down = 52

abbrev keycode_at : ℕ → Keycode
keycode_at n = from_option (λ (this : Keycode). this) sdlk_escape (get_elem? all_keycodes (n))

keycode_at-keycode_number : (this : Keycode) → keycode_at (keycode_number this) ≡ this
unfolding keycode_number
keycode_at-keycode_number sdlk_escape = refl
keycode_at-keycode_number _ = refl

pub keycode_number-injective :
    (this that : Keycode) → keycode_number this ≡ keycode_number that → this ≡ that
keycode_number-injective this that same =
    sym (keycode_at-keycode_number this) ∙ ap keycode_at same ∙ keycode_at-keycode_number that

abbrev pub keycodes : Enumeration Keycode
keycodes = record { value = keycode_number; distinct = keycode_number-injective }

abbrev all_button_codes : List ButtonCode
all_button_codes =
    sdl_button_left ∷ sdl_button_right ∷ sdl_button_middle ∷ sdl_button_x1 ∷ sdl_button_x2 ∷ []

unfoldable pub button_number : ButtonCode → ℕ
button_number sdl_button_left = 0
button_number sdl_button_right = 1
button_number sdl_button_middle = 2
button_number sdl_button_x1 = 3
button_number sdl_button_x2 = 4

abbrev button_code_at : ℕ → ButtonCode
button_code_at n =
    from_option (λ (this : ButtonCode). this) sdl_button_left (get_elem? all_button_codes (n))

button_code_at-button_number : (this : ButtonCode) → button_code_at (button_number this) ≡ this
unfolding button_number
button_code_at-button_number sdl_button_left = refl
button_code_at-button_number _ = refl

pub button_number-injective :
    (this that : ButtonCode) → button_number this ≡ button_number that → this ≡ that
button_number-injective this that same =
    sym (button_code_at-button_number this)
    ∙ ap button_code_at same
    ∙ button_code_at-button_number that

abbrev pub button_codes : Enumeration ButtonCode
button_codes = record { value = button_number; distinct = button_number-injective }

abbrev all_sdl_types : List SdlType
all_sdl_types =
    sdl_keydown ∷ sdl_keyup ∷ sdl_mousebuttondown ∷ sdl_mousebuttonup ∷ sdl_quit ∷ sdl_mousemotion
    ∷ []

unfoldable pub sdl_type_number : SdlType → ℕ
sdl_type_number sdl_keydown = 0
sdl_type_number sdl_keyup = 1
sdl_type_number sdl_mousebuttondown = 2
sdl_type_number sdl_mousebuttonup = 3
sdl_type_number sdl_quit = 4
sdl_type_number sdl_mousemotion = 5

abbrev sdl_type_at : ℕ → SdlType
sdl_type_at n = from_option (λ (this : SdlType). this) sdl_keydown (get_elem? all_sdl_types (n))

sdl_type_at-sdl_type_number : (this : SdlType) → sdl_type_at (sdl_type_number this) ≡ this
unfolding sdl_type_number
sdl_type_at-sdl_type_number sdl_keydown = refl
sdl_type_at-sdl_type_number _ = refl

pub sdl_type_number-injective :
    (this that : SdlType) → sdl_type_number this ≡ sdl_type_number that → this ≡ that
sdl_type_number-injective this that same =
    sym (sdl_type_at-sdl_type_number this) ∙ ap sdl_type_at same ∙ sdl_type_at-sdl_type_number that

abbrev pub sdl_types : Enumeration SdlType
sdl_types = record { value = sdl_type_number; distinct = sdl_type_number-injective }

abbrev pub sdl : Sdl
sdl = record { types = sdl_types; keys = keycodes; buttons = button_codes }
