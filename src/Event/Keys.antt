-- ===== src/Event/Keys.antt =====
-- src/event/Event.h, `enum class Key`: the keys in the order of the enumeration, which is the order
-- of the map of key callbacks.
use kgl.Common.{ℕ, ◌≡◌, refl, List, [], ◌∷◌, ap, ◌∙◌, sym, get_elem?, from_option}

pub data Key : Type 0 where
  no_key esc f1 f2 f3 f4 f5 f6 f7 f8 f9 f10 f11 f12 backtick one two three four five six seven : Key
  eight nine zero hyphen equals backspace l_tab q w e r t y u i o p l_bracket r_bracket : Key
  b_slash capslock a s d f g h j k l semicolon apostraphe return l_shift z x c v b n m comma : Key
  period f_slash l_ctrl win_key l_alt space r_alt fn r_ctrl left up right down : Key

abbrev all_keys : List Key
all_keys =
    no_key ∷ esc ∷ f1 ∷ f2 ∷ f3 ∷ f4 ∷ f5 ∷ f6 ∷ f7 ∷ f8 ∷ f9 ∷ f10 ∷ f11 ∷ f12 ∷ backtick ∷ one
    ∷ two ∷ three ∷ four ∷ five ∷ six ∷ seven ∷ eight ∷ nine ∷ zero ∷ hyphen ∷ equals ∷ backspace
    ∷ l_tab ∷ q ∷ w ∷ e ∷ r ∷ t ∷ y ∷ u ∷ i ∷ o ∷ p ∷ l_bracket ∷ r_bracket ∷ b_slash ∷ capslock ∷ a
    ∷ s ∷ d ∷ f ∷ g ∷ h ∷ j ∷ k ∷ l ∷ semicolon ∷ apostraphe ∷ return ∷ l_shift ∷ z ∷ x ∷ c ∷ v ∷ b
    ∷ n ∷ m ∷ comma ∷ period ∷ f_slash ∷ l_ctrl ∷ win_key ∷ l_alt ∷ space ∷ r_alt ∷ fn ∷ r_ctrl
    ∷ left ∷ up ∷ right ∷ down ∷ []

-- The number of the enumerator.
unfoldable pub ordinal : Key → ℕ
ordinal no_key = 0
ordinal esc = 1
ordinal f1 = 2
ordinal f2 = 3
ordinal f3 = 4
ordinal f4 = 5
ordinal f5 = 6
ordinal f6 = 7
ordinal f7 = 8
ordinal f8 = 9
ordinal f9 = 10
ordinal f10 = 11
ordinal f11 = 12
ordinal f12 = 13
ordinal backtick = 14
ordinal one = 15
ordinal two = 16
ordinal three = 17
ordinal four = 18
ordinal five = 19
ordinal six = 20
ordinal seven = 21
ordinal eight = 22
ordinal nine = 23
ordinal zero = 24
ordinal hyphen = 25
ordinal equals = 26
ordinal backspace = 27
ordinal l_tab = 28
ordinal q = 29
ordinal w = 30
ordinal e = 31
ordinal r = 32
ordinal t = 33
ordinal y = 34
ordinal u = 35
ordinal i = 36
ordinal o = 37
ordinal p = 38
ordinal l_bracket = 39
ordinal r_bracket = 40
ordinal b_slash = 41
ordinal capslock = 42
ordinal a = 43
ordinal s = 44
ordinal d = 45
ordinal f = 46
ordinal g = 47
ordinal h = 48
ordinal j = 49
ordinal k = 50
ordinal l = 51
ordinal semicolon = 52
ordinal apostraphe = 53
ordinal return = 54
ordinal l_shift = 55
ordinal z = 56
ordinal x = 57
ordinal c = 58
ordinal v = 59
ordinal b = 60
ordinal n = 61
ordinal m = 62
ordinal comma = 63
ordinal period = 64
ordinal f_slash = 65
ordinal l_ctrl = 66
ordinal win_key = 67
ordinal l_alt = 68
ordinal space = 69
ordinal r_alt = 70
ordinal fn = 71
ordinal r_ctrl = 72
ordinal left = 73
ordinal up = 74
ordinal right = 75
ordinal down = 76

abbrev key_at : ℕ → Key
key_at number = from_option (λ (this : Key). this) no_key (get_elem? all_keys number)

key_at-ordinal : (this : Key) → key_at (ordinal this) ≡ this
unfolding ordinal
key_at-ordinal no_key = refl
key_at-ordinal _ = refl

pub ordinal-injective : (this that : Key) → ordinal this ≡ ordinal that → this ≡ that
ordinal-injective this that same = sym (key_at-ordinal this) ∙ ap key_at same ∙ key_at-ordinal that
