-- ===== src/Vkg/Device/Lists.antt =====
-- The extensions that a device has been given.
use kgl.Common.{
  ℕ, ◌≡◌, refl, sym, ap, ◌∙◌, Bool, true, false, if◌then◌else◌, List, [], ◌∷◌, ◌++◌, equal,
  equal_iff, arith, ◌&&◌, ◌||◌, append-nil, append_assoc,
}
use kgl.Vkg.Device.{
  requested_as, filter_names, DeviceData, new_device_data, add_extension, generate_lists,
  has_extension,
}

-- Whether a name is in a list.
abbrev pub listed : List ℕ → List (List ℕ) → Bool
listed name [] = false
listed name (x ∷ xs) = if equal x name then true else listed name xs

listed-append :
    (name : List ℕ) (xs ys : List (List ℕ))
    → listed name (xs ++ ys) ≡ (if listed name xs then true else listed name ys)
listed-append name [] ys = refl
listed-append name (x ∷ xs) ys = ground (arith, listed-append name xs ys)

equal_sym : (a b : List ℕ) → equal a b ≡ equal b a
equal_sym a b = ground (arith, equal_iff a b, equal_iff b a)

listed-requested_as :
    (x name : List ℕ) (list : List (List ℕ))
    → listed x (requested_as name list) ≡ (if equal name x then listed name list else false)
unfolding requested_as
listed-requested_as x name [] = ground arith
listed-requested_as x name (y ∷ list) =
    ground (arith, listed-requested_as x name list, equal_sym y name)

listed-same :
    (x name : List ℕ) (list : List (List ℕ))
    → equal name x ≡ true
    → listed name list ≡ listed x list
listed-same x name list h = rw ((equal_iff name x).0 h) refl

listed-filter_names :
    (x : List ℕ) (available list : List (List ℕ))
    → listed x (filter_names available list) ≡ (listed x available && listed x list)
unfolding filter_names
listed-filter_names x [] list = refl
listed-filter_names x (name ∷ available) list =
    listed-append x (requested_as name list) (filter_names available list)
    ∙ ground (
      arith,
      listed-requested_as x name list,
      listed-filter_names x available list,
      listed-same x name list,
    )

has_extension-listed :
    (name : List ℕ) (list : List (List ℕ)) → has_extension name list ≡ listed name list
unfolding has_extension
has_extension-listed name [] = refl
has_extension-listed name (x ∷ list) = ground (arith, has_extension-listed name list)

-- The extensions that are added, one after the other.
unfoldable pub add_extensions : List (List ℕ) → DeviceData → DeviceData
add_extensions [] d = d
add_extensions (name ∷ names) d = add_extensions names (add_extension name d)

add_extensions_lem :
    (names : List (List ℕ)) (d : DeviceData)
    → (add_extensions names d).extension_list ≡ d.extension_list ++ names
unfolding add_extensions add_extension
add_extensions_lem [] d = sym (append-nil d.extension_list)
add_extensions_lem (name ∷ names) d =
    add_extensions_lem names (add_extension name d)
    ∙ append_assoc d.extension_list (name ∷ []) names

-- Once its lists are made, a device has an extension just when the system offers it and it is one of
-- the two that every device asks for or was added before.
pub has_extension-generate_lists :
    (buffer_device_address swapchain : List ℕ) (names extensions layers : List (List ℕ))
    (name : List ℕ)
    → has_extension name
        (generate_lists extensions layers
          (add_extensions names (new_device_data buffer_device_address swapchain))).extension_list
      ≡ (listed name extensions
          && (equal buffer_device_address name || equal swapchain name || listed name names))
unfolding generate_lists new_device_data
has_extension-generate_lists b s names extensions layers name =
    has_extension-listed name (filter_names extensions _)
    ∙ listed-filter_names name extensions _
    ∙ ap (λ l. listed name extensions && listed name l) (add_extensions_lem names _)
    ∙ ground arith
