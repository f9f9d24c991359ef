-- ===== src/Loaders/Ntt/Tests.antt =====
-- Runs of the font loader, and its theorems at a file with two glyphs for one character.
use kgl.Common.{◌≡◌, refl, List, [], ◌∷◌, ◌++◌, some, ok, true, arith, All}
use kgl.Common.OrderedMap.{assign}
use kgl.Common.Words.{to_bytes, of_bytes}
use kgl.Loaders.Stream.{read, read_word, read_unsigned, read_character, read_magic, read_bytes}
use kgl.Loaders.Ntt.{
  Character, NttFileData, new_data, reset, deallocate, read_integer, read_glyph, read_glyphs,
  read_characters_v1, read_case, read_versioned, load_stream, load,
}
use kgl.Loaders.Ntt.Consistent.{IsConsistent, load-IsConsistent}
use kgl.Loaders.Ntt.Glyphs.{
  Glyph, GlyphFits, put_glyph, put_font, with_glyphs, load-put_font, load-Answers, Answers,
}

abbrev metrics : Character
metrics = record { size_x = 1; size_y = 2; bearing_x = 3; bearing_y = 4; advance = 64 }

abbrev thin : Glyph
thin = record { ch = b'i'; metrics = metrics; image = 1 ∷ 2 ∷ [] }

abbrev bold : Glyph
bold = record { ch = b'i'; metrics = record metrics { advance = 96 }; image = 3 ∷ [] }

abbrev font : List Glyph
font = thin ∷ bold ∷ []

abbrev loaded : NttFileData
loaded = record {
  version = 1;
  characters = (b'i', record metrics { advance = 96 }) ∷ [];
  character_buffers = (b'i', record { bytes = some 3 ∷ []; size = 1 }) ∷ [];
}

load-font : load (put_font font ++ 5 ∷ []) new_data ≡ ok (true, loaded)
unfolding load load_stream read_versioned read_case read_characters_v1 read_glyphs read_glyph
    read_integer reset deallocate new_data read_magic read_unsigned read_character read_word
    read_bytes read of_bytes put_font put_glyph to_bytes assign
load-font = refl

font_fits : All GlyphFits font
font_fits = omega arith

load-IsConsistent_example : IsConsistent loaded
load-IsConsistent_example = load-IsConsistent (put_font font ++ 5 ∷ []) new_data load-font

load-put_font_example :
    load (put_font font ++ 5 ∷ []) new_data
    ≡ ok (true, with_glyphs (record (reset new_data) { version = 1 }) font)
load-put_font_example = load-put_font font (5 ∷ []) new_data (omega arith) font_fits

load-Answers_example : Answers loaded b'i' (some bold)
load-Answers_example =
    load-Answers font (5 ∷ []) new_data loaded true b'i' (omega arith) font_fits load-font
