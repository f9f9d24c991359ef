-- ===== src/Loaders/Ntt/Glyphs.antt =====
-- A font file of version 1, and what a load of it leaves.
use kgl.Common.{
  ℕ, ◌≡◌, refl, sym, ◌∙◌, Bool, true, List, [], ◌∷◌, ◌++◌, Option, none, some, ok, ok_value,
  if◌then◌else◌, ◌==◌, map, length, All, arith, from_option, append_assoc, Bool-cases, inl, inr,
}
use mathlib.Core.Path.{subst}
use kgl.Common.OrderedMap.{lookup, assign, lookup-assign}
use kgl.Common.Words.{IsByte, IsU32, to_bytes}
use kgl.Loaders.Stream.{read_unsigned, read_character, read_bytes}
use kgl.Loaders.Stream.Codec.{
  Decodes, Decodes-bind, Decodes-map, read_unsigned-Decodes, read_magic-Decodes,
  read_character-Decodes,
}
use kgl.Loaders.Stream.Loops.{put_all}
use kgl.Loaders.Stream.Buffers.{read_bytes-Decodes}
use kgl.Loaders.Ntt.{
  magic_number, Character, Buffer, NttFileData, read_integer, read_glyph, read_glyphs,
  read_characters_v1, reset, read_case, read_versioned, load_stream, load, dummy, character,
  character_image, character_image_size, deallocate,
}

pub record Glyph : Type 0 where
  pub ch : ℕ
  pub metrics : Character
  pub image : List ℕ

pub record GlyphFits (g : Glyph) : Type 0 where
  pub ch_fits : IsByte g.ch
  pub image_fits : IsU32 (length g.image)
  pub bearing_x_fits : IsU32 g.metrics.bearing_x
  pub bearing_y_fits : IsU32 g.metrics.bearing_y
  pub size_x_fits : IsU32 g.metrics.size_x
  pub size_y_fits : IsU32 g.metrics.size_y
  pub advance_fits : IsU32 g.metrics.advance

unfoldable pub put_glyph : Glyph → List ℕ
put_glyph g =
    to_bytes 1 g.ch
    ++ (to_bytes 4 (length g.image)
        ++ (to_bytes 4 g.metrics.bearing_x
            ++ (to_bytes 4 g.metrics.bearing_y
                ++ (to_bytes 4 g.metrics.size_x
                    ++ (to_bytes 4 g.metrics.size_y
                        ++ (to_bytes 4 g.metrics.advance ++ g.image))))))

unfoldable pub put_font : List Glyph → List ℕ
put_font gs =
    to_bytes 8 magic_number ++ (to_bytes 4 1 ++ (to_bytes 4 (length gs) ++ put_all put_glyph gs))

abbrev buffer_of : Glyph → Buffer
buffer_of g = record { bytes = map some g.image; size = length g.image }

-- A glyph written into both maps.
unfoldable pub with_glyph : NttFileData → Glyph → NttFileData
with_glyph d g = record d {
  characters = assign g.ch g.metrics d.characters;
  character_buffers = assign g.ch (buffer_of g) d.character_buffers;
}

unfoldable pub with_glyphs : NttFileData → List Glyph → NttFileData
with_glyphs d [] = d
with_glyphs d (g ∷ gs) = with_glyphs (with_glyph d g) gs

read_glyph-Decodes :
    (d : NttFileData) (g : Glyph)
    → GlyphFits g
    → Decodes (read_glyph d) (put_glyph g) (with_glyph d g)
unfolding read_glyph put_glyph with_glyph read_integer
read_glyph-Decodes d g h =
    Decodes-bind read_character _ _ _ g.ch _ (read_character-Decodes g.ch h.ch_fits) (
      Decodes-bind read_unsigned _ _ _ (length g.image) _ (read_unsigned-Decodes _ h.image_fits) (
        Decodes-bind read_unsigned _ _ _ g.metrics.bearing_x _
          (read_unsigned-Decodes _ h.bearing_x_fits)
          (Decodes-bind read_unsigned _ _ _ g.metrics.bearing_y _
            (read_unsigned-Decodes _ h.bearing_y_fits)
            (Decodes-bind read_unsigned _ _ _ g.metrics.size_x _
              (read_unsigned-Decodes _ h.size_x_fits)
              (Decodes-bind read_unsigned _ _ _ g.metrics.size_y _
                (read_unsigned-Decodes _ h.size_y_fits)
                (Decodes-bind read_unsigned _ _ _ g.metrics.advance _
                  (read_unsigned-Decodes _ h.advance_fits)
                  (Decodes-map (read_bytes (length g.image)) _ _ (map some g.image)
                    (read_bytes-Decodes g.image (length g.image) refl))))))))

read_glyphs-Decodes :
    (gs : List Glyph) (d : NttFileData)
    → All GlyphFits gs
    → Decodes (read_glyphs (length gs) d) (put_all put_glyph gs) (with_glyphs d gs)
unfolding read_glyphs with_glyphs
read_glyphs-Decodes [] d h = λ rest. refl
read_glyphs-Decodes (g ∷ gs) d h =
    Decodes-bind (read_glyph d) _ _ _ (with_glyph d g) _ (read_glyph-Decodes d g h.0)
      (read_glyphs-Decodes gs (with_glyph d g) h.1)

read_characters-Decodes :
    (gs : List Glyph) (d : NttFileData)
    → IsU32 (length gs)
    → All GlyphFits gs
    → Decodes
        (read_characters_v1 d)
        (to_bytes 4 (length gs) ++ put_all put_glyph gs)
        (with_glyphs d gs)
unfolding read_characters_v1
read_characters-Decodes gs d n h =
    Decodes-bind read_unsigned _ _ _ (length gs) _ (read_unsigned-Decodes _ n)
      (read_glyphs-Decodes gs d h)

-- Loading a font file of version 1 succeeds, whatever follows the file, and leaves its glyphs,
-- written in the order of the file into maps that were emptied first.
pub load-put_font :
    (gs : List Glyph) (rest : List ℕ) (d : NttFileData)
    → IsU32 (length gs)
    → All GlyphFits gs
    → load (put_font gs ++ rest) d ≡ ok (true, with_glyphs (record (reset d) { version = 1 }) gs)
unfolding load load_stream read_versioned read_case put_font
load-put_font gs rest d n h = rw (
  append_assoc (to_bytes 8 magic_number) _ rest,
  append_assoc (to_bytes 4 1) _ rest,
  read_magic-Decodes magic_number (omega arith) _,
  read_unsigned-Decodes 1 (omega arith) _,
  read_characters-Decodes gs (record (reset d) { version = 1 }) n h rest,
)

-- The last glyph of the list for the character, or else `o`.
abbrev pub last_for : ℕ → List Glyph → Option Glyph → Option Glyph
last_for ch [] o = o
last_for ch (g ∷ gs) o = last_for ch gs (if g.ch == ch then some g else o)

-- What the three queries answer for a character with this glyph.
pub record Answers (d : NttFileData) (ch : ℕ) (o : Option Glyph) : Type 0 where
  pub metrics_are : character d ch ≡ from_option (λ (g : Glyph). g.metrics) dummy o
  pub image_is : character_image d ch ≡ from_option (λ (g : Glyph). some (map some g.image)) none o
  pub size_is : character_image_size d ch ≡ from_option (λ (g : Glyph). length g.image) 0 o

Answers-with_glyph :
    (d : NttFileData) (g : Glyph) (ch : ℕ) (o : Option Glyph)
    → Answers d ch o
    → Answers (with_glyph d g) ch (if g.ch == ch then some g else o)
unfolding with_glyph character character_image character_image_size
Answers-with_glyph d g ch o a = elim (Bool-cases (g.ch == ch)) [
  | inl same ↦ rw same (record {
    metrics_are = rw (lookup-assign ch g.ch g.metrics d.characters, same);
    image_is = rw (lookup-assign ch g.ch (buffer_of g) d.character_buffers, same);
    size_is = rw (lookup-assign ch g.ch (buffer_of g) d.character_buffers, same);
  })
  | inr other ↦ rw other (record {
    metrics_are = rw (lookup-assign ch g.ch g.metrics d.characters, other) a.metrics_are;
    image_is = rw (lookup-assign ch g.ch (buffer_of g) d.character_buffers, other) a.image_is;
    size_is = rw (lookup-assign ch g.ch (buffer_of g) d.character_buffers, other) a.size_is;
  })
]

Answers-with_glyphs :
    (gs : List Glyph) (d : NttFileData) (ch : ℕ) (o : Option Glyph)
    → Answers d ch o
    → Answers (with_glyphs d gs) ch (last_for ch gs o)
unfolding with_glyphs
Answers-with_glyphs [] d ch o a = a
Answers-with_glyphs (g ∷ gs) d ch o a =
    Answers-with_glyphs gs (with_glyph d g) ch _ (Answers-with_glyph d g ch o a)

Answers-reset : (d : NttFileData) (ch : ℕ) → Answers (record (reset d) { version = 1 }) ch none
unfolding reset deallocate character character_image character_image_size lookup
Answers-reset d ch = record { metrics_are = refl; image_is = refl; size_is = refl }

-- After a font file of version 1 is loaded, the queries for a character answer with the last glyph
-- that the file has for it, and with the defaults when it has none.
pub load-Answers :
    (gs : List Glyph) (rest : List ℕ) (d d' : NttFileData) (b : Bool) (ch : ℕ)
    → IsU32 (length gs)
    → All GlyphFits gs
    → load (put_font gs ++ rest) d ≡ ok (b, d')
    → Answers d' ch (last_for ch gs none)
load-Answers gs rest d d' b ch n h e =
    subst (λ r. Answers r.1 ch (last_for ch gs none))
      (ok_value (sym (load-put_font gs rest d n h) ∙ e))
      (Answers-with_glyphs gs (record (reset d) { version = 1 }) ch none (Answers-reset d ch))
