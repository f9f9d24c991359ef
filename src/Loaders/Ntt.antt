-- ===== src/Loaders/Ntt.antt =====
-- src/loaders/NttFile.{h,cpp}: the font file. An `int` is its pattern of 32 bits, as it is stored.
pub mod Glyphs
pub mod Consistent
mod Tests
use kgl.Common.{
  take, ℕ, zero, suc, Bool, true, false, List, [], Option, none, some, Result, ok, bind,
  if◌then◌else◌, ◌==◌, length, ◌%◌, ◌^◌, from_option,
}
use kgl.Common.OrderedMap.{lookup, assign}
use kgl.Loaders.Stream.{
  M, ◌>>=◌, pure, fresh, read_unsigned, read_character, read_magic, read_bytes,
}

abbrev pub magic_number : ℕ
magic_number = 0x296f7d692e450a

pub record Character : Type 0 where
  pub size_x : ℕ
  pub size_y : ℕ
  pub bearing_x : ℕ
  pub bearing_y : ℕ
  pub advance : ℕ

-- `std::pair<unsigned char*, unsigned>`: a buffer and its size. A byte that was not read is `none`.
pub record Buffer : Type 0 where
  pub bytes : List (Option ℕ)
  pub size : ℕ

pub record NttFileData : Type 0 where
  pub version : ℕ
  pub characters : List (ℕ × Character)
  pub character_buffers : List (ℕ × Buffer)

-- `NttFileData()`
unfoldable pub new_data : NttFileData
new_data = record { version = 0; characters = []; character_buffers = [] }

-- `int val; stream.read( &val, sizeof( int ) ); return val;`
unfoldable pub read_integer : M ℕ
read_integer = read_unsigned

-- One round of the loop in `readCharactersV1`: `characters[ ch ] = …; character_buffers[ ch ] = …`.
unfoldable pub read_glyph : NttFileData → M NttFileData
read_glyph d = do
  ch ← read_character
  buffer_size ← read_unsigned
  bearing_x ← read_integer
  bearing_y ← read_integer
  size_x ← read_integer
  size_y ← read_integer
  advance ← read_unsigned
  buffer ← read_bytes buffer_size
  let character : Character = record {
    size_x = size_x;
    size_y = size_y;
    bearing_x = bearing_x;
    bearing_y = bearing_y;
    advance = advance;
  }
  let image : Buffer = record { bytes = buffer; size = buffer_size }
  pure (record d {
    characters = assign ch character d.characters;
    character_buffers = assign ch image d.character_buffers;
  })

unfoldable pub read_glyphs : ℕ → NttFileData → M NttFileData
read_glyphs zero d = pure d
read_glyphs (suc n) d = do d' ← read_glyph d; read_glyphs n d'

unfoldable pub read_characters_v1 : NttFileData → M NttFileData
read_characters_v1 d = do character_count ← read_unsigned; read_glyphs character_count d

unfoldable pub deallocate : NttFileData → NttFileData
deallocate d = record d { character_buffers = [] }

-- The version stays.
unfoldable pub reset : NttFileData → NttFileData
reset d = record (deallocate d) { characters = [] }

-- The `switch` on the version.
unfoldable pub read_case : ℕ → NttFileData → M NttFileData
read_case version d = if version == 1 then read_characters_v1 d else pure d

unfoldable pub read_versioned : NttFileData → M (Bool × NttFileData)
read_versioned d = do
  version ← read_unsigned
  d' ← read_case version (record d { version = version })
  pure (true, d')

unfoldable pub load_stream : NttFileData → M (Bool × NttFileData)
load_stream d = do
  magic ← read_magic
  if magic == magic_number then read_versioned d else pure (false, d)

-- `load( bytes, size )`
unfoldable pub load : List ℕ → NttFileData → Result (Bool × NttFileData)
load bytes d = bind (load_stream (reset d) (fresh bytes)) (λ (r, s). ok r)

-- `load( path )`: `none` is a path that cannot be opened. The size is narrowed
-- to `unsigned`.
unfoldable pub load_path : Option (List ℕ) → NttFileData → Result (Bool × NttFileData)
load_path none d = ok (false, d)
load_path (some bytes) d = load (take (length bytes % 2 ^ 32) bytes) d

unfoldable pub character_count : NttFileData → ℕ
character_count d = length d.characters % 2 ^ 32

-- A static dummy is all zeros.
abbrev pub dummy : Character
dummy = record { size_x = 0; size_y = 0; bearing_x = 0; bearing_y = 0; advance = 0 }

unfoldable pub character : NttFileData → ℕ → Character
character d ch = from_option (λ (c : Character). c) dummy (lookup ch d.characters)

-- `none` is `nullptr`.
unfoldable pub character_image : NttFileData → ℕ → Option (List (Option ℕ))
character_image d ch =
    from_option (λ (b : Buffer). some b.bytes) none (lookup ch d.character_buffers)

unfoldable pub character_image_size : NttFileData → ℕ → ℕ
character_image_size d ch = from_option (λ (b : Buffer). b.size) 0 (lookup ch d.character_buffers)
