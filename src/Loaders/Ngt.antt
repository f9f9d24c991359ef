-- ===== src/Loaders/Ngt.antt =====
-- src/loaders/NgtFile.{h,cpp}: the texture file. A pixel that no byte was read for is `none`.
pub mod Image
mod Tests
use kgl.Common.{
  take, length, ℕ, ◌*◌, ◌^◌, ◌%◌, Bool, true, false, List, [], Option, none, some, Result, ok, bind,
  if◌then◌else◌, ◌==◌,
}
use kgl.Loaders.Stream.{M, ◌>>=◌, pure, fresh, read_unsigned, read_magic, read_bytes}

abbrev pub magic_number : ℕ
magic_number = 0x7577755f6f776f0a

-- The constructor leaves `version` unset: `none`.
pub record NgtFileData : Type 0 where
  pub width : ℕ
  pub height : ℕ
  pub channels : ℕ
  pub element_size : ℕ
  pub version : Option ℕ
  pub bytes : List (Option ℕ)

-- `NgtFileData()`
unfoldable pub new_data : NgtFileData
new_data = record {
  width = 0;
  height = 0;
  channels = 0;
  element_size = 1;
  version = none;
  bytes = [];
}

-- The version stays.
unfoldable pub reset : NgtFileData → NgtFileData
reset d = record d { width = 0; height = 0; channels = 0; element_size = 1; bytes = [] }

-- `width * height * channels` in `unsigned`.
abbrev pub image_size : ℕ → ℕ → ℕ → ℕ
image_size width height channels = width * height % 2 ^ 32 * channels % 2 ^ 32

-- `case 1` of `load`
unfoldable pub read_v1 : NgtFileData → M NgtFileData
read_v1 d = do
  width ← read_unsigned
  height ← read_unsigned
  channels ← read_unsigned
  img_bytes ← read_bytes (image_size width height channels)
  pure (record d { width = width; height = height; channels = channels; bytes = img_bytes })

-- The `switch` on the version.
unfoldable pub read_case : ℕ → NgtFileData → M NgtFileData
read_case version d = if version == 1 then read_v1 d else pure d

unfoldable pub read_versioned : NgtFileData → M (Bool × NgtFileData)
read_versioned d = do
  version ← read_unsigned
  d' ← read_case version (record d { version = some version })
  pure (true, d')

unfoldable pub load_stream : NgtFileData → M (Bool × NgtFileData)
load_stream d = do
  magic ← read_magic
  if magic == magic_number then read_versioned d else pure (false, d)

-- `load( bytes, size )`
unfoldable pub load : List ℕ → NgtFileData → Result (Bool × NgtFileData)
load bytes d = bind (load_stream (reset d) (fresh bytes)) (λ (r, s). ok r)

-- `load( path )`: `none` is a path that cannot be opened. The size is narrowed
-- to `unsigned`.
unfoldable pub load_path : Option (List ℕ) → NgtFileData → Result (Bool × NgtFileData)
load_path none d = ok (false, d)
load_path (some bytes) d = load (take (length bytes % 2 ^ 32) bytes) d
