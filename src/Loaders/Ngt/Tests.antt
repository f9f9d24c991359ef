-- ===== src/Loaders/Ngt/Tests.antt =====
-- Runs of the texture loader, and its theorems at a file of two by one pixels.
use kgl.Common.{◌≡◌, refl, [], ◌∷◌, ◌++◌, some, none, ok, true, arith}
use kgl.Common.Words.{to_bytes, of_bytes}
use kgl.Loaders.Stream.{read, read_word, read_unsigned, read_magic, read_bytes}
use kgl.Loaders.Ngt.{
  NgtFileData, new_data, reset, read_v1, read_case, read_versioned, load_stream, load,
}
use kgl.Loaders.Ngt.Image.{put_image, load-put_image}

-- Three of the four bytes of the image are there.
abbrev short_image : NgtFileData
short_image = record {
  width = 2;
  height = 1;
  channels = 2;
  element_size = 1;
  version = some 1;
  bytes = some 10 ∷ some 20 ∷ some 30 ∷ none ∷ [];
}

load_short : load (put_image 2 1 2 (10 ∷ 20 ∷ 30 ∷ [])) new_data ≡ ok (true, short_image)
unfolding load load_stream read_versioned read_case read_v1 reset new_data read_magic read_unsigned
    read_word read_bytes read of_bytes put_image to_bytes
load_short = refl

-- A file of a version that is not known is loaded as an empty image.
load_version_2 :
    load (to_bytes 8 0x7577755f6f776f0a ++ to_bytes 4 2) new_data
    ≡ ok (true, record new_data { version = some 2 })
unfolding load load_stream read_versioned read_case read_v1 reset new_data read_magic read_unsigned
    read_word read of_bytes to_bytes
load_version_2 = refl

load-put_image_example :
    load (put_image 2 1 2 (10 ∷ 20 ∷ 30 ∷ [])) new_data ≡ ok (true, short_image)
load-put_image_example =
    load-put_image 2 1 2 (10 ∷ 20 ∷ 30 ∷ []) new_data (omega arith) (omega arith) (omega arith)
