-- ===== src/Loaders/Nyx/Tests.antt =====
-- Runs of the .nyx loader, and its theorems at a small file: one input, no output, and a vertex
-- and a fragment shader, of which the second has a uniform.
use kgl.Common.{
  [], ◌∷◌, ◌++◌, ◌≡◌, ◌↔◌, ◌⊎◌, refl, some, ok, fault, indeterminate, bind, arith, All,
}
use kgl.Common.OrderedMap.{lookup, insert, IsSorted}
use kgl.Common.Words.{IsByte, to_bytes, of_bytes}
use kgl.Loaders.Stream.{
  read, read_word, read_unsigned, read_magic, read_string, read_words, read_bytes, words_of, filled,
  read_onto,
}
use kgl.Loaders.Stream.Codec.{put_string}
use kgl.Loaders.Nyx.{
  Uniform, Attribute, Shader, NyxFileData, new_file, read_attribute, read_uniform, read_shader,
  read_shaders, read_body, load_stream, load,
}
use kgl.Loaders.Nyx.Format.{
  Contents, put_attribute, put_uniform, put_shader, put_body, put_file, ContentsFit, with_contents,
}
use kgl.Loaders.Nyx.Load.{IsFile, IsForeign, load-eq-ok_iff, load_twice}
use kgl.Loaders.Nyx.RoundTrip.{load-put_file}
use kgl.Loaders.Nyx.Stages.{load_stages, KeysMatch}

abbrev position : Attribute
position = record { name = b'p' ∷ []; type = b'v' ∷ b'4' ∷ []; size = 16; location = 0 }

abbrev camera : Uniform
camera = record { binding = 2; size = 64; type = 1; name = b'c' ∷ [] }

abbrev vertex : Shader
vertex = record { uniforms = []; spirv = 0x07230203 ∷ 1 ∷ []; stage = 0; name = [] }

abbrev fragment : Shader
fragment = record { uniforms = camera ∷ []; spirv = 5 ∷ []; stage = 1; name = [] }

abbrev sample : Contents
sample = record {
  version = 1;
  inputs = position ∷ [];
  outputs = [];
  shaders = fragment ∷ vertex ∷ [];
}

abbrev loaded : NyxFileData
loaded = record {
  inputs = position ∷ [];
  outputs = [];
  include_directory = [];
  map = (0, vertex) ∷ (1, fragment) ∷ [];
  version = 1;
}

sample_fits : ContentsFit sample
sample_fits = ground arith

load-sample : load (put_file sample) new_file ≡ ok loaded
unfolding load load_stream read_body read_shaders read_shader read_attribute read_uniform read_onto
    read_words words_of filled read_bytes read_string read_magic read_unsigned read_word read
    of_bytes put_file put_body put_shader put_uniform put_attribute put_string to_bytes insert
load-sample = refl

load_short : load (b'a' ∷ []) new_file ≡ fault indeterminate
unfolding load load_stream read_magic read_word read of_bytes
load_short = refl

load_twice_example :
    bind (load (put_file sample ++ []) new_file) (load (put_file sample ++ []))
    ≡ ok
        (record (with_contents sample new_file) { inputs = position ∷ position ∷ []; outputs = [] })
load_twice_example = load_twice sample [] new_file sample_fits

sample-IsByte : All IsByte (put_file sample)
unfolding put_file put_body put_shader put_uniform put_attribute put_string to_bytes
sample-IsByte = omega arith

load-eq-ok_iff_example :
    (load (put_file sample) new_file ≡ ok loaded)
    ↔ (IsFile new_file (put_file sample) loaded ⊎ IsForeign new_file (put_file sample) loaded)
load-eq-ok_iff_example = load-eq-ok_iff (put_file sample) new_file loaded sample-IsByte

load_stages_example :
    IsSorted (with_contents sample new_file).map
    × KeysMatch (with_contents sample new_file).map
    × (lookup 1 (with_contents sample new_file).map ≡ some fragment)
load_stages_example =
    load_stages sample (7 ∷ []) new_file (with_contents sample new_file) 1 sample_fits
      (load-put_file sample (7 ∷ []) new_file sample_fits)
