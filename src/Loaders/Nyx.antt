-- ===== src/Loaders/Nyx.antt =====
-- src/loaders/NyxFile.{h,cpp}: the .nyx file of compiled shaders. A `std::string` is its list of
-- bytes, and an enumeration over `unsigned` is its number, since the code casts any number to it.
pub mod Access
pub mod Format
pub mod Load
pub mod RoundTrip
pub mod Sound
pub mod Strict
mod Tests
pub mod Stages
use kgl.Common.{
  take, length, ◌%◌, ◌^◌, ℕ, zero, suc, List, [], ◌∷◌, Result, ok, bind, Option, none, some,
  if◌then◌else◌, ◌==◌,
}
use kgl.Common.OrderedMap.{insert}
use kgl.Loaders.Stream.{
  M, ◌>>=◌, pure, fresh, read_unsigned, read_magic, read_string, read_words, read_onto,
}

abbrev pub magic_number : ℕ
magic_number = 0x555755200d0a

pub record Uniform : Type 0 where
  pub binding : ℕ
  pub size : ℕ
  pub type : ℕ
  pub name : List ℕ

pub record Attribute : Type 0 where
  pub name : List ℕ
  pub type : List ℕ
  pub size : ℕ
  pub location : ℕ

-- `name` is never set by the code.
pub record Shader : Type 0 where
  pub uniforms : List Uniform
  pub spirv : List ℕ
  pub stage : ℕ
  pub name : List ℕ

pub record NyxFileData : Type 0 where
  pub inputs : List Attribute
  pub outputs : List Attribute
  pub include_directory : List ℕ
  pub map : List (ℕ × Shader)
  pub version : ℕ

-- `NyxFile()` value-initialises its data.
abbrev pub new_file : NyxFileData
new_file = record { inputs = []; outputs = []; include_directory = []; map = []; version = 0 }

unfoldable pub read_attribute : M Attribute
read_attribute = do
  name ← read_string
  type ← read_string
  size ← read_unsigned
  location ← read_unsigned
  pure (record { name = name; type = type; size = size; location = location })

unfoldable pub read_uniform : M Uniform
read_uniform = do
  name ← read_string
  uniform_type ← read_unsigned
  uniform_binding ← read_unsigned
  uniform_size ← read_unsigned
  pure (record { name = name; type = uniform_type; binding = uniform_binding; size = uniform_size })

-- The body of the loop over the shaders, up to the insertion into the map.
unfoldable pub read_shader : M Shader
read_shader = do
  spirv_size ← read_unsigned
  spirv ← read_words spirv_size
  stage ← read_unsigned
  num_uniforms ← read_unsigned
  uniforms ← read_onto num_uniforms read_uniform []
  pure (record { uniforms = uniforms; spirv = spirv; stage = stage; name = [] })

-- The loop over the shaders, with `data().map.insert( { shader.stage, shader } )` at its end.
unfoldable pub read_shaders : ℕ → List (ℕ × Shader) → M (List (ℕ × Shader))
read_shaders zero m = pure m
read_shaders (suc n) m = do shader ← read_shader; read_shaders n (insert shader.stage shader m)

-- What is read after the magic number. The attributes are pushed onto those that the object holds.
unfoldable pub read_body : NyxFileData → M NyxFileData
read_body d = do
  version ← read_unsigned
  num_shaders ← read_unsigned
  num_inputs ← read_unsigned
  num_outputs ← read_unsigned
  inputs ← read_onto num_inputs read_attribute d.inputs
  outputs ← read_onto num_outputs read_attribute d.outputs
  map ← read_shaders num_shaders d.map
  pure (record d { version = version; inputs = inputs; outputs = outputs; map = map })

unfoldable pub load_stream : NyxFileData → M NyxFileData
load_stream d = do magic ← read_magic; if magic == magic_number then read_body d else pure d

-- `load( bytes, size )`: the map is cleared first, whatever the bytes are.
unfoldable pub load : List ℕ → NyxFileData → Result NyxFileData
load bytes d = bind (load_stream (record d { map = [] }) (fresh bytes)) (λ (d', s). ok d')

-- `load( path )`: `none` is a path that cannot be opened. The size is narrowed
-- to `unsigned`.
unfoldable pub load_path : Option (List ℕ) → NyxFileData → Result NyxFileData
load_path none d = ok d
load_path (some bytes) d = load (take (length bytes % 2 ^ 32) bytes) d
