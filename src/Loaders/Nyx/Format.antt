-- ===== src/Loaders/Nyx/Format.antt =====
-- The layout of a .nyx file, written out independently of the code that reads it.
use kgl.Common.{List, ℕ, [], ◌∷◌, ◌++◌, length, All}
use kgl.Common.Words.{IsU32, to_bytes}
use kgl.Loaders.Stream.Codec.{put_string}
use kgl.Loaders.Stream.Loops.{put_all}
use kgl.Loaders.Stream.Buffers.{put_words}
use kgl.Loaders.Nyx.{magic_number, Uniform, Attribute, Shader, NyxFileData}
use kgl.Common.OrderedMap.{insert}
use mathlib.Core.Path.{◌≡◌}

pub record Contents : Type 0 where
  pub version : ℕ
  pub inputs : List Attribute
  pub outputs : List Attribute
  pub shaders : List Shader

unfoldable pub put_attribute : Attribute → List ℕ
put_attribute a =
    put_string a.name ++ (put_string a.type ++ (to_bytes 4 a.size ++ to_bytes 4 a.location))

unfoldable pub put_uniform : Uniform → List ℕ
put_uniform u =
    put_string u.name ++ (to_bytes 4 u.type ++ (to_bytes 4 u.binding ++ to_bytes 4 u.size))

unfoldable pub put_shader : Shader → List ℕ
put_shader s =
    to_bytes 4 (length s.spirv)
    ++ (put_words s.spirv
        ++ (to_bytes 4 s.stage
            ++ (to_bytes 4 (length s.uniforms) ++ put_all put_uniform s.uniforms)))

unfoldable pub put_body : Contents → List ℕ
put_body c =
    to_bytes 4 c.version
    ++ (to_bytes 4 (length c.shaders)
        ++ (to_bytes 4 (length c.inputs)
            ++ (to_bytes 4 (length c.outputs)
                ++ (put_all put_attribute c.inputs
                    ++ (put_all put_attribute c.outputs ++ put_all put_shader c.shaders)))))

unfoldable pub put_file : Contents → List ℕ
put_file c = to_bytes 8 magic_number ++ put_body c

pub record AttributeFits (a : Attribute) : Type 0 where
  pub name_fits : IsU32 (length a.name)
  pub type_fits : IsU32 (length a.type)
  pub size_fits : IsU32 a.size
  pub location_fits : IsU32 a.location

pub record UniformFits (u : Uniform) : Type 0 where
  pub name_fits : IsU32 (length u.name)
  pub type_fits : IsU32 u.type
  pub binding_fits : IsU32 u.binding
  pub size_fits : IsU32 u.size

pub record ShaderFits (s : Shader) : Type 0 where
  pub spirv_count : IsU32 (length s.spirv)
  pub spirv_fits : All IsU32 s.spirv
  pub stage_fits : IsU32 s.stage
  pub uniforms_count : IsU32 (length s.uniforms)
  pub uniforms_fit : All UniformFits s.uniforms
  pub no_name : s.name ≡ []

-- Every number fits its word of four bytes.
pub record ContentsFit (c : Contents) : Type 0 where
  pub version_fits : IsU32 c.version
  pub shaders_count : IsU32 (length c.shaders)
  pub inputs_count : IsU32 (length c.inputs)
  pub outputs_count : IsU32 (length c.outputs)
  pub inputs_fit : All AttributeFits c.inputs
  pub outputs_fit : All AttributeFits c.outputs
  pub shaders_fit : All ShaderFits c.shaders

-- The shaders of a file, put into a map in the order of the file.
unfoldable pub insert_all : List Shader → List (ℕ × Shader) → List (ℕ × Shader)
insert_all [] m = m
insert_all (s ∷ ss) m = insert_all ss (insert s.stage s m)

-- The object after its file has been read: attributes are added to those that it holds.
unfoldable pub with_contents : Contents → NyxFileData → NyxFileData
with_contents c d = record d {
  version = c.version;
  inputs = d.inputs ++ c.inputs;
  outputs = d.outputs ++ c.outputs;
  map = insert_all c.shaders [];
}
