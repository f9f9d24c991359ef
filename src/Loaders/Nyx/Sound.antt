-- ===== src/Loaders/Nyx/Sound.antt =====
-- Whatever the readers of a .nyx file return was stored in the layout.
use kgl.Common.{ℕ, zero, suc, List, [], ◌∷◌, ◌++◌, ◌≡◌, refl, ap, length, All, append-nil}
use kgl.Common.OrderedMap.{insert}
use kgl.Loaders.Stream.{read_unsigned, read_string, read_words, read_onto}
use kgl.Loaders.Stream.Consumes.{Consumes, Consumes-bind, Consumes-mono, Consumes-pure}
use kgl.Loaders.Stream.Words.{IsWord, IsString, read_unsigned-Consumes, read_string-Consumes}
use kgl.Loaders.Stream.Loops.{put_all, read_onto-Consumes, Listed, Listed-from_nil}
use kgl.Loaders.Stream.Buffers.{IsWords, read_words-Consumes}
use kgl.Loaders.Nyx.{
  Uniform, Attribute, Shader, NyxFileData, read_attribute, read_uniform, read_shader, read_shaders,
  read_body,
}
use kgl.Loaders.Nyx.Format.{
  Contents, put_attribute, put_uniform, put_shader, put_body, AttributeFits, UniformFits,
  ShaderFits, ContentsFit, insert_all, with_contents,
}

abbrev IsAttribute : Attribute → List ℕ → Type 0
IsAttribute a u = (u ≡ put_attribute a) × AttributeFits a

read_attribute-Consumes : Consumes read_attribute IsAttribute
unfolding read_attribute put_attribute
read_attribute-Consumes =
    Consumes-bind read_string _ IsString IsAttribute read_string-Consumes λ name.
      Consumes-bind read_string _ IsString _ read_string-Consumes λ type.
        Consumes-bind read_unsigned _ (IsWord 4) _ read_unsigned-Consumes λ size.
          Consumes-bind read_unsigned _ (IsWord 4) _ read_unsigned-Consumes λ location.
            Consumes-pure _ _ λ u₄ h₄ u₃ h₃ u₂ h₂ u₁ h₁. (
              rw (h₁.0, h₂.0, h₃.0, h₄.0, append-nil),
              record { name_fits = h₁.1; type_fits = h₂.1; size_fits = h₃.1; location_fits = h₄.1 },
            )

abbrev IsUniform : Uniform → List ℕ → Type 0
IsUniform a u = (u ≡ put_uniform a) × UniformFits a

read_uniform-Consumes : Consumes read_uniform IsUniform
unfolding read_uniform put_uniform
read_uniform-Consumes = Consumes-bind read_string _ IsString IsUniform read_string-Consumes λ name.
    Consumes-bind read_unsigned _ (IsWord 4) _ read_unsigned-Consumes λ type.
      Consumes-bind read_unsigned _ (IsWord 4) _ read_unsigned-Consumes λ binding.
        Consumes-bind read_unsigned _ (IsWord 4) _ read_unsigned-Consumes λ size.
          Consumes-pure _ _ λ u₄ h₄ u₃ h₃ u₂ h₂ u₁ h₁. (
            rw (h₁.0, h₂.0, h₃.0, h₄.0, append-nil),
            record { name_fits = h₁.1; type_fits = h₂.1; binding_fits = h₃.1; size_fits = h₄.1 },
          )

abbrev IsShader : Shader → List ℕ → Type 0
IsShader a u = (u ≡ put_shader a) × ShaderFits a

-- The parts of a shader as the reader meets them.
IsShader-parts :
    (n stage k : ℕ) (spirv : List ℕ) (uniforms : List Uniform) (u₁ u₂ u₃ u₄ u₅ : List ℕ)
    → IsWord 4 n u₁
    → IsWords n spirv u₂
    → IsWord 4 stage u₃
    → IsWord 4 k u₄
    → Listed read_uniform put_uniform UniformFits k [] uniforms u₅
    → IsShader
        (record { uniforms = uniforms; spirv = spirv; stage = stage; name = [] })
        (u₁ ++ (u₂ ++ (u₃ ++ (u₄ ++ (u₅ ++ [])))))
unfolding put_shader
IsShader-parts n stage k spirv uniforms u₁ u₂ u₃ u₄ u₅ h₁ h₂ h₃ h₄ h₅ =
    let (encoded, count, each) =
      Listed-from_nil read_uniform put_uniform UniformFits k uniforms u₅ h₅ in
    (
      rw (h₁.0, h₂.0, h₃.0, h₄.0, encoded, append-nil, h₂.1, count),
      record {
        spirv_count = rw h₂.1 h₁.1;
        spirv_fits = h₂.2;
        stage_fits = h₃.1;
        uniforms_count = rw count h₄.1;
        uniforms_fit = each;
        no_name = refl;
      },
    )

read_shader-Consumes : Consumes read_shader IsShader
unfolding read_shader
read_shader-Consumes = Consumes-bind read_unsigned _ (IsWord 4) IsShader read_unsigned-Consumes λ n.
    Consumes-bind (read_words n) _ (IsWords n) _ (read_words-Consumes n) λ spirv.
      Consumes-bind read_unsigned _ (IsWord 4) _ read_unsigned-Consumes λ stage.
        Consumes-bind read_unsigned _ (IsWord 4) _ read_unsigned-Consumes λ k.
          Consumes-bind (read_onto k read_uniform []) _
            (Listed read_uniform put_uniform UniformFits k []) _
            (read_onto-Consumes read_uniform put_uniform UniformFits read_uniform-Consumes k [])
            λ uniforms. Consumes-pure _ _ λ u₅ h₅ u₄ h₄ u₃ h₃ u₂ h₂ u₁ h₁.
              IsShader-parts n stage k spirv uniforms u₁ u₂ u₃ u₄ u₅ h₁ h₂ h₃ h₄ h₅

-- n shaders were read and inserted into `m`.
record ShadersRead (n : ℕ) (m m' : List (ℕ × Shader)) (u : List ℕ) : Type 0 where
  items : List Shader
  inserted : m' ≡ insert_all items m
  count : length items ≡ n
  encoded : u ≡ put_all put_shader items
  each : All ShaderFits items

ShadersRead-cons :
    (n : ℕ) (s : Shader) (m m' : List (ℕ × Shader)) (u v : List ℕ)
    → IsShader s u
    → ShadersRead n (insert s.stage s m) m' v
    → ShadersRead (suc n) m m' (u ++ v)
unfolding insert_all
ShadersRead-cons n s m m' u v h r = record {
  items = s ∷ r.items;
  inserted = r.inserted;
  count = ap suc r.count;
  encoded = rw (h.0, r.encoded);
  each = (h.1, r.each);
}

read_shaders-Consumes :
    (n : ℕ) (m : List (ℕ × Shader)) → Consumes (read_shaders n m) (ShadersRead n m)
unfolding read_shaders insert_all
read_shaders-Consumes zero m =
    Consumes-pure m (ShadersRead 0 m)
      (record { items = []; inserted = refl; count = refl; encoded = refl; each = tt })
read_shaders-Consumes (suc n) m =
    Consumes-bind read_shader _ IsShader (ShadersRead (suc n) m) read_shader-Consumes λ s.
      Consumes-mono _ _ _ (read_shaders-Consumes n (insert s.stage s m))
        λ m' v r u h. ShadersRead-cons n s m m' u v h r

-- The object that `read_body` returns is that of some contents, stored in the bytes it took.
pub record BodyRead (d d' : NyxFileData) (u : List ℕ) : Type 0 where
  pub contents : Contents
  pub fits : ContentsFit contents
  pub encoded : u ≡ put_body contents
  pub loaded : d' ≡ with_contents contents d

module _ (d : NyxFileData) (version shaders inputs outputs : ℕ) where
  -- The lists of the contents, from the three loops.
  contents_of :
      {ins outs : List Attribute} {m : List (ℕ × Shader)} {u v w : List ℕ}
      → Listed read_attribute put_attribute AttributeFits inputs d.inputs ins u
      → Listed read_attribute put_attribute AttributeFits outputs d.outputs outs v
      → ShadersRead shaders [] m w
      → Contents
  contents_of ins outs m = record {
    version = version;
    inputs = ins.items;
    outputs = outs.items;
    shaders = m.items;
  }

  BodyRead-parts :
      (ins outs : List Attribute) (m : List (ℕ × Shader)) (u₁ u₂ u₃ u₄ u₅ u₆ u₇ : List ℕ)
      → IsWord 4 version u₁
      → IsWord 4 shaders u₂
      → IsWord 4 inputs u₃
      → IsWord 4 outputs u₄
      → Listed read_attribute put_attribute AttributeFits inputs d.inputs ins u₅
      → Listed read_attribute put_attribute AttributeFits outputs d.outputs outs u₆
      → ShadersRead shaders [] m u₇
      → BodyRead d
          (record d { version = version; inputs = ins; outputs = outs; map = m })
          (u₁ ++ (u₂ ++ (u₃ ++ (u₄ ++ (u₅ ++ (u₆ ++ (u₇ ++ [])))))))
  unfolding put_body with_contents contents_of
  BodyRead-parts ins outs m u₁ u₂ u₃ u₄ u₅ u₆ u₇ h₁ h₂ h₃ h₄ h₅ h₆ h₇ = record {
    contents = contents_of h₅ h₆ h₇;
    fits = record {
      version_fits = h₁.1;
      shaders_count = rw h₇.count h₂.1;
      inputs_count = rw h₅.count h₃.1;
      outputs_count = rw h₆.count h₄.1;
      inputs_fit = h₅.each;
      outputs_fit = h₆.each;
      shaders_fit = h₇.each;
    };
    encoded = rw (
      h₁.0, h₂.0, h₃.0, h₄.0, h₅.encoded, h₆.encoded, h₇.encoded, append-nil, h₇.count, h₅.count,
      h₆.count,
    );
    loaded = λ i. record d {
      version = version;
      inputs = h₅.is_append i;
      outputs = h₆.is_append i;
      map = h₇.inserted i;
    };
  }

-- `d` with its map emptied, as `load` hands it to the readers.
abbrev pub cleared : NyxFileData → NyxFileData
cleared d = record d { map = [] }

read_attributes-Consumes :
    (n : ℕ) (out : List Attribute)
    → Consumes
        (read_onto n read_attribute out)
        (Listed read_attribute put_attribute AttributeFits n out)
read_attributes-Consumes =
    read_onto-Consumes read_attribute put_attribute AttributeFits read_attribute-Consumes

pub read_body-Consumes : (d : NyxFileData) → Consumes (read_body (cleared d)) (BodyRead d)
unfolding read_body
read_body-Consumes d =
    Consumes-bind read_unsigned _ (IsWord 4) (BodyRead d) read_unsigned-Consumes λ version.
      Consumes-bind read_unsigned _ (IsWord 4) _ read_unsigned-Consumes λ shaders.
        Consumes-bind read_unsigned _ (IsWord 4) _ read_unsigned-Consumes λ inputs.
          Consumes-bind read_unsigned _ (IsWord 4) _ read_unsigned-Consumes λ outputs.
            Consumes-bind (read_onto inputs read_attribute d.inputs) _ _ _
              (read_attributes-Consumes inputs d.inputs)
              λ ins.
                Consumes-bind (read_onto outputs read_attribute d.outputs) _ _ _
                  (read_attributes-Consumes outputs d.outputs)
                  λ outs.
                    Consumes-bind (read_shaders shaders []) _ _ _ (read_shaders-Consumes shaders [])
                      λ m. Consumes-pure _ _ λ u₇ h₇ u₆ h₆ u₅ h₅ u₄ h₄ u₃ h₃ u₂ h₂ u₁ h₁.
                        BodyRead-parts d version shaders inputs outputs ins outs m u₁ u₂ u₃ u₄ u₅ u₆
                          u₇ h₁ h₂ h₃ h₄ h₅ h₆ h₇
