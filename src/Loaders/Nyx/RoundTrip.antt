-- ===== src/Loaders/Nyx/RoundTrip.antt =====
-- The readers of a .nyx file on what its layout stores.
use kgl.Common.{ℕ, List, [], ◌∷◌, ◌++◌, ◌≡◌, refl, sym, ok, length, All, arith}
use mathlib.Core.Path.{subst}
use kgl.Common.OrderedMap.{insert}
use kgl.Loaders.Stream.{◌>>=◌, pure, read_magic, read_unsigned, read_string, read_words, read_onto}
use kgl.Loaders.Stream.Codec.{
  Decodes, Decodes-bind, Decodes-map, read_unsigned-Decodes, read_string-Decodes,
  read_magic-Decodes,
}
use kgl.Loaders.Stream.Loops.{put_all, read_onto-Decodes}
use kgl.Loaders.Stream.Buffers.{read_words-Decodes}
use kgl.Loaders.Nyx.{
  magic_number, Uniform, Attribute, Shader, NyxFileData, read_attribute, read_uniform, read_shader,
  read_shaders, read_body, load_stream, load,
}
use kgl.Loaders.Nyx.Format.{
  Contents, put_attribute, put_uniform, put_shader, put_body, put_file, AttributeFits, UniformFits,
  ShaderFits, ContentsFit, insert_all, with_contents,
}

read_attribute-Decodes :
    (a : Attribute) → AttributeFits a → Decodes read_attribute (put_attribute a) a
unfolding read_attribute put_attribute
read_attribute-Decodes a h =
    Decodes-bind read_string _ _ _ a.name a (read_string-Decodes a.name h.name_fits) (
      Decodes-bind read_string _ _ _ a.type a (read_string-Decodes a.type h.type_fits) (
        Decodes-bind read_unsigned _ _ _ a.size a (read_unsigned-Decodes a.size h.size_fits) (
          Decodes-map read_unsigned _ _ a.location
            (read_unsigned-Decodes a.location h.location_fits))))

read_uniform-Decodes : (u : Uniform) → UniformFits u → Decodes read_uniform (put_uniform u) u
unfolding read_uniform put_uniform
read_uniform-Decodes u h =
    Decodes-bind read_string _ _ _ u.name u (read_string-Decodes u.name h.name_fits) (
      Decodes-bind read_unsigned _ _ _ u.type u (read_unsigned-Decodes u.type h.type_fits) (
        Decodes-bind read_unsigned _ _ _ u.binding u
          (read_unsigned-Decodes u.binding h.binding_fits)
          (Decodes-map read_unsigned _ _ u.size (read_unsigned-Decodes u.size h.size_fits))))

read_shader-Decodes : (s : Shader) → ShaderFits s → Decodes read_shader (put_shader s) s
unfolding read_shader put_shader
read_shader-Decodes s h =
    let nameless : record s { name = [] } ≡ s = λ i. record s { name = sym h.no_name i } in
    subst (Decodes read_shader (put_shader s)) nameless (
      Decodes-bind read_unsigned _ _ _ (length s.spirv) _ (read_unsigned-Decodes _ h.spirv_count) (
        Decodes-bind (read_words (length s.spirv)) _ _ _ s.spirv _
          (read_words-Decodes s.spirv h.spirv_fits)
          (Decodes-bind read_unsigned _ _ _ s.stage _ (read_unsigned-Decodes _ h.stage_fits) (
            Decodes-bind read_unsigned _ _ _ (length s.uniforms) _
              (read_unsigned-Decodes _ h.uniforms_count)
              (Decodes-map (read_onto (length s.uniforms) read_uniform []) _ _ s.uniforms (
                read_onto-Decodes read_uniform put_uniform UniformFits read_uniform-Decodes
                  s.uniforms [] h.uniforms_fit))))))

read_shaders-Decodes :
    (ss : List Shader) (m : List (ℕ × Shader))
    → All ShaderFits ss
    → Decodes (read_shaders (length ss) m) (put_all put_shader ss) (insert_all ss m)
unfolding read_shaders insert_all
read_shaders-Decodes [] m p = λ rest. refl
read_shaders-Decodes (s ∷ ss) m p =
    Decodes-bind read_shader _ _ _ s _ (read_shader-Decodes s p.0)
      (read_shaders-Decodes ss (insert s.stage s m) p.1)

-- The tail of `read_body`, from the attributes on.
read_lists-Decodes :
    (c : Contents) (d : NyxFileData)
    → ContentsFit c
    → Decodes
        (do
          inputs ← read_onto (length c.inputs) read_attribute d.inputs
          outputs ← read_onto (length c.outputs) read_attribute d.outputs
          map ← read_shaders (length c.shaders) []
          pure (record d { version = c.version; inputs = inputs; outputs = outputs; map = map }))
        (put_all put_attribute c.inputs
          ++ (put_all put_attribute c.outputs ++ put_all put_shader c.shaders))
        (with_contents c d)
unfolding with_contents
read_lists-Decodes c d h =
    let attributes =
      read_onto-Decodes read_attribute put_attribute AttributeFits read_attribute-Decodes in
    Decodes-bind (read_onto (length c.inputs) read_attribute d.inputs) _ _ _ _ _
      (attributes c.inputs d.inputs h.inputs_fit)
      (Decodes-bind (read_onto (length c.outputs) read_attribute d.outputs) _ _ _ _ _
        (attributes c.outputs d.outputs h.outputs_fit)
        (Decodes-map (read_shaders (length c.shaders) []) _ _ _
          (read_shaders-Decodes c.shaders [] h.shaders_fit)))

read_body-Decodes :
    (c : Contents) (d : NyxFileData)
    → ContentsFit c
    → Decodes (read_body (record d { map = [] })) (put_body c) (with_contents c d)
unfolding read_body put_body with_contents
read_body-Decodes c d h =
    Decodes-bind read_unsigned _ _ _ c.version _ (read_unsigned-Decodes _ h.version_fits) (
      Decodes-bind read_unsigned _ _ _ (length c.shaders) _
        (read_unsigned-Decodes _ h.shaders_count)
        (Decodes-bind read_unsigned _ _ _ (length c.inputs) _
          (read_unsigned-Decodes _ h.inputs_count)
          (Decodes-bind read_unsigned _ _ _ (length c.outputs) _
            (read_unsigned-Decodes _ h.outputs_count) (read_lists-Decodes c d h))))

load_stream-Decodes :
    (c : Contents) (d : NyxFileData)
    → ContentsFit c
    → Decodes (load_stream (record d { map = [] })) (put_file c) (with_contents c d)
unfolding load_stream put_file
load_stream-Decodes c d h =
    Decodes-bind read_magic _ _ _ magic_number _ (read_magic-Decodes magic_number (omega arith))
      (read_body-Decodes c d h)

-- Loading a file in the layout, whatever follows it, gives the object the file's version, adds
-- the file's attributes behind those it held, and puts the shaders into the emptied map.
pub load-put_file :
    (c : Contents) (rest : List ℕ) (d : NyxFileData)
    → ContentsFit c
    → load (put_file c ++ rest) d ≡ ok (with_contents c d)
unfolding load
load-put_file c rest d h = rw (load_stream-Decodes c d h rest)
