-- ===== src/Loaders/Nyx/Strict.antt =====
-- The readers of a .nyx file return only from a stream that has not failed: each of them ends in a
-- word that would be indeterminate otherwise, or in a loop of such readers after one.
use kgl.Common.{ℕ, zero, suc, List, []}
use kgl.Common.OrderedMap.{insert}
use kgl.Loaders.Stream.{read_unsigned, read_string, read_words, read_onto}
use kgl.Loaders.Stream.Consumes.{
  IsStrict, IsStrict-bind, IsStrict-then, KeepsLive, KeepsLive-bind, KeepsLive-pure,
  IsStrict-KeepsLive,
}
use kgl.Loaders.Stream.Words.{read_unsigned-IsStrict}
use kgl.Loaders.Stream.Loops.{read_onto-KeepsLive}
use kgl.Loaders.Nyx.{
  Attribute, Shader, NyxFileData, read_attribute, read_uniform, read_shader, read_shaders,
  read_body,
}

read_attribute-IsStrict : IsStrict read_attribute
unfolding read_attribute
read_attribute-IsStrict = IsStrict-bind read_string _ λ name. IsStrict-bind read_string _ λ type.
    IsStrict-bind read_unsigned _
      λ size. IsStrict-then read_unsigned _ read_unsigned-IsStrict λ location. KeepsLive-pure _

read_uniform-IsStrict : IsStrict read_uniform
unfolding read_uniform
read_uniform-IsStrict = IsStrict-bind read_string _ λ name. IsStrict-bind read_unsigned _ λ type.
    IsStrict-bind read_unsigned _
      λ binding. IsStrict-then read_unsigned _ read_unsigned-IsStrict λ size. KeepsLive-pure _

read_shader-IsStrict : IsStrict read_shader
unfolding read_shader
read_shader-IsStrict = IsStrict-bind read_unsigned _ λ n. IsStrict-bind (read_words n) _ λ spirv.
    IsStrict-bind read_unsigned _ λ stage. IsStrict-then read_unsigned _ read_unsigned-IsStrict λ k.
      KeepsLive-bind (read_onto k read_uniform []) _
        (read_onto-KeepsLive read_uniform (IsStrict-KeepsLive read_uniform read_uniform-IsStrict) k
          [])
        λ uniforms. KeepsLive-pure _

read_shaders-KeepsLive : (n : ℕ) (m : List (ℕ × Shader)) → KeepsLive (read_shaders n m)
unfolding read_shaders
read_shaders-KeepsLive zero m = KeepsLive-pure m
read_shaders-KeepsLive (suc n) m =
    KeepsLive-bind read_shader _ (IsStrict-KeepsLive read_shader read_shader-IsStrict)
      λ s. read_shaders-KeepsLive n (insert s.stage s m)

read_attributes-KeepsLive :
    (n : ℕ) (out : List Attribute) → KeepsLive (read_onto n read_attribute out)
read_attributes-KeepsLive =
    read_onto-KeepsLive read_attribute (IsStrict-KeepsLive read_attribute read_attribute-IsStrict)

pub read_body-IsStrict : (d : NyxFileData) → IsStrict (read_body d)
unfolding read_body
read_body-IsStrict d = IsStrict-bind read_unsigned _ λ version.
    IsStrict-bind read_unsigned _ λ shaders. IsStrict-bind read_unsigned _ λ inputs.
      IsStrict-then read_unsigned _ read_unsigned-IsStrict λ outputs.
        KeepsLive-bind (read_onto inputs read_attribute d.inputs) _
          (read_attributes-KeepsLive inputs d.inputs)
          λ ins.
            KeepsLive-bind (read_onto outputs read_attribute d.outputs) _
              (read_attributes-KeepsLive outputs d.outputs)
              λ outs.
                KeepsLive-bind (read_shaders shaders d.map) _ (read_shaders-KeepsLive shaders d.map)
                  λ m. KeepsLive-pure _
