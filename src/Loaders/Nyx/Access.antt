-- ===== src/Loaders/Nyx/Access.antt =====
-- The queries of `NyxFile` and the iteration over its shaders. An iterator is its place among the
-- entries of the map; at the end it has no shader, and reading through it is the fault `dangling`.
use kgl.Common.{
  ℕ, ◌+◌, ◌-◌, ◌^◌, ◌%◌, ◌≡◌, Bool, not, List, [], Option, ◌==◌, length, get_elem?, Result, ok,
  fault, dangling, bind, index_or, index_or_lem, from_option,
}
use kgl.Loaders.Nyx.{Uniform, Shader, NyxFileData}

pub record ShaderIterator : Type 0 where
  pub map : List (ℕ × Shader)
  pub it : ℕ

unfoldable pub begin : NyxFileData → ShaderIterator
begin d = record { map = d.map; it = 0 }

unfoldable pub end : NyxFileData → ShaderIterator
end d = record { map = d.map; it = length d.map }

-- `operator++`
unfoldable pub next : ShaderIterator → ShaderIterator
next i = record i { it = i.it + 1 }

-- `operator!=`, of iterators over one file
unfoldable pub differs : ShaderIterator → ShaderIterator → Bool
differs a b = not (a.it == b.it)

-- `*data().it`
unfoldable pub entry : ShaderIterator → Result (ℕ × Shader)
entry i = from_option ok (fault dangling) (get_elem? i.map i.it)

abbrev pub uint_max : ℕ
uint_max = 2 ^ 32 - 1

unfoldable pub stage : ShaderIterator → Result ℕ
stage i = bind (entry i) (λ (k, s). ok k)

-- `size_t` is cut to `unsigned` on return.
unfoldable pub spirv_size : ShaderIterator → Result ℕ
spirv_size i = bind (entry i) (λ (k, s). ok (length s.spirv % 2 ^ 32))

unfoldable pub num_uniforms : ShaderIterator → Result ℕ
num_uniforms i = bind (entry i) (λ (k, s). ok (length s.uniforms % 2 ^ 32))

unfoldable pub spirv : ShaderIterator → Result (List ℕ)
spirv i = bind (entry i) (λ (k, s). ok s.spirv)

unfoldable pub uniform_type : ShaderIterator → ℕ → Result ℕ
uniform_type i id = bind (entry i) (λ (k, s). index_or s.uniforms id (λ u. u.type) 0)

unfoldable pub uniform_size : ShaderIterator → ℕ → Result ℕ
uniform_size i id = bind (entry i) (λ (k, s). index_or s.uniforms id (λ u. u.size) 0)

unfoldable pub uniform_binding : ShaderIterator → ℕ → Result ℕ
uniform_binding i id = bind (entry i) (λ (k, s). index_or s.uniforms id (λ u. u.binding) uint_max)

unfoldable pub uniform_name : ShaderIterator → ℕ → Result (List ℕ)
uniform_name i id = bind (entry i) (λ (k, s). index_or s.uniforms id (λ u. u.name) [])

unfoldable pub input_name : NyxFileData → ℕ → Result (List ℕ)
input_name d index = index_or d.inputs index (λ a. a.name) []

unfoldable pub input_location : NyxFileData → ℕ → Result ℕ
input_location d index = index_or d.inputs index (λ a. a.location) 0

unfoldable pub input_byte_size : NyxFileData → ℕ → Result ℕ
input_byte_size d index = index_or d.inputs index (λ a. a.size) 0

unfoldable pub input_type : NyxFileData → ℕ → Result (List ℕ)
input_type d index = index_or d.inputs index (λ a. a.type) []

unfoldable pub output_name : NyxFileData → ℕ → Result (List ℕ)
output_name d index = index_or d.outputs index (λ a. a.name) []

unfoldable pub output_location : NyxFileData → ℕ → Result ℕ
output_location d index = index_or d.outputs index (λ a. a.location) 0

unfoldable pub output_byte_size : NyxFileData → ℕ → Result ℕ
output_byte_size d index = index_or d.outputs index (λ a. a.size) 0

unfoldable pub output_type : NyxFileData → ℕ → Result (List ℕ)
output_type d index = index_or d.outputs index (λ a. a.type) []

unfoldable pub num_inputs : NyxFileData → ℕ
num_inputs d = length d.inputs % 2 ^ 32

unfoldable pub num_outputs : NyxFileData → ℕ
num_outputs d = length d.outputs % 2 ^ 32

unfoldable pub size : NyxFileData → ℕ
size d = length d.map % 2 ^ 32

-- The four uniforms queries at once, on an iterator that stands at a shader.
pub record UniformAt (i : ShaderIterator) (id : ℕ) (o : Option Uniform) : Type 0 where
  pub type_is : uniform_type i id ≡ ok (from_option (λ (u : Uniform). u.type) 0 o)
  pub size_is : uniform_size i id ≡ ok (from_option (λ (u : Uniform). u.size) 0 o)
  pub binding_is : uniform_binding i id ≡ ok (from_option (λ (u : Uniform). u.binding) uint_max o)
  pub name_is : uniform_name i id ≡ ok (from_option (λ (u : Uniform). u.name) [] o)

-- At a shader the queries for a uniform answer for every index, with the fields of the uniform
-- there or the defaults when there is none, and never read outside the vector.
pub uniform_queries :
    (i : ShaderIterator) (k : ℕ) (s : Shader) (id : ℕ)
    → entry i ≡ ok (k, s)
    → UniformAt i id (get_elem? s.uniforms id)
unfolding uniform_type uniform_size uniform_binding uniform_name
uniform_queries i k s id h = record {
  type_is = rw (h, index_or_lem s.uniforms id);
  size_is = rw (h, index_or_lem s.uniforms id);
  binding_is = rw (h, index_or_lem s.uniforms id);
  name_is = rw (h, index_or_lem s.uniforms id);
}
