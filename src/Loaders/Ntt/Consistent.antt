-- ===== src/Loaders/Ntt/Consistent.antt =====
-- The two maps of a font object, whatever file it has read.
use kgl.Common.{
  ℕ, zero, suc, ◌≡◌, Bool, true, false, List, Option, none, some, ok, bind-eq-ok, ok_value, ◌==◌,
  Bool-cases, inl, inr, length,
}
use mathlib.Core.Path.{subst}
use kgl.Common.OrderedMap.{lookup, assign, lookup-assign, IsSorted, assign-IsSorted}
use kgl.Loaders.Stream.{pure, fresh, read_unsigned, read_character, read_magic, read_bytes}
use kgl.Loaders.Stream.Yields.{Yields, Yields-bind, Yields-then, Yields-pure, read_bytes-Yields}
use kgl.Loaders.Ntt.{
  magic_number, Character, Buffer, NttFileData, read_integer, read_glyph, read_glyphs,
  read_characters_v1, deallocate, reset, read_case, read_versioned, load_stream, load,
}

-- What the two maps say of one character: both nothing, or its data and a buffer of the size noted.
pub data Agree : Option Character → Option Buffer → Type 0 where
  absent : Agree none none
  present : (c : Character) (b : Buffer) → length b.bytes ≡ b.size → Agree (some c) (some b)

pub record IsConsistent (d : NttFileData) : Type 0 where
  pub characters_sorted : IsSorted d.characters
  pub buffers_sorted : IsSorted d.character_buffers
  pub agree : (ch : ℕ) → Agree (lookup ch d.characters) (lookup ch d.character_buffers)

Agree-assign :
    (d : NttFileData) (ch : ℕ) (c : Character) (b : Buffer)
    → IsConsistent d
    → length b.bytes ≡ b.size
    → (i : ℕ)
    → Agree (lookup i (assign ch c d.characters)) (lookup i (assign ch b d.character_buffers))
Agree-assign d ch c b h size i =
    rw (lookup-assign i ch c d.characters, lookup-assign i ch b d.character_buffers)
      (elim (Bool-cases (ch == i)) [
        | inl same ↦ rw same (present c b size)
        | inr other ↦ rw other (h.agree i)
      ])

assign-IsConsistent :
    (d : NttFileData) (ch : ℕ) (c : Character) (b : Buffer)
    → IsConsistent d
    → length b.bytes ≡ b.size
    → IsConsistent (record d {
      characters = assign ch c d.characters;
      character_buffers = assign ch b d.character_buffers;
    })
assign-IsConsistent d ch c b h size = record {
  characters_sorted = assign-IsSorted ch c d.characters h.characters_sorted;
  buffers_sorted = assign-IsSorted ch b d.character_buffers h.buffers_sorted;
  agree = Agree-assign d ch c b h size;
}

read_glyph-IsConsistent : (d : NttFileData) → IsConsistent d → Yields (read_glyph d) IsConsistent
unfolding read_glyph
read_glyph-IsConsistent d h = Yields-then read_character _ IsConsistent λ ch.
    Yields-then read_unsigned _ IsConsistent λ buffer_size.
      Yields-then read_integer _ IsConsistent λ bearing_x.
        Yields-then read_integer _ IsConsistent λ bearing_y.
          Yields-then read_integer _ IsConsistent λ size_x.
            Yields-then read_integer _ IsConsistent λ size_y.
              Yields-then read_unsigned _ IsConsistent λ advance.
                Yields-bind (read_bytes buffer_size) _ _ IsConsistent
                  (read_bytes-Yields buffer_size)
                  λ buffer size. Yields-pure _ IsConsistent (assign-IsConsistent d ch _ _ h size)

read_glyphs-IsConsistent :
    (n : ℕ) (d : NttFileData) → IsConsistent d → Yields (read_glyphs n d) IsConsistent
unfolding read_glyphs
read_glyphs-IsConsistent zero d h = Yields-pure d IsConsistent h
read_glyphs-IsConsistent (suc n) d h =
    Yields-bind (read_glyph d) _ IsConsistent IsConsistent (read_glyph-IsConsistent d h)
      λ d' h'. read_glyphs-IsConsistent n d' h'

read_case-IsConsistent :
    (version : ℕ) (d : NttFileData) → IsConsistent d → Yields (read_case version d) IsConsistent
unfolding read_case read_characters_v1
read_case-IsConsistent version d h = elim (Bool-cases (version == 1)) [
  | inl one ↦ rw one (Yields-then read_unsigned _ IsConsistent λ n. read_glyphs-IsConsistent n d h)
  | inr other ↦ rw other (Yields-pure d IsConsistent h)
]

read_versioned-IsConsistent :
    (d : NttFileData) → IsConsistent d → Yields (read_versioned d) (λ r. IsConsistent r.1)
unfolding read_versioned
read_versioned-IsConsistent d h = Yields-then read_unsigned _ _ λ version.
    let d' = record d { version = version } in
    let h' : IsConsistent d' = record {
      characters_sorted = h.characters_sorted;
      buffers_sorted = h.buffers_sorted;
      agree = h.agree;
    } in
    Yields-bind (read_case version d') (λ e. pure (true, e)) IsConsistent _
      (read_case-IsConsistent version d' h') λ e c. Yields-pure (true, e) (λ r. IsConsistent r.1) c

reset-IsConsistent : (d : NttFileData) → IsConsistent (reset d)
unfolding reset deallocate lookup
reset-IsConsistent d = record { characters_sorted = tt; buffers_sorted = tt; agree = λ ch. absent }

load_stream-IsConsistent :
    (d : NttFileData) → Yields (load_stream (reset d)) (λ r. IsConsistent r.1)
unfolding load_stream
load_stream-IsConsistent d = Yields-then read_magic _ _ λ magic.
    elim (Bool-cases (magic == magic_number)) [
      | inl same ↦ rw same (read_versioned-IsConsistent (reset d) (reset-IsConsistent d))
      | inr other ↦
          rw other (Yields-pure (false, reset d) (λ r. IsConsistent r.1) (reset-IsConsistent d))
    ]

-- However a load ends that returns, both maps hold the same characters, each once, and the size
-- noted for an image is that of its buffer.
pub load-IsConsistent :
    (bytes : List ℕ) (d : NttFileData) {b : Bool} {d' : NttFileData}
    → load bytes d ≡ ok (b, d')
    → IsConsistent d'
unfolding load
load-IsConsistent bytes d e =
    let (p, streamed, same) = bind-eq-ok (load_stream (reset d) (fresh bytes)) (λ (r, s). ok r) e in
    subst (λ r. IsConsistent r.1) (ok_value same)
      (load_stream-IsConsistent d (fresh bytes) p.1 p.0 streamed)
