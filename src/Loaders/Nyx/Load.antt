-- ===== src/Loaders/Nyx/Load.antt =====
-- `NyxFile::load` on every sequence of bytes.
use kgl.Common.{
  ℕ, List, [], ◌++◌, ◌≡◌, ◌≢◌, ◌↔◌, ◌⊎◌, inl, inr, refl, sym, ok, bind, bind-eq-ok, All,
  append_assoc, ◌<◌, ◌^◌, ◌==◌, ==_iff, Bool-cases, append-nil,
}
use mathlib.Core.Path.{subst}
use kgl.Common.Words.{IsByte, to_bytes}
use kgl.Loaders.Stream.{fresh, read_magic}
use kgl.Loaders.Stream.Codec.{read_magic-Decodes}
use kgl.Loaders.Stream.Consumes.{
  Consumes, Consumes-bind, Consumes-mono, Consumes-pure, IsStrict, IsStrict-then, KeepsLive-pure,
  IsStrict-KeepsLive,
}
use kgl.Loaders.Stream.Words.{IsWord, read_magic-Consumes, read_magic-IsStrict}
use kgl.Loaders.Nyx.{magic_number, NyxFileData, read_body, load_stream, load}
use kgl.Loaders.Nyx.Format.{Contents, put_file, ContentsFit, with_contents}
use kgl.Loaders.Nyx.RoundTrip.{load-put_file}
use kgl.Loaders.Nyx.Sound.{BodyRead, cleared, read_body-Consumes}
use kgl.Loaders.Nyx.Strict.{read_body-IsStrict}

-- The bytes begin with a file in the layout, and `d'` is `d` with its contents.
pub record IsFile (d : NyxFileData) (bytes : List ℕ) (d' : NyxFileData) : Type 0 where
  pub contents : Contents
  pub rest : List ℕ
  pub fits : ContentsFit contents
  pub splits : bytes ≡ put_file contents ++ rest
  pub loaded : d' ≡ with_contents contents d

-- The bytes begin with another magic number, and `d'` is `d` with its map emptied.
pub record IsForeign (d : NyxFileData) (bytes : List ℕ) (d' : NyxFileData) : Type 0 where
  pub magic : ℕ
  pub rest : List ℕ
  pub fits : magic < 256 ^ 8
  pub other : magic ≢ magic_number
  pub splits : bytes ≡ to_bytes 8 magic ++ rest
  pub kept : d' ≡ cleared d

-- The same of the bytes that were taken, with no rest.
abbrev StreamRead : NyxFileData → NyxFileData → List ℕ → Type 0
StreamRead d d' u = (rest : List ℕ) → IsFile d (u ++ rest) d' ⊎ IsForeign d (u ++ rest) d'

file_read :
    (d d' : NyxFileData) (magic : ℕ) (u v : List ℕ)
    → magic ≡ magic_number
    → IsWord 8 magic u
    → BodyRead d d' v
    → StreamRead d d' (u ++ v)
unfolding put_file
file_read d d' magic u v e w b rest = inl (record {
  contents = b.contents;
  rest = rest;
  fits = b.fits;
  splits = rw (w.0, e, b.encoded);
  loaded = b.loaded;
})

foreign_read :
    (d : NyxFileData) (magic : ℕ) (u : List ℕ)
    → magic ≢ magic_number
    → IsWord 8 magic u
    → StreamRead d (cleared d) (u ++ [])
foreign_read d magic u e w rest = inr (record {
  magic = magic;
  rest = rest;
  fits = w.1;
  other = e;
  splits = rw (w.0, append-nil);
  kept = refl;
})

load_stream-Consumes : (d : NyxFileData) → Consumes (load_stream (cleared d)) (StreamRead d)
unfolding load_stream
load_stream-Consumes d =
    Consumes-bind read_magic _ (IsWord 8) (StreamRead d) read_magic-Consumes λ magic.
      elim (Bool-cases (magic == magic_number)) [
        | inl same ↦ rw same (
            Consumes-mono (read_body (cleared d)) _ _ (read_body-Consumes d)
              (λ d' v b u w. file_read d d' magic u v ((==_iff magic magic_number).0 same) w b))
        | inr other ↦ rw other (
            Consumes-pure (cleared d) _
              (λ u w. foreign_read d magic u (λ e. cc ((==_iff magic magic_number).1 e)) w))
      ]

load_stream-IsStrict : (d : NyxFileData) → IsStrict (load_stream d)
unfolding load_stream
load_stream-IsStrict d = IsStrict-then read_magic _ read_magic-IsStrict λ magic.
    elim (Bool-cases (magic == magic_number)) [
      | inl same ↦ rw same (IsStrict-KeepsLive (read_body d) (read_body-IsStrict d))
      | inr other ↦ rw other (KeepsLive-pure d)
    ]

load_sound :
    (bytes : List ℕ) (d d' : NyxFileData)
    → All IsByte bytes
    → load bytes d ≡ ok d'
    → IsFile d bytes d' ⊎ IsForeign d bytes d'
unfolding load
load_sound bytes d d' h e =
    let (p, streamed, same) =
      bind-eq-ok (load_stream (cleared d) (fresh bytes)) (λ (d', s). ok d') e in
    let (left, c) = load_stream-Consumes d (fresh bytes) p.1 p.0 h streamed in
    let consumed = c (load_stream-IsStrict (cleared d) (fresh bytes) p.1 p.0 streamed) in
    subst (λ bs. IsFile d bs d' ⊎ IsForeign d bs d') (sym consumed.splits)
      (subst (λ x. StreamRead d x consumed.used) {x = p.0} (cc) consumed.holds p.1.bytes)

load_foreign :
    (magic : ℕ) (rest : List ℕ) (d : NyxFileData)
    → magic < 256 ^ 8
    → magic ≢ magic_number
    → load (to_bytes 8 magic ++ rest) d ≡ ok (cleared d)
unfolding load load_stream
load_foreign magic rest d h other = elim (Bool-cases (magic == magic_number)) [
  | inl same ↦ absurd (other ((==_iff magic magic_number).0 same))
  | inr no_match ↦ rw (read_magic-Decodes magic h rest, no_match)
]

load_complete :
    (bytes : List ℕ) (d d' : NyxFileData)
    → IsFile d bytes d' ⊎ IsForeign d bytes d'
    → load bytes d ≡ ok d'
load_complete bytes d d' (inl f) =
    rw (f.splits, f.loaded) (load-put_file f.contents f.rest d f.fits)
load_complete bytes d d' (inr f) =
    rw (f.splits, f.kept) (load_foreign f.magic f.rest d f.fits f.other)

-- On bytes, `load` returns an object exactly when they begin with a file in the layout, and it is
-- then the old object with the file's contents, or when they begin with another magic number, and
-- it is then the old object with its map emptied.
pub load-eq-ok_iff :
    (bytes : List ℕ) (d d' : NyxFileData)
    → All IsByte bytes
    → (load bytes d ≡ ok d') ↔ (IsFile d bytes d' ⊎ IsForeign d bytes d')
load-eq-ok_iff bytes d d' h = (load_sound bytes d d' h, load_complete bytes d d')

-- Loading a file a second time into the same object adds its attributes once more, while the
-- shaders are those of one load.
pub load_twice :
    (c : Contents) (rest : List ℕ) (d : NyxFileData)
    → ContentsFit c
    → bind (load (put_file c ++ rest) d) (load (put_file c ++ rest))
      ≡ ok (record (with_contents c d) {
        inputs = d.inputs ++ (c.inputs ++ c.inputs);
        outputs = d.outputs ++ (c.outputs ++ c.outputs);
      })
unfolding with_contents
load_twice c rest d h = rw (
  load-put_file c rest d h,
  load-put_file c rest (with_contents c d) h,
  append_assoc d.inputs c.inputs c.inputs,
  append_assoc d.outputs c.outputs c.outputs,
)
