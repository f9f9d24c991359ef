-- ===== src/Loaders/Nyx/Stages.antt =====
-- The map from stages to shaders that a load leaves.
use mathlib.Core.Path.{subst}
use kgl.Loaders.Nyx.RoundTrip.{load-put_file}
use kgl.Common.{
  ok, ok_value, sym, ◌++◌, ℕ, List, [], ◌∷◌, ◌≡◌, refl, Option, none, some, if◌then◌else◌, ◌==◌,
  arith, ◌∙◌,
}
use kgl.Common.OrderedMap.{lookup, insert, IsSorted, insert-IsSorted, lookup-insert}
use kgl.Loaders.Nyx.{Shader, NyxFileData, load}
use kgl.Loaders.Nyx.Format.{Contents, ContentsFit, put_file, insert_all, with_contents}

-- The first shader of the file that is for the stage.
abbrev pub first_for : ℕ → List Shader → Option Shader
first_for stage [] = none
first_for stage (s ∷ ss) = if s.stage == stage then some s else first_for stage ss

abbrev pub or_else : Option Shader → Option Shader → Option Shader
or_else none o = o
or_else (some s) o = some s

-- Every shader stands under its own stage.
abbrev pub KeysMatch : List (ℕ × Shader) → Type 0
KeysMatch [] = Unit
KeysMatch ((k, s) ∷ m) = (s.stage ≡ k) × KeysMatch m

insert_all-IsSorted :
    (ss : List Shader) (m : List (ℕ × Shader)) → IsSorted m → IsSorted (insert_all ss m)
unfolding insert_all
insert_all-IsSorted [] m h = h
insert_all-IsSorted (s ∷ ss) m h =
    insert_all-IsSorted ss (insert s.stage s m) (insert-IsSorted s.stage s m h)

insert-KeysMatch :
    (s : Shader) (m : List (ℕ × Shader)) → KeysMatch m → KeysMatch (insert s.stage s m)
unfolding insert
insert-KeysMatch s [] h = (refl, tt)
insert-KeysMatch s ((k, t) ∷ m) h = ground (arith, insert-KeysMatch s m h.1)

insert_all-KeysMatch :
    (ss : List Shader) (m : List (ℕ × Shader)) → KeysMatch m → KeysMatch (insert_all ss m)
unfolding insert_all
insert_all-KeysMatch [] m h = h
insert_all-KeysMatch (s ∷ ss) m h =
    insert_all-KeysMatch ss (insert s.stage s m) (insert-KeysMatch s m h)

lookup-insert_all :
    (stage : ℕ) (ss : List Shader) (m : List (ℕ × Shader))
    → IsSorted m
    → lookup stage (insert_all ss m) ≡ or_else (lookup stage m) (first_for stage ss)
unfolding insert_all
lookup-insert_all stage [] m h = ground arith
lookup-insert_all stage (s ∷ ss) m h = ground (
  arith,
  lookup-insert_all stage ss (insert s.stage s m) (insert-IsSorted s.stage s m h),
  lookup-insert stage s.stage s m h,
)

with_contents_stages :
    (c : Contents) (d : NyxFileData) (stage : ℕ)
    → IsSorted (with_contents c d).map
      × KeysMatch (with_contents c d).map
      × (lookup stage (with_contents c d).map ≡ first_for stage c.shaders)
unfolding with_contents
with_contents_stages c d stage = (
  insert_all-IsSorted c.shaders [] tt,
  insert_all-KeysMatch c.shaders [] tt,
  lookup-insert_all stage c.shaders [] tt ∙ unfold lookup in refl,
)

-- After a load of a file in the layout the stages are in ascending order with no repetition, every
-- shader stands under its own stage, and the shader of a stage is the first one that the file has
-- for it, whatever the object held.
pub load_stages :
    (c : Contents) (rest : List ℕ) (d d' : NyxFileData) (stage : ℕ)
    → ContentsFit c
    → load (put_file c ++ rest) d ≡ ok d'
    → IsSorted d'.map × KeysMatch d'.map × (lookup stage d'.map ≡ first_for stage c.shaders)
load_stages c rest d d' stage h e =
    subst
      (λ (x : NyxFileData).
        IsSorted x.map × KeysMatch x.map × (lookup stage x.map ≡ first_for stage c.shaders))
      (ok_value (sym (load-put_file c rest d h) ∙ e)) (with_contents_stages c d stage)
