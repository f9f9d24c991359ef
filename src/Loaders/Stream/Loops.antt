-- ===== src/Loaders/Stream/Loops.antt =====
-- The loop `read_onto`, in both directions.
use kgl.Common.{
  ℕ, zero, suc, ◌≡◌, refl, sym, ap, ◌∙◌, List, [], ◌∷◌, ◌++◌, append-nil, append_assoc, length, All,
  map,
}
use kgl.Loaders.Stream.{M, read_onto}
use kgl.Loaders.Stream.Codec.{Decodes}
use kgl.Loaders.Stream.Consumes.{
  Consumes, Consumes-bind, Consumes-mono, Consumes-pure, KeepsLive, KeepsLive-bind, KeepsLive-pure,
}

-- The encodings of the elements, one after the other.
abbrev pub put_all : {A : Type 0} → (A → List ℕ) → List A → List ℕ
put_all put [] = []
put_all put (x ∷ xs) = put x ++ put_all put xs

module _ {A : Type 0} (m : M A) (put : A → List ℕ) (P : A → Type 0) where
  pub read_onto-Decodes :
      ((a : A) → P a → Decodes m (put a) a)
      → (xs out : List A) → All P xs
      → Decodes (read_onto (length xs) m out) (put_all put xs) (out ++ xs)
  unfolding read_onto
  read_onto-Decodes h [] out p rest = rw (append-nil out)
  read_onto-Decodes h (x ∷ xs) out p rest = rw (
    append_assoc (put x) (put_all put xs) rest,
    h x p.0 (put_all put xs ++ rest),
    read_onto-Decodes h xs (out ++ x ∷ []) p.1 rest,
    append_assoc out (x ∷ []) xs,
  )

  -- What the loop has read: n elements, each in its encoding.
  pub record Listed (n : ℕ) (out ys : List A) (u : List ℕ) : Type 0 where
    pub items : List A
    pub is_append : ys ≡ out ++ items
    pub count : length items ≡ n
    pub encoded : u ≡ put_all put items
    pub each : All P items

  -- A loop that starts from an empty vector.
  pub Listed-from_nil :
      (n : ℕ) (ys : List A) (u : List ℕ)
      → Listed n [] ys u
      → (u ≡ put_all put ys) × (length ys ≡ n) × All P ys
  Listed-from_nil n ys u l = rw l.is_append (l.encoded, l.count, l.each)

  Listed-cons :
      (n : ℕ) (out ys : List A) (a : A) (u v : List ℕ)
      → u ≡ put a
      → P a
      → Listed n (out ++ a ∷ []) ys v
      → Listed (suc n) out ys (u ++ v)
  Listed-cons n out ys a u v e p l = record {
    items = a ∷ l.items;
    is_append = l.is_append ∙ append_assoc out (a ∷ []) l.items;
    count = ap suc l.count;
    encoded = rw (e, l.encoded);
    each = (p, l.each);
  }

  pub read_onto-Consumes :
      Consumes m (λ a u. (u ≡ put a) × P a)
      → (n : ℕ) (out : List A) → Consumes (read_onto n m out) (Listed n out)
  unfolding read_onto
  read_onto-Consumes h zero out = Consumes-pure out (Listed 0 out) (record {
    items = [];
    is_append = sym (append-nil out);
    count = refl;
    encoded = refl;
    each = tt;
  })
  read_onto-Consumes h (suc n) out =
      Consumes-bind m _ (λ a u. (u ≡ put a) × P a) (Listed (suc n) out) h
        (λ a.
          Consumes-mono _ _ _ (read_onto-Consumes h n (out ++ a ∷ []))
            (λ ys v l u w. Listed-cons n out ys a u v w.0 w.1 l))

pub read_onto-KeepsLive :
    {A : Type 0} (m : M A) → KeepsLive m → (n : ℕ) (out : List A) → KeepsLive (read_onto n m out)
unfolding read_onto
read_onto-KeepsLive m h zero out = KeepsLive-pure out
read_onto-KeepsLive m h (suc n) out =
    KeepsLive-bind m _ h (λ a. read_onto-KeepsLive m h n (out ++ a ∷ []))

-- A loop over elements that the reader converts.
pub read_onto-Decodes_map :
    {A T : Type 0} (m : M A) (put : T → List ℕ) (P : T → Type 0) (f : T → A)
    → ((t : T) → P t → Decodes m (put t) (f t))
    → (ts : List T) (out : List A) → All P ts
    → Decodes (read_onto (length ts) m out) (put_all put ts) (out ++ map f ts)
unfolding read_onto
read_onto-Decodes_map m put P f h [] out p rest = rw (append-nil out)
read_onto-Decodes_map m put P f h (x ∷ xs) out p rest = rw (
  append_assoc (put x) (put_all put xs) rest,
  h x p.0 (put_all put xs ++ rest),
  read_onto-Decodes_map m put P f h xs (out ++ f x ∷ []) p.1 rest,
  append_assoc out (f x ∷ []) (map f xs),
)
