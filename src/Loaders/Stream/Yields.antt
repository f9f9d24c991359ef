-- ===== src/Loaders/Stream/Yields.antt =====
-- `Yields m P`: every value that the reader `m` returns meets `P`, whatever the stream holds.
use kgl.Common.{
  ◌+◌, ℕ, zero, suc, ◌-◌, ◌≤◌, ◌≡◌, List, [], ◌∷◌, ◌++◌, Option, none, some, ok, bind-eq-ok, map,
  length, length-append, length-map, length-replicate, length-take, replicate, arith, All,
  All-append,
}
use mathlib.Core.Path.{subst}
use kgl.Loaders.Stream.{M, ◌>>=◌, pure, Stream, read, read_bytes, read_onto}
use kgl.Loaders.Stream.Consumes.{ok_inj}

abbrev pub Yields : {A : Type 0} → M A → (A → Type 0) → Type 0
Yields {A} m P = (s s' : Stream) (a : A) → m s ≡ ok (a, s') → P a

module _ {A B : Type 0} where
  pub Yields-bind :
      (m : M A) (f : A → M B) (P : A → Type 0) (Q : B → Type 0)
      → Yields m P
      → ((a : A) → P a → Yields (f a) Q)
      → Yields (m >>= f) Q
  Yields-bind m f P Q hm hf s s' b e =
      let (p, first, second) = bind-eq-ok (m s) (λ (a, t). f a t) e in
      hf p.0 (hm s p.1 p.0 first) p.1 s' b second

  -- The same, where nothing is said of the first value.
  pub Yields-then :
      (m : M A) (f : A → M B) (Q : B → Type 0) → ((a : A) → Yields (f a) Q) → Yields (m >>= f) Q
  Yields-then m f Q hf = Yields-bind m f (λ a. Unit) Q (λ s s' a e. tt) (λ a _. hf a)

pub Yields-pure : {A : Type 0} (a : A) (P : A → Type 0) → P a → Yields (pure a) P
Yields-pure a P h s s' b e = subst P (ok_inj e).0 h

length-read : (n : ℕ) (s : Stream) → length (read n s).0 ≤ n
unfolding read
length-read n s = ground (arith, length-take n s.bytes)

-- The buffer has the size that was asked for.
pub read_bytes-Yields : (n : ℕ) → Yields (read_bytes n) (λ buffer. length buffer ≡ n)
unfolding read_bytes
read_bytes-Yields n s s' buffer e =
    let got = (read n s).0 in
    let pad : List (Option ℕ) = replicate (n - length got) none in
    rw (← (ok_inj e).0) (
      omega (
        arith,
        length-append (map some got) pad,
        length-map {B = Option ℕ} some got,
        length-replicate {A = Option ℕ} (n - length got) none,
        length-read n s,
      ))

pub read_onto-Yields :
    {A : Type 0} (m : M A) (P : A → Type 0)
    → Yields m P
    → (n : ℕ) (out : List A) → All P out
    → Yields (read_onto n m out) (All P)
unfolding read_onto
read_onto-Yields m P h zero out p = Yields-pure out (All P) p
read_onto-Yields m P h (suc n) out p =
    Yields-bind m _ P (All P) h
      (λ a q. read_onto-Yields m P h n (out ++ a ∷ []) (All-append P out (a ∷ []) p (q, tt)))

-- A loop into an empty vector fills it with as many elements as it has rounds.
length-read_onto_from :
    {A : Type 0} (m : M A) (n : ℕ) (out : List A)
    → Yields (read_onto n m out) (λ xs. length xs ≡ length out + n)
unfolding read_onto
length-read_onto_from m zero out = Yields-pure out _ (omega arith)
length-read_onto_from m (suc n) out = Yields-then m _ _ λ a s s' xs e.
    omega (arith, length-read_onto_from m n (out ++ a ∷ []) s s' xs e, length-append out (a ∷ []))

pub length-read_onto :
    {A : Type 0} (m : M A) (n : ℕ) → Yields (read_onto n m []) (λ xs. length xs ≡ n)
length-read_onto m n s s' xs e = omega (arith, length-read_onto_from m n [] s s' xs e)
