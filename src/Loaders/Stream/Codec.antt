-- ===== src/Loaders/Stream/Codec.antt =====
-- A judgement on readers, with its rule for bind. `Decodes m enc a`: from a stream that starts with
-- `enc` the reader `m` returns `a` and leaves what follows.
use kgl.Common.{
  ℕ, ◌<◌, ◌-◌, ◌^◌, ◌≡◌, refl, List, [], ◌++◌, append_assoc, append-nil, arith, le→leb, length,
  take-append, take, zero, suc, ap, ◌∷◌, drop-append, length-append, ok, ==_refl,
}
use kgl.Common.Words.{IsU32, to_bytes, length-to_bytes, of_bytes-to_bytes}
use kgl.Loaders.Stream.{
  fresh, read, M, ◌>>=◌, pure, read_word, read_unsigned, read_magic, read_character, read_string,
}

abbrev pub Decodes : {A : Type 0} → M A → List ℕ → A → Type 0
Decodes m enc a = (rest : List ℕ) → m (fresh (enc ++ rest)) ≡ ok (a, fresh rest)

pub read-append : (bs rest : List ℕ) → read (length bs) (fresh (bs ++ rest)) ≡ (bs, fresh rest)
unfolding read
read-append bs rest = rw (
  le→leb (length bs) (length (bs ++ rest)) (omega (arith, length-append bs rest)),
  take-append bs rest,
  drop-append bs rest,
)

pub Decodes-pure : {A : Type 0} (a : A) → Decodes (pure a) [] a
Decodes-pure a rest = refl

module _ {A B : Type 0} where
  pub Decodes-bind :
      (m : M A) (f : A → M B) (e e' : List ℕ) (a : A) (b : B)
      → Decodes m e a
      → Decodes (f a) e' b
      → Decodes (m >>= f) (e ++ e') b
  Decodes-bind m f e e' a b p q rest = rw append_assoc (rw (p (e' ++ rest)) (q rest))

  pub Decodes-map :
      (m : M A) (g : A → B) (e : List ℕ) (a : A)
      → Decodes m e a
      → Decodes (m >>= λ x. pure (g x)) e (g a)
  Decodes-map m g e a p rest = rw (p rest)

pub read_exact :
    (k : ℕ) (bs rest : List ℕ) → length bs ≡ k → read k (fresh (bs ++ rest)) ≡ (bs, fresh rest)
read_exact k bs rest h = rw (← h) (read-append bs rest)

pub read_word-Decodes : (k v : ℕ) → v < 256 ^ k → Decodes (read_word k) (to_bytes k v) v
unfolding read_word
read_word-Decodes k v h rest = rw (
  read_exact k (to_bytes k v) rest (length-to_bytes k v),
  length-to_bytes k v,
  ==_refl k,
  of_bytes-to_bytes k v h,
)

pub read_unsigned-Decodes : (v : ℕ) → IsU32 v → Decodes read_unsigned (to_bytes 4 v) v
unfolding read_unsigned
read_unsigned-Decodes v h = read_word-Decodes 4 v h

pub read_magic-Decodes : (v : ℕ) → v < 256 ^ 8 → Decodes read_magic (to_bytes 8 v) v
unfolding read_magic
read_magic-Decodes v h = read_word-Decodes 8 v h

pub read_character-Decodes : (v : ℕ) → v < 256 ^ 1 → Decodes read_character (to_bytes 1 v) v
unfolding read_character
read_character-Decodes v h = read_word-Decodes 1 v h

unfoldable pub put_string : List ℕ → List ℕ
put_string str = to_bytes 4 (length str) ++ str

sub_self : (n : ℕ) → n - n ≡ 0
sub_self n = omega arith

pub read_string-Decodes :
    (str : List ℕ) → IsU32 (length str) → Decodes read_string (put_string str) str
unfolding read_string put_string
read_string-Decodes str h =
    Decodes-bind read_unsigned _ (to_bytes 4 (length str)) str (length str) str
      (read_unsigned-Decodes _ h)
      (λ rest. rw (read-append str rest, sub_self (length str), append-nil str))

take_all : (n : ℕ) (bs : List ℕ) → length bs < n → take n bs ≡ bs
take_all zero bs h = absurd (omega arith)
take_all (suc n) [] h = refl
take_all (suc n) (b ∷ bs) h = ap (◌∷◌ b) (take_all n bs (omega arith))

-- What a read from a good stream stores: the bytes asked for, as far as there are any.
pub read-fresh : (n : ℕ) (bs : List ℕ) → (read n (fresh bs)).0 ≡ take n bs
unfolding read
read-fresh n bs = ground (arith, take_all n bs)
