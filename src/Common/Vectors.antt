-- ===== src/Common/Vectors.antt =====
-- `std::vector` access by `operator[]`, alone and behind the test that the program puts before it.
use mathlib.Core.Path.{◌≡◌, refl, sym, ap, ◌∙◌, subst}
use mathlib.Core.List.{List, [], ◌∷◌}
use mathlib.Core.Option.{Option, none, some}
use Prim.Native.Nat.{ℕ, zero, suc, ◌<◌, ◌+◌}
use mathlib.Core.Bool.{false}
use native.Mathlib.Omega.{arith}
use kgl.Common.Tests.{ltb, if◌then◌else◌}
use kgl.Common.Lists.{length, get_elem?, All, drop}
use kgl.Common.Results.{Result, ok, fault, overrun, bind}

module _ {A : Type 0} where
  -- Past the end the behaviour is undefined.
  unfoldable pub index : List A → ℕ → Result A
  index [] i = fault overrun
  index (x ∷ xs) zero = ok x
  index (x ∷ xs) (suc i) = index xs i

abbrev pub from_option {ℓ} : {A : Type 0} {B : Type ℓ} → (A → B) → B → Option A → B
from_option f d none = d
from_option f d (some a) = f a

module _ {A B : Type 0} where
  -- `i < xs.size() ? f( xs[ i ] ) : d`
  unfoldable pub index_or : List A → ℕ → (A → B) → B → Result B
  index_or xs i f d = if ltb i (length xs) then bind (index xs i) (λ x. ok (f x)) else ok d

  -- The test keeps the access inside the vector.
  pub index_or_lem :
      (xs : List A) (i : ℕ) (f : A → B) (d : B)
      → index_or xs i f d ≡ ok (from_option f d (get_elem? xs i))
  unfolding index_or index
  index_or_lem [] i f d = ground arith
  index_or_lem (x ∷ xs) zero f d = ground arith
  index_or_lem (x ∷ xs) (suc i) f d = ground (arith, index_or_lem xs i f d)

  -- The same where the element is only the way to the answer.
  pub guarded_index :
      (xs : List A) (i : ℕ) (k : A → Result B) (d : B)
      → (if ltb i (length xs) then bind (index xs i) k else ok d)
        ≡ from_option k (ok d) (get_elem? xs i)
  unfolding index
  guarded_index [] i k d = ground arith
  guarded_index (x ∷ xs) zero k d = ground arith
  guarded_index (x ∷ xs) (suc i) k d = ground (arith, guarded_index xs i k d)

module _ {A : Type 0} where
  -- An access inside the vector.
  pub index-some : (xs : List A) (i : ℕ) (a : A) → get_elem? xs i ≡ some a → index xs i ≡ ok a
  unfolding index
  index-some [] i a h = absurd (cc)
  index-some (x ∷ xs) zero a h = cc
  index-some (x ∷ xs) (suc i) a h = index-some xs i a h

  -- An element of a list all of whose elements meet `P`.
  pub All-get_elem? :
      (P : A → Type 0) (xs : List A) (i : ℕ) (a : A) → All P xs → get_elem? xs i ≡ some a → P a
  All-get_elem? P [] i a p h = absurd (cc)
  All-get_elem? P (x ∷ xs) zero a p h = subst P (cc) p.0
  All-get_elem? P (x ∷ xs) (suc i) a p h = All-get_elem? P xs i a p.1 h

  -- The element itself behind the test.
  pub index_within :
      (xs : List A) (i : ℕ) (d : A)
      → (if ltb i (length xs) then index xs i else ok d)
        ≡ ok (from_option (λ a. a) d (get_elem? xs i))
  unfolding index
  index_within [] i d = ground arith
  index_within (x ∷ xs) zero d = ground arith
  index_within (x ∷ xs) (suc i) d = ground (arith, index_within xs i d)

  pub get_elem?-lt : (xs : List A) (i : ℕ) (a : A) → get_elem? xs i ≡ some a → i < length xs
  get_elem?-lt [] i a h = absurd (cc)
  get_elem?-lt (x ∷ xs) zero a h = omega arith
  get_elem?-lt (x ∷ xs) (suc i) a h = omega (arith, get_elem?-lt xs i a h)

  pub ltb_out : (xs : List A) (i : ℕ) → get_elem? xs i ≡ none → ltb i (length xs) ≡ false
  ltb_out [] i h = ground arith
  ltb_out (x ∷ xs) zero h = absurd (cc)
  ltb_out (x ∷ xs) (suc i) h = ground (arith, ltb_out xs i h)

  drop_nil : (n : ℕ) → drop {A = A} n [] ≡ []
  drop_nil zero = refl
  drop_nil (suc n) = refl

  pub drop-drop : (m n : ℕ) (xs : List A) → drop (m + n) xs ≡ drop n (drop m xs)
  drop-drop zero n xs = ap (λ k. drop k xs) (omega arith)
  drop-drop (suc m) n [] = drop_nil (suc m + n) ∙ sym (drop_nil n)
  drop-drop (suc m) n (x ∷ xs) =
      let more : suc m + n ≡ suc (m + n) = omega arith in rw more (drop-drop m n xs)
