-- ===== src/Event/Order.antt =====
-- The orders by which the three multimaps of src/event/Event.cpp are sorted: `std::less` on the
-- keys, on the event types and on `std::string`.
use kgl.Common.{
  ℕ, ◌≡◌, refl, Bool, true, false, not, ◌&&◌, List, [], ◌∷◌, ltb, if◌then◌else◌, arith,
}
use kgl.Event.Keys.{Key, ordinal, ordinal-injective}

pub record Order (K : Type 0) : Type 0 where
  pub lt : K → K → Bool
  pub irrefl : (a : K) → lt a a ≡ false
  pub trans : (a b c : K) → lt a b ≡ true → lt b c ≡ true → lt a c ≡ true
  pub connected : (a b : K) → lt a b ≡ false → lt b a ≡ false → a ≡ b

-- Neither key comes before the other.
abbrev pub same : {K : Type 0} ⦃o : Order K⦄ → K → K → Bool
same ⦃o⦄ a b = not (o.lt a b) && not (o.lt b a)

module _ {K : Type 0} ⦃o : Order K⦄ where
  pub same_refl : (a : K) → same a a ≡ true
  same_refl a = rw (o.irrefl a)

  pub same→eq : (a b : K) → same a b ≡ true → a ≡ b
  same→eq a b h = o.connected a b (ground arith) (ground arith)

  pub not-same_of_lt : (a b : K) → o.lt a b ≡ true → same a b ≡ false
  not-same_of_lt a b h = rw h

pub lt_irrefl : (n : ℕ) → ltb n n ≡ false
lt_irrefl n = ground arith

pub lt_trans : (a b c : ℕ) → ltb a b ≡ true → ltb b c ≡ true → ltb a c ≡ true
lt_trans a b c p q = ground arith

pub lt_connected : (a b : ℕ) → ltb a b ≡ false → ltb b a ≡ false → a ≡ b
lt_connected a b p q = ground arith

instance abbrev pub key_order : Order Key
key_order = record {
  lt = λ j k. ltb (ordinal j) (ordinal k);
  irrefl = λ k. lt_irrefl (ordinal k);
  trans = λ i j k. lt_trans (ordinal i) (ordinal j) (ordinal k);
  connected = λ j k p q. ordinal-injective j k (lt_connected (ordinal j) (ordinal k) p q);
}

-- Lexicographic comparison of bytes.
unfoldable pub string_lt : List ℕ → List ℕ → Bool
string_lt [] [] = false
string_lt (x ∷ xs) [] = false
string_lt [] (y ∷ ys) = true
string_lt (x ∷ xs) (y ∷ ys) = if ltb x y then true else if ltb y x then false else string_lt xs ys

pub string_lt_irrefl : (a : List ℕ) → string_lt a a ≡ false
unfolding string_lt
string_lt_irrefl [] = refl
string_lt_irrefl (x ∷ xs) = ground (arith, string_lt_irrefl xs)

no_string_lt : (a : List ℕ) → string_lt a [] ≡ false
unfolding string_lt
no_string_lt [] = refl
no_string_lt (x ∷ xs) = refl

pub string_lt_trans :
    (a b c : List ℕ) → string_lt a b ≡ true → string_lt b c ≡ true → string_lt a c ≡ true
unfolding string_lt
string_lt_trans (x ∷ xs) (y ∷ ys) (z ∷ zs) p q = ground (arith, string_lt_trans xs ys zs)
string_lt_trans [] b [] p q = ground (arith, no_string_lt b)
string_lt_trans (x ∷ xs) b [] p q = absurd (cc (no_string_lt b))
string_lt_trans [] b (z ∷ zs) p q = refl
string_lt_trans (x ∷ xs) [] (z ∷ zs) p q = absurd (cc)

pub string_lt_connected : (a b : List ℕ) → string_lt a b ≡ false → string_lt b a ≡ false → a ≡ b
unfolding string_lt
string_lt_connected (x ∷ xs) (y ∷ ys) p q = ground (arith, string_lt_connected xs ys)
string_lt_connected [] [] p q = refl
string_lt_connected [] (y ∷ ys) p q = absurd (cc)
string_lt_connected (x ∷ xs) [] p q = absurd (cc)

instance abbrev pub string_order : Order (List ℕ)
string_order = record {
  lt = string_lt;
  irrefl = string_lt_irrefl;
  trans = string_lt_trans;
  connected = string_lt_connected;
}
