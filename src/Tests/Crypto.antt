-- ===== src/Tests/Crypto.antt =====
-- A concrete instance of the cryptography: sizes and agreement as documented, with no secrecy.
use xmpp_go.Prelude.{
  ℕ, zero, suc, ◌+◌, ◌≡◌, refl, ap, none, some, [], ◌∷◌, ◌++◌, if◌then◌else◌, length, length-append,
  length-take, take, drop, take-append, drop-append, ◌==◌, eq_refl, list_eq, nat_eq, arith,
}
use xmpp_go.Prelude.Bytes.{Bytes}
use xmpp_go.Omemo.Primitives.{Primitives, Documented}
use xmpp_go.Omemo.Ratchet.{zeros}

-- The bytes added pairwise.
unfoldable pub mix : Bytes → Bytes → Bytes
mix [] b = []
mix (x ∷ a) [] = []
mix (x ∷ a) (y ∷ b) = (x + y) ∷ mix a b

mix_comm : (a b : Bytes) → length a ≡ length b → mix a b ≡ mix b a
unfolding mix
mix_comm [] [] h = refl
mix_comm [] (y ∷ b) h = refl
mix_comm (x ∷ a) [] h = refl
mix_comm (x ∷ a) (y ∷ b) h =
    let e : x + y ≡ y + x = omega arith in rw (e, mix_comm a b (omega arith)) refl

-- The first `n` bytes of a text, filled up with zeros.
abbrev pub sized : ℕ → Bytes → Bytes
sized n b = take n (b ++ zeros n)

length-zeros : (n : ℕ) → length (zeros n) ≡ n
length-zeros zero = refl
length-zeros (suc n) = omega (arith, length-zeros n)

length-sized : (n : ℕ) (b : Bytes) → length (sized n b) ≡ n
length-sized n b =
    omega (arith, length-take n (b ++ zeros n), length-append b (zeros n), length-zeros n)

abbrev pub toy : Primitives
toy = record {
  hmac = λ k m. sized 32 (m ++ k);
  hkdf = λ salt secret info n. some (sized n (secret ++ salt));
  public = λ a. a;
  ecdh = λ a b. some (mix a b);
  seal = λ k n p. k ++ p;
  unseal = λ k n c. if take 32 c == k then some (drop 32 c) else none;
}

pub toy-Documented : Documented toy
toy-Documented = record {
  hmac_size = λ k m. length-sized 32 (m ++ k);
  hkdf_size =
      λ salt secret info. (sized 64 (secret ++ salt), refl, length-sized 64 (secret ++ salt));
  public_size = λ a h. h;
  agree = λ a b h k. (mix a b, refl, ap some (mix_comm b a (omega arith)));
  unseal_seal = λ k n p h i. rw (take-append 32 k p h, drop-append 32 k p h, eq_refl k) refl;
}
