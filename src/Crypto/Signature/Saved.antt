-- ===== src/Crypto/Signature/Saved.antt =====
-- Keys that were saved and loaded.
use blockmania.Prelude.{
  ℕ, ◌+◌, ◌-◌, ◌≤◌, ◌++◌, ◌≡◌, refl, ap, sym, ◌∙◌, true, Option, none, some, length, take, drop,
  replicate, ◌==◌, ==_iff, Bool-cases, inl, inr, take-append, drop-append, take_all, drop_all,
  length-drop, length-replicate, length-append, arith,
}
use mathlib.Core.List.{append-nil}
use blockmania.Prelude.Texts.{Text}
use blockmania.Crypto.Signature.{
  Scheme, IsScheme, KeyPair, ed25519, copy_at, key_pair_value, load_key_pair, load_private_key,
  load_public_key, as_pair, gen_key_pair, sign, verify, algorithm_name, algorithm_from_string,
}

copy_at_front :
    (source v : Text)
    → length source ≤ length v
    → copy_at 0 source v ≡ source ++ drop (length source) v
copy_at_front source v h =
    ap (λ l. l ++ drop (0 + length source) v) (take_all (length v - 0) source (omega arith))
    ∙ ap (λ (k : ℕ). source ++ drop k v) (omega arith)

copy_at_back :
    (pos : ℕ) (front source tail : Text)
    → pos ≡ length front
    → length source ≡ length tail
    → copy_at pos source (front ++ tail) ≡ front ++ source
copy_at_back pos front source tail at e =
    let n : length (front ++ tail) ≡ length front + length tail = length-append front tail in
    let all = take_all (length (front ++ tail) - pos) source (omega arith) in
    let none_left = drop_all (pos + length source) (front ++ tail) (omega arith) in
    ap
      (λ l.
        l
        ++ (take (length (front ++ tail) - pos) source
            ++ drop (pos + length source) (front ++ tail)))
      (take-append front tail pos at)
    ∙ ap (λ l. front ++ (l ++ drop (pos + length source) (front ++ tail))) all
    ∙ ap (λ l. front ++ (source ++ l)) none_left
    ∙ ap (λ l. front ++ l) (append-nil source)

key_pair_value_lem :
    (k : KeyPair)
    → length k.public_key ≡ 32
    → length k.private_key ≡ 64
    → key_pair_value k ≡ k.public_key ++ k.private_key
unfolding key_pair_value
key_pair_value_lem k p q =
    let zeros : Text = replicate 96 0 in
    let size : length (drop (length k.public_key) zeros) ≡ 96 - length k.public_key =
      length-drop (length k.public_key) zeros in
    ap (copy_at 32 k.private_key)
      (copy_at_front k.public_key zeros (omega (arith, length-replicate {0} {A = ℕ} 96 0)))
    ∙ copy_at_back 32 k.public_key k.private_key (drop (length k.public_key) zeros) (sym p)
        (omega arith)

load-value :
    (k : KeyPair)
    → length k.public_key ≡ 32
    → length k.private_key ≡ 64
    → load_key_pair ed25519 (key_pair_value k) ≡ some k
unfolding load_key_pair
load-value k p q =
    let all : length (k.public_key ++ k.private_key) ≡ 96 =
      omega (arith, length-append {0} k.public_key k.private_key) in
    rw
      (
        key_pair_value_lem k p q,
        all,
        take-append k.public_key k.private_key 32 (sym p),
        drop-append k.public_key k.private_key 32 (sym p),
      )
      refl

-- What a generated pair is.
record Generated (e : Scheme) (s seed : ℕ) (k : KeyPair) : Type 0 where
  algorithm : s ≡ ed25519
  key : e.generate_key seed ≡ some (k.public_key, k.private_key)

as_pair-some :
    (o : Option (Text × Text)) (k : KeyPair)
    → as_pair o ≡ some k
    → o ≡ some (k.public_key, k.private_key)
as_pair-some none k h = cc
as_pair-some (some (p, q)) k h = ground arith

gen_key_pair-Generated :
    (e : Scheme) (s seed : ℕ) (k : KeyPair) → gen_key_pair e s seed ≡ some k → Generated e s seed k
unfolding gen_key_pair
gen_key_pair-Generated e s seed k h = elim (Bool-cases (s == ed25519)) [
  | inl is ↦ record {
    algorithm = (==_iff s ed25519).0 is;
    key = as_pair-some (e.generate_key seed) k (rw is at h);
  }
  | inr other ↦ absurd (none-ne (rw other at h))
]
  where
    none-ne : {k : KeyPair} → none ≡ some k → ⊥
    none-ne h = cc

-- A generated key pair is loaded again from its 96 bytes and from the bytes of each key, its
-- algorithm from its name, and what the loaded pair signs, the public key verifies.
pub load-gen_key_pair :
    (e : Scheme) (laws : IsScheme e) (s seed : ℕ) (k : KeyPair) (message : Text)
    → gen_key_pair e s seed ≡ some k
    → (algorithm_from_string (algorithm_name s) ≡ some s)
      × (load_key_pair s (key_pair_value k) ≡ some k)
      × (load_public_key s k.public_key ≡ some k.public_key)
      × (load_private_key s k.private_key ≡ some k.private_key)
      × (verify e k.public_key message (sign e k.private_key message) ≡ true)
unfolding algorithm_from_string load_public_key load_private_key verify sign
load-gen_key_pair e laws s seed k message h =
    let g = gen_key_pair-Generated e s seed k h in
    let p = laws.public_length seed k.public_key k.private_key g.key in
    let q = laws.private_length seed k.public_key k.private_key g.key in
    rw g.algorithm (
      refl,
      load-value k p q,
      rw p refl,
      rw q refl,
      laws.verifies seed k.public_key k.private_key message g.key,
    )
