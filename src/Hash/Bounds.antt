-- ===== src/Hash/Bounds.antt =====
-- Where the hash of a name can lie.
use networks_course.Prelude.{
  ℕ, zero, suc, ◌+◌, ◌*◌, ◌%◌, ◌^◌, ◌<◌, ◌≤◌, ◌≡◌, refl, Bytes, ℤ, pos, negsuc, neg, ◌+ℤ◌, scale,
  rem, magnitude, [], ◌∷◌, arith,
}
use networks_course.Hash.{
  known_node_hash, char_value, hash_step, hash_from, polynomial_hash, hashmap_entries,
}

magnitude-rem : (x : ℤ) (m : ℕ) → 0 < m → magnitude (rem x m) < m
magnitude-rem (pos a) m h = omega arith
magnitude-rem (negsuc a) m h = ground (arith)

magnitude-hash_from :
    (p m : ℕ) (h : ℤ) (s : Bytes) → magnitude h < m → magnitude (hash_from p m h s) < m
unfolding hash_from hash_step
magnitude-hash_from p m h [] b = b
magnitude-hash_from p m h (c ∷ s) b =
    magnitude-hash_from p m (hash_step p m h c) s
      (magnitude-rem (scale (h +ℤ char_value c) p) m (omega arith))

-- The hash of every string lies strictly between -m and m.
pub magnitude-polynomial_hash :
    (s : Bytes) (p m : ℕ) → 0 < m → magnitude (polynomial_hash s p m) < m
unfolding polynomial_hash
magnitude-polynomial_hash s p m h = magnitude-hash_from p m (pos 0) s h

pub magnitude-known_node_hash : (name : Bytes) → magnitude (known_node_hash name) < hashmap_entries
unfolding known_node_hash
magnitude-known_node_hash name = magnitude-hash_from 257 hashmap_entries (pos 0) name (omega arith)

magnitude-char_value : (c : ℕ) → c < 256 → magnitude (char_value c) ≤ 128
unfolding char_value
magnitude-char_value c h = ground arith

magnitude-add : (x y : ℤ) → magnitude (x +ℤ y) ≤ magnitude x + magnitude y
magnitude-add (pos a) (pos b) = omega arith
magnitude-add (pos a) (negsuc b) = ground arith
magnitude-add (negsuc a) (pos b) = ground arith
magnitude-add (negsuc a) (negsuc b) = omega arith

magnitude-scale : (x : ℤ) (p : ℕ) → magnitude (scale x p) ≡ magnitude x * p
magnitude-scale (pos a) p = refl
magnitude-scale (negsuc a) p = magnitude-neg (suc a * p)
  where
    magnitude-neg : (n : ℕ) → magnitude (neg n) ≡ n
    magnitude-neg zero = refl
    magnitude-neg (suc n) = refl

-- With the constants of the program the product formed in each round fits an `int`.
pub hash_step_no_overflow :
    (s : Bytes) (c : ℕ)
    → c < 256
    → magnitude (scale (polynomial_hash s 257 hashmap_entries +ℤ char_value c) 257) < 2 ^ 31
hash_step_no_overflow s c h = omega (
  arith,
  magnitude-polynomial_hash s 257 hashmap_entries (omega arith),
  magnitude-char_value c h,
  magnitude-add (polynomial_hash s 257 hashmap_entries) (char_value c),
  magnitude-scale (polynomial_hash s 257 hashmap_entries +ℤ char_value c) 257,
)

abbrev pub IsAscii : Bytes → Type 0
IsAscii [] = Unit
IsAscii (c ∷ s) = (c < 128) × IsAscii s

hash_from-ascii :
    (p m k : ℕ) (s : Bytes)
    → k < m
    → IsAscii s
    → (i : ℕ) × (hash_from p m (pos k) s ≡ pos i) × (i < m)
unfolding hash_from hash_step char_value
hash_from-ascii p m k [] b a = (k, refl, b)
hash_from-ascii p m k (c ∷ s) b a =
    let (i, e, l) = hash_from-ascii p m ((k + c) * p % m) s (omega arith) a.1 in
    (i, ground (arith, e), l)

-- The hash of an ASCII string is an index into a table of `m` buckets.
polynomial_hash-ascii :
    (s : Bytes) (p m : ℕ) → 0 < m → IsAscii s → (i : ℕ) × (polynomial_hash s p m ≡ pos i) × (i < m)
unfolding polynomial_hash
polynomial_hash-ascii s p m h a = hash_from-ascii p m 0 s h a
