-- ===== src/Hash.antt =====
-- The string hash of both nodes: `polynomial_hash` of week06/src/ds/hashmap.c, and
-- `known_node_hash` of week06d/src/known_nodes_hashmap.c, the same loop with its constants.
pub mod Bounds
use networks_course.Prelude.{
  ℕ, ◌-◌, Bytes, ℤ, pos, negsuc, ◌+ℤ◌, scale, rem, [], ◌∷◌, Option, none, some, ltb, if◌then◌else◌,
}

-- `char` is signed: a byte from 128 on is a negative number.
unfoldable pub char_value : ℕ → ℤ
char_value b = if ltb b 128 then pos b else negsuc (255 - b)

-- `h += s[i]; h *= p; h %= m;`
unfoldable pub hash_step : ℕ → ℕ → ℤ → ℕ → ℤ
unfolding char_value
hash_step p m h c = rem (scale (h +ℤ char_value c) p) m

unfoldable pub hash_from : ℕ → ℕ → ℤ → Bytes → ℤ
unfolding hash_step
hash_from p m h [] = h
hash_from p m h (c ∷ s) = hash_from p m (hash_step p m h c) s

unfoldable pub polynomial_hash : Bytes → ℕ → ℕ → ℤ
unfolding hash_from
polynomial_hash s p m = hash_from p m (pos 0) s

abbrev pub hashmap_entries : ℕ
hashmap_entries = 63

unfoldable pub known_node_hash : Bytes → ℤ
unfolding hash_from
known_node_hash name = hash_from 257 hashmap_entries (pos 0) name

-- The element of an array that a hash selects; a negative index lies in front of the array.
abbrev pub bucket_index : ℤ → Option ℕ
bucket_index (pos i) = some i
bucket_index (negsuc i) = none
