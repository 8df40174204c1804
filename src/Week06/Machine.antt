-- ===== src/Week06/Machine.antt =====
-- What the data structures of week06 rest on and the repository does not contain: the allocator,
-- and the addresses that it hands out.
use networks_course.Prelude.{ℕ, ◌≡◌, Bytes, Bool, false}

pub record Machine : Type 0 where
  -- How many bytes can be written to an allocation of n bytes.
  pub usable : ℕ → ℕ
  -- What `strcmp` answers where `hashmap_add_element` hands it the memory of an entry in place of
  -- the entry's value: whether the addresses stored there spell the key. The first key is the one
  -- of the entry, the second the one that is added.
  pub entry_reads_as : Bytes → Bytes → Bool

-- An entry's own memory starts with an address; it is no key.
pub record Distinct (m : Machine) : Type 0 where
  pub no_key : (stored key : Bytes) → m.entry_reads_as stored key ≡ false
