-- ===== src/Week06/Vector.antt =====
-- week06/src/ds/vector.c: a growing array of pointers. `none` is a null pointer.
pub mod Append
pub mod Appended
use networks_course.Prelude.{
  ℕ, zero, suc, ◌+◌, ◌-◌, ◌*◌, ◌/◌, ◌%◌, ◌^◌, ◌&&◌, List, ◌++◌, Option, none, some, Run, ok, fault,
  ◌>>=◌, ◌>>◌, read, write, shift, length, take, replicate, ltb, ◌==◌, if◌then◌else◌,
}

abbrev size {ℓ} : {A : Type ℓ} → List A → ℕ
size xs = length xs

pub record Vector {ℓ} (A : Type ℓ) : Type ℓ where
  pub slots : List (Option A)
  pub length : ℕ
  pub capacity : ℕ

abbrev pub vector_prealloc : ℕ
vector_prealloc = 3

abbrev pub vector_grow_factor : ℕ
vector_grow_factor = 2

abbrev pub sizeof_pointer : ℕ
sizeof_pointer = 8

-- A `size_t` minus one.
abbrev pub pred_size : ℕ → ℕ
pred_size n = (n + 2 ^ 64 - 1) % 2 ^ 64

module _ {ℓ} {A : Type ℓ} (usable : ℕ → ℕ) where
  -- `realloc(data, bytes)`: as many pointers as fit; the old ones stay.
  unfoldable pub resize : ℕ → List (Option A) → List (Option A)
  resize bytes slots = let n = usable bytes / sizeof_pointer in take n (slots ++ replicate n none)

  unfoldable pub vector_create : Vector A
  vector_create = record {
    slots = replicate (usable (vector_prealloc * sizeof_pointer) / sizeof_pointer) none;
    length = 0;
    capacity = vector_prealloc;
  }

  -- The test at the start of `vector_insert`. The new size is given in bytes.
  unfoldable pub grow : Vector A → Vector A
  grow self =
      if self.length == self.capacity
      then record self {
        slots = resize (self.capacity * vector_grow_factor) self.slots;
        capacity = self.capacity * vector_grow_factor;
      }
      else self

  -- `for (i = length; i > idx; i++) data[i + 1] = data[i];` The index grows until an access leaves
  -- the array, which happens before the fuel, the size of the array, has run out.
  unfoldable pub move_up : ℕ → ℕ → ℕ → List (Option A) → Run (List (Option A))
  move_up zero i idx slots = fault
  move_up (suc fuel) i idx slots =
      let round = read slots i >>= λ v. write slots (i + 1) v >>= move_up fuel (i + 1) idx in
      if ltb idx i then round else ok slots

  -- The rest of `vector_insert`.
  unfoldable pub insert_grown : Vector A → ℕ → A → Run (Vector A)
  insert_grown self idx element = do
    slots ← move_up (suc (size self.slots)) self.length idx self.slots
    slots' ← write slots idx (some element)
    ok (record self { slots = slots'; length = self.length + 1 })

  unfoldable pub vector_insert : Vector A → ℕ → A → Run (Vector A)
  vector_insert self idx element = insert_grown (grow self) idx element

  unfoldable pub vector_append : Vector A → A → Run (Vector A)
  vector_append self element = vector_insert self self.length element

  -- The end of `vector_remove`: the vector shrinks, to a size that is given in bytes.
  unfoldable pub shrink : Vector A → Vector A
  shrink self =
      if ltb (self.length * vector_grow_factor) self.capacity && ltb 1 self.capacity
      then record self {
        slots = resize (self.capacity / vector_grow_factor) self.slots;
        capacity = self.capacity / vector_grow_factor;
      }
      else self

  -- The bound `length - 1` of the loop is a `size_t`.
  unfoldable pub vector_remove : Vector A → ℕ → Run (Vector A)
  vector_remove self idx = do
    slots ← shift (pred_size self.length - idx) idx self.slots
    ok (shrink (record self { slots = slots; length = pred_size self.length }))

  unfoldable pub vector_pop : Vector A → Run (Vector A)
  vector_pop self = vector_remove self (pred_size self.length)

module _ {ℓ} {A : Type ℓ} where
  -- The index `length` passes the test too.
  unfoldable pub vector_index : Vector A → ℕ → Run (Option A)
  vector_index self idx = if ltb self.length idx then ok none else read self.slots idx

  unfoldable pub vector_replace : Vector A → ℕ → A → Run (Vector A)
  vector_replace self idx element =
      let replaced =
        write self.slots idx (some element) >>= λ slots. ok (record self { slots = slots }) in
      if ltb self.length idx then ok self else replaced

  unfoldable pub vector_length : Vector A → ℕ
  vector_length self = self.length
