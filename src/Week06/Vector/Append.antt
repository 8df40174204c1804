-- ===== src/Week06/Vector/Append.antt =====
-- Adding to the vector of week06/src/ds/vector.c.
use networks_course.Prelude.{
  ℕ, suc, ◌+◌, ◌*◌, ◌/◌, ◌<◌, ◌≤◌, ◌≡◌, inl, inr, refl, List, ◌++◌, Option, none, some, ok, fault,
  write, write-ok, length, set, replicate, ◌==◌, arith, Bool-cases, ==_refl, ==_ne, length-take_le,
}
use networks_course.Week06.Vector.{
  Vector, vector_grow_factor, sizeof_pointer, resize, grow, move_up, insert_grown, vector_insert,
  vector_append,
}

write-fault {ℓ} : {A : Type ℓ} (xs : List A) (i : ℕ) (v : A) → length xs ≤ i → write xs i v ≡ fault
unfolding write
write-fault xs i v le = ground (arith, le)

module _ {ℓ} {A : Type ℓ} (usable : ℕ → ℕ) where
  pub move_up-none :
      (fuel i : ℕ) (slots : List (Option A)) → move_up usable (suc fuel) i i slots ≡ ok slots
  unfolding move_up
  move_up-none fuel i slots = ground arith

  grow-room : (v : Vector A) → v.length < v.capacity → grow usable v ≡ v
  unfolding grow
  grow-room v lt = rw (grow, ==_ne v.length v.capacity (λ e. omega arith))

  grow-full :
      (v : Vector A)
      → v.length ≡ v.capacity
      → grow usable v ≡ record v {
        slots = resize usable (v.capacity * vector_grow_factor) v.slots;
        capacity = v.capacity * vector_grow_factor;
      }
  unfolding grow resize
  grow-full v e = rw (grow, e, ==_refl v.capacity)

  pub length-grow : (v : Vector A) → (grow usable v).length ≡ v.length
  unfolding grow
  length-grow v = elim (Bool-cases (v.length == v.capacity)) [
    | inl e ↦ rw e refl
    | inr e ↦ rw e refl
  ]

  insert_grown-end :
      (v : Vector A) (element : A)
      → v.length < length v.slots
      → insert_grown usable v v.length element
        ≡ ok (record v { slots = set v.slots v.length (some element); length = v.length + 1 })
  unfolding insert_grown
  insert_grown-end v element lt = rw (
    insert_grown,
    move_up-none (length v.slots) v.length v.slots,
    write-ok v.slots v.length (some element) lt,
  )

  insert_grown-outside :
      (v : Vector A) (element : A)
      → length v.slots ≤ v.length
      → insert_grown usable v v.length element ≡ fault
  unfolding insert_grown
  insert_grown-outside v element le = rw (
    insert_grown,
    move_up-none (length v.slots) v.length v.slots,
    write-fault v.slots v.length (some element) le,
  )

-- Appending to a vector that has room stores the element behind the others and counts it; the array
-- stays where it is.
vector_append-room {ℓ} :
    {A : Type ℓ} (usable : ℕ → ℕ) (v : Vector A) (element : A)
    → v.length < v.capacity
    → v.capacity ≤ length v.slots
    → vector_append usable v element
      ≡ ok (record v { slots = set v.slots v.length (some element); length = v.length + 1 })
unfolding vector_append vector_insert
vector_append-room usable v element lt le = rw (
  vector_append,
  vector_insert,
  grow-room usable v lt,
  insert_grown-end usable v element (omega arith),
)

-- Appending to a full vector writes out of bounds, unless the allocator gives one more pointer than
-- the vector holds when it is asked for as many bytes as twice the capacity.
pub vector_append-full {ℓ} :
    {A : Type ℓ} (usable : ℕ → ℕ) (v : Vector A) (element : A)
    → v.length ≡ v.capacity
    → usable (v.capacity * vector_grow_factor) / sizeof_pointer ≤ v.length
    → vector_append usable v element ≡ fault
unfolding resize vector_append vector_insert
vector_append-full usable v element full le =
    rw (vector_append, vector_insert, grow-full usable v full)
      (insert_grown-outside usable
        (record v {
          slots = resize usable (v.capacity * vector_grow_factor) v.slots;
          capacity = v.capacity * vector_grow_factor;
        })
        element
        (omega (
          arith,
          le,
          length-take_le (usable (v.capacity * vector_grow_factor) / sizeof_pointer) (
              v.slots
              ++ replicate (usable (v.capacity * vector_grow_factor) / sizeof_pointer) none),
        )))
