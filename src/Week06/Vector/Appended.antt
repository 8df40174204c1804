-- ===== src/Week06/Vector/Appended.antt =====
-- What a vector of week06/src/ds/vector.c holds after an element was added to it.
use networks_course.Prelude.{
  ℕ, suc, ◌+◌, ◌*◌, ◌/◌, ◌<◌, ◌≤◌, ◌≡◌, inl, inr, refl, sym, ap, subst, ◌∙◌, List, ◌++◌, Option,
  none, some, ok, write, ok-injective, >>=-eq-ok, >>-eq-ok, length, get_elem?, set, replicate, ltb,
  ◌==◌, arith, get_elem?-set_self, get_elem?-set_ne, Bool-cases, ltb→lt, get_elem?-append,
  get_elem?-take, length-take_le,
}
use networks_course.Week06.Vector.Append.{move_up-none, length-grow}
use networks_course.Week06.Vector.{
  Vector, vector_grow_factor, sizeof_pointer, resize, grow, move_up, insert_grown, vector_insert,
  vector_append,
}

pub record Appended {ℓ} {A : Type ℓ} (v v' : Vector A) (element : A) : Type ℓ where
  pub counted : v'.length ≡ v.length + 1
  pub others : (i : ℕ) → i < v.length → get_elem? v'.slots i ≡ get_elem? v.slots i
  pub last : get_elem? v'.slots v.length ≡ some (some element)

write-Written {ℓ} :
    {A : Type ℓ} (xs ys : List A) (i : ℕ) (v : A)
    → write xs i v ≡ ok ys
    → (i < length xs) × (set xs i v ≡ ys)
unfolding write
write-Written xs ys i v h =
    let (inside, k) = >>-eq-ok (ltb i (length xs)) _ h in
    (ltb→lt i (length xs) inside, ok-injective k)

module _ {ℓ} {A : Type ℓ} (usable : ℕ → ℕ) where
  resize-keeps :
      (bytes n i : ℕ) (slots : List (Option A))
      → n ≤ length slots
      → n < length (resize usable bytes slots)
      → i < n
      → get_elem? (resize usable bytes slots) i ≡ get_elem? slots i
  unfolding resize
  resize-keeps bytes n i slots le room h =
      let pointers = usable bytes / sizeof_pointer in
      let nulls : List (Option A) = replicate pointers none in
      get_elem?-take pointers (slots ++ nulls) i
        (omega (arith, room, h, length-take_le pointers (slots ++ nulls)))
      ∙ get_elem?-append slots nulls i (omega arith)

  -- What growing keeps, as far as there is room.
  grow-keeps :
      (v : Vector A) (i : ℕ)
      → v.length ≤ length v.slots
      → v.length < length ((grow usable v).slots)
      → i < v.length
      → get_elem? ((grow usable v).slots) i ≡ get_elem? v.slots i
  unfolding grow
  grow-keeps v i le room h = elim (Bool-cases (v.length == v.capacity)) [
    | inl e ↦
        let grown : grow usable v ≡ record v {
          slots = resize usable (v.capacity * vector_grow_factor) v.slots;
          capacity = v.capacity * vector_grow_factor;
        } =
          rw e refl in
        ap (λ x. get_elem? x.slots i) grown
        ∙ resize-keeps (v.capacity * vector_grow_factor) v.length i v.slots le
            (subst (λ x. v.length < length x.slots) grown room) h
    | inr e ↦ let same : grow usable v ≡ v = rw e refl in ap (λ x. get_elem? x.slots i) same
  ]

  pub vector_append-Appended :
      (v v' : Vector A) (element : A)
      → v.length ≤ length v.slots
      → vector_append usable v element ≡ ok v'
      → Appended v v' element
  unfolding vector_append vector_insert insert_grown
  vector_append-Appended v v' element le h =
      let g = grow usable v in
      let n = length-grow usable v in
      let (slots, e1, k1) =
        >>=-eq-ok (move_up usable (suc (length g.slots)) g.length v.length g.slots) _ h in
      let (slots', e2, k2) = >>=-eq-ok (write slots v.length (some element)) _ k1 in
      let moved =
        ap (λ l. move_up usable (suc (length g.slots)) l v.length g.slots) n
        ∙ move_up-none usable (length g.slots) v.length g.slots in
      let same : g.slots ≡ slots = ok-injective (sym moved ∙ e1) in
      let (inside, stored) = write-Written slots slots' v.length (some element) e2 in
      let e = ok-injective k2 in
      record {
        counted = ap (λ x. x.length) (sym e) ∙ ap (λ l. l + 1) n;
        others = λ i lt.
            ap (λ x. get_elem? x.slots i) (sym e)
            ∙ ap (λ l. get_elem? l i) (sym stored)
            ∙ get_elem?-set_ne slots v.length i (some element) (λ q. omega (arith, q))
            ∙ ap (λ l. get_elem? l i) (sym same)
            ∙ grow-keeps v i le (subst (λ l. v.length < length l) (sym same) inside) lt;
        last =
            ap (λ x. get_elem? x.slots v.length) (sym e)
            ∙ ap (λ l. get_elem? l v.length) (sym stored)
            ∙ get_elem?-set_self slots v.length (some element) inside;
      }
