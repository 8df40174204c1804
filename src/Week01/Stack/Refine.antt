-- ===== src/Week01/Stack/Refine.antt =====
-- The stack of week01/ex1.c is a list that is pushed and popped at its end, of at most 1024 numbers.
use native.Mathlib.Numerals.{add-one}
use networks_course.Prelude.{
  ℕ, zero, suc, ◌+◌, ◌-◌, ◌<◌, ◌≤◌, ◌≡◌, inl, inr, refl, sym, ap, ◌∙◌, ℤ, pos, negsuc, List, [],
  ◌∷◌, ◌++◌, some, ok, read, write-ok, length, get_elem?, get_or, set, take, leb, ◌==◌,
  if◌then◌else◌, arith, length-set, length-take, get_elem?-IsSome, get_or-get_elem?, Bool-cases,
}
use networks_course.Week01.Stack.{
  CustomStack, stack_max_size, stack_create, stack_size, stack_display, stack_empty, stack_pop,
  stack_push, stack_peek, Command, create, push, pop, display, peek, empty, size, unknown,
  child_step, child,
}

-- The abstract stack, its top at the end: what is printed, and the stack afterwards.
unfoldable pub abstract_step : Command → List ℤ → List ℤ × List ℤ
abstract_step (create arr) xs = ([], [])
abstract_step (push value) xs = ([], (if leb 1024 (length xs) then xs else xs ++ value ∷ []))
abstract_step pop xs = ([], take (length xs - 1) xs)
abstract_step display xs = (xs, xs)
abstract_step peek xs = (get_or xs (length xs - 1) (negsuc 0) ∷ [], xs)
abstract_step empty xs = ((if length xs == 0 then negsuc 0 else pos 0) ∷ [], xs)
abstract_step size xs = (pos (length xs) ∷ [], xs)
abstract_step unknown xs = ([], xs)

unfoldable pub abstract_run : List Command → List ℤ → List ℤ × List ℤ
abstract_run [] xs = ([], xs)
abstract_run (c ∷ cs) xs =
    let r = abstract_step c xs in let rs = abstract_run cs (r.1) in (r.0 ++ rs.0, rs.1)

-- A stack stands for the list of its elements.
pub record Stands (s : CustomStack) (xs : List ℤ) : Type 0 where
  pub allocated : length s.arr ≡ stack_max_size
  pub room : s.next_element ≤ stack_max_size
  pub elements : take s.next_element s.arr ≡ xs

-- `malloc` gives room for the whole array.
unfoldable pub Allocated : Command → Type 0
Allocated (create arr) = length arr ≡ stack_max_size
Allocated _ = Unit {0}

unfoldable pub AllAllocated : List Command → Type 0
AllAllocated [] = Unit {0}
AllAllocated (c ∷ cs) = Allocated c × AllAllocated cs

take-set-suc {ℓ} :
    {A : Type ℓ} (n : ℕ) (xs : List A) (v : A)
    → n < length xs
    → take (suc n) (set xs n v) ≡ take n xs ++ v ∷ []
take-set-suc n [] v h = absurd (omega arith)
take-set-suc zero (x ∷ xs) v h = refl
take-set-suc (suc n) (x ∷ xs) v h = ap (λ l. x ∷ l) (take-set-suc n xs v (omega arith))

take-set {ℓ} :
    {A : Type ℓ} (n : ℕ) (xs : List A) (v : A)
    → n < length xs
    → take (n + 1) (set xs n v) ≡ take n xs ++ v ∷ []
take-set n xs v h = rw (add-one n) (take-set-suc n xs v h)

get_or-empty {ℓ} : {A : Type ℓ} (xs : List A) (i : ℕ) (d : A) → length xs ≡ 0 → get_or xs i d ≡ d
get_or-empty [] i d h = refl
get_or-empty (x ∷ xs) i d h = absurd (omega arith)

take-take {ℓ} : {A : Type ℓ} (k n : ℕ) (xs : List A) → k ≤ n → take k (take n xs) ≡ take k xs
take-take zero n xs h = refl
take-take (suc k) zero xs h = absurd (omega arith)
take-take (suc k) (suc n) [] h = refl
take-take (suc k) (suc n) (x ∷ xs) h = ap (λ l. x ∷ l) (take-take k n xs (omega arith))

get_elem?-take {ℓ} :
    {A : Type ℓ} (k n : ℕ) (xs : List A) → k < n → get_elem? (take n xs) k ≡ get_elem? xs k
get_elem?-take k zero xs h = absurd (omega arith)
get_elem?-take k (suc n) [] h = refl
get_elem?-take zero (suc n) (x ∷ xs) h = refl
get_elem?-take (suc k) (suc n) (x ∷ xs) h = get_elem?-take k n xs (omega arith)

module _ (s : CustomStack) (xs : List ℤ) (r : Stands s xs) where
  count : length xs ≡ s.next_element
  count =
      ap length (sym r.elements)
      ∙ length-take s.next_element s.arr (omega (arith, r.allocated, r.room))

  record Answers (c : Command) : Type 0 where
    pub s' : CustomStack
    pub step_ok : child_step c (some s) ≡ ok ((abstract_step c xs).0, some s')
    pub stands : Stands s' ((abstract_step c xs).1)

  push-Answers : (value : ℤ) → Answers (push value)
  unfolding child_step stack_push abstract_step
  push-Answers value = elim (Bool-cases (leb stack_max_size s.next_element)) [
    | inl e ↦ record { s' = s; step_ok = rw e refl; stands = rw (count, e) r }
    | inr e ↦
        (let lt : s.next_element < stack_max_size = ground (arith, e) in
          record {
            s' = record { arr = set s.arr s.next_element value; next_element = s.next_element + 1 };
            step_ok =
                rw (e, write-ok s.arr s.next_element value (omega (arith, lt, r.allocated))) refl;
            stands =
                rw (count, e)
                  (record {
                    allocated = length-set s.arr s.next_element value ∙ r.allocated;
                    room = omega (arith, lt);
                    elements =
                        take-set s.next_element s.arr value (omega (arith, lt, r.allocated))
                        ∙ ap (λ l. l ++ value ∷ []) r.elements;
                  });
          })
  ]

  pop-Answers : Answers pop
  unfolding child_step stack_pop abstract_step
  pop-Answers = elim (Bool-cases (s.next_element == 0)) [
    | inl e ↦
        (let z : s.next_element ≡ 0 = ground (arith, e) in
          record {
            s' = s;
            step_ok = rw e refl;
            stands = record {
              allocated = r.allocated;
              room = r.room;
              elements = rw (count, z) refl;
            };
          })
    | inr e ↦ record {
      s' = record s { next_element = s.next_element - 1 };
      step_ok = rw e refl;
      stands = record {
        allocated = r.allocated;
        room = omega (arith, r.room);
        elements = rw count (
            sym (take-take (s.next_element - 1) s.next_element s.arr (omega arith))
            ∙ ap (take (s.next_element - 1)) r.elements);
      };
    }
  ]

  peek-Answers : Answers peek
  unfolding child_step stack_peek abstract_step read
  peek-Answers = elim (Bool-cases (s.next_element == 0)) [
    | inl e ↦
        (let z : s.next_element ≡ 0 = ground (arith, e) in
          record {
            s' = s;
            step_ok = rw (e, get_or-empty xs (length xs - 1) (negsuc 0) (count ∙ z)) refl;
            stands = r;
          })
    | inr e ↦
        (let ne : 0 < s.next_element = ground (arith, e) in
          let (v, ev) =
            get_elem?-IsSome s.arr (s.next_element - 1) (omega (arith, ne, r.allocated, r.room)) in
          let top : get_elem? xs (s.next_element - 1) ≡ some v =
            ap (λ l. get_elem? l (s.next_element - 1)) (sym r.elements)
            ∙ get_elem?-take (s.next_element - 1) s.next_element s.arr (omega (arith, ne))
            ∙ ev in
          record {
            s' = s;
            step_ok =
                rw (e, ev, count, get_or-get_elem? xs (s.next_element - 1) (negsuc 0) top) refl;
            stands = r;
          })
  ]

  step-Answers : (c : Command) → Allocated c → Answers c
  unfolding child_step abstract_step stack_create stack_display stack_empty stack_size Allocated
  step-Answers (create arr) h = record {
    s' = stack_create arr;
    step_ok = refl;
    stands = record { allocated = h; room = omega arith; elements = refl };
  }
  step-Answers (push value) h = push-Answers value
  step-Answers pop h = pop-Answers
  step-Answers display h = record { s' = s; step_ok = rw (r.elements) refl; stands = r }
  step-Answers peek h = peek-Answers
  step-Answers empty h = record { s' = s; step_ok = rw (count) refl; stands = r }
  step-Answers size h = record { s' = s; step_ok = rw (count) refl; stands = r }
  step-Answers unknown h = record { s' = s; step_ok = refl; stands = r }

-- Whatever commands arrive, and in whatever order, a child that has a stack prints what the abstract
-- stack prints, and its stack stands for the abstract one afterwards: no command reads or writes out
-- of bounds, and the pushes beyond 1024 numbers and the pops of an empty stack have no effect. Assumed
-- is that `malloc` gives the arrays that were asked for.
pub child-abstract_run :
    (cs : List Command) (s : CustomStack) (xs : List ℤ)
    → Stands s xs
    → AllAllocated cs
    → (s' : CustomStack) × (child cs (some s) ≡ ok ((abstract_run cs xs).0, some s'))
      × Stands s' ((abstract_run cs xs).1)
unfolding child abstract_run AllAllocated
child-abstract_run [] s xs r h = (s, refl, r)
child-abstract_run (c ∷ cs) s xs r (h, hs) =
    let a = step-Answers s xs r c h in
    let (s', e, r') = child-abstract_run cs a.s' _ a.stands hs in (s', rw (a.step_ok, e) refl, r')
