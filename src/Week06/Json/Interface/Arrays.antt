-- ===== src/Week06/Json/Interface/Arrays.antt =====
-- Arrays of week06/src/ds/json/interface.c that are built element by element, and read by index.
use mathlib.Core.Option.{some-injective}
use networks_course.Prelude.{
  ℕ, zero, suc, ◌<◌, ◌≤◌, ◌≡◌, ◌⊎◌, inl, inr, refl, sym, ap, ◌∙◌, false, List, [], ◌∷◌, ◌++◌,
  Option, none, some, ok, read, ok-injective, >>=-eq-ok, length, get_elem?, ltb, arith,
  length-append, get_elem?-lt, ltb_not_lt,
}
use networks_course.Week06.Machine.{Machine}
use networks_course.Week06.Vector.{
  Vector, vector_create, vector_append, vector_index, vector_length,
}
use networks_course.Week06.Vector.Appended.{vector_append-Appended}
use networks_course.Week06.Json.Value.{Json, to_slots, of_slots, of_vector, array_value}
use networks_course.Week06.Json.Interface.{
  json_array_length, json_array_index, create_json_array, json_array_append,
}

-- An array with certain elements.
pub record Listed (list : Json) (values : List Json) : Type 0 where
  pub vector : Vector Json
  pub is_array : array_value list ≡ ok vector
  pub counted : vector.length ≡ length values
  pub room : vector.length ≤ length vector.slots
  pub holds :
      (i : ℕ) (v : Json) → get_elem? values i ≡ some v → get_elem? vector.slots i ≡ some (some v)

to_slots-of_slots : (slots : List (Option Json)) → to_slots (of_slots slots) ≡ slots
to_slots-of_slots [] = refl
to_slots-of_slots (none ∷ slots) = ap (λ s. none ∷ s) (to_slots-of_slots slots)
to_slots-of_slots (some v ∷ slots) = ap (λ s. some v ∷ s) (to_slots-of_slots slots)

array_value-of_vector : (v : Vector Json) → array_value (of_vector v) ≡ ok v
array_value-of_vector v =
    ap (λ s. ok (record { slots = s; length = v.length; capacity = v.capacity }))
      (to_slots-of_slots v.slots)

pub create_json_array-Listed : (m : Machine) → Listed (create_json_array m) []
unfolding create_json_array vector_create
create_json_array-Listed m = record {
  vector = vector_create m.usable;
  is_array = array_value-of_vector (vector_create m.usable);
  counted = refl;
  room = omega arith;
  holds = λ i v e. cc;
}

-- An element of a list with one more at its end.
end-cases {ℓ} :
    {A : Type ℓ} (xs : List A) (x : A) (i : ℕ) {a : A}
    → get_elem? (xs ++ x ∷ []) i ≡ some a
    → ((i < length xs) × (get_elem? xs i ≡ some a)) ⊎ ((i ≡ length xs) × (x ≡ a))
end-cases [] x zero e = inr (refl, some-injective _ _ e)
end-cases [] x (suc i) e = cc
end-cases (y ∷ xs) x zero e = inl (omega arith, e)
end-cases (y ∷ xs) x (suc i) e = elim (end-cases xs x i e) [
  | inl (lt, e') ↦ inl (omega arith, e')
  | inr (last, e') ↦ inr (ap suc last, e')
]

pub json_array_append-Listed :
    (m : Machine) (list list' x : Json) (values : List Json)
    → Listed list values
    → json_array_append m list x ≡ ok list'
    → Listed list' (values ++ x ∷ [])
unfolding json_array_append
json_array_append-Listed m list list' x values l h =
    let (v, e, k) = >>=-eq-ok (array_value list) _ h in
    let (v', e', k') = >>=-eq-ok (vector_append m.usable v x) _ k in
    let same : l.vector ≡ v = ok-injective (sym l.is_array ∙ e) in
    let a =
      vector_append-Appended m.usable l.vector v' x l.room
        (ap (λ w. vector_append m.usable w x) same ∙ e') in
    record {
      vector = v';
      is_array = ap array_value (sym (ok-injective k')) ∙ array_value-of_vector v';
      counted = omega (arith, a.counted, l.counted, length-append values (x ∷ []));
      room = omega (arith, a.counted, get_elem?-lt v'.slots l.vector.length a.last);
      holds = λ i w found. elim (end-cases values x i found) [
        | inl (lt, old) ↦ a.others i (omega (arith, l.counted)) ∙ l.holds i w old
        | inr (last, new) ↦
            ap (get_elem? v'.slots) (last ∙ sym l.counted) ∙ a.last ∙ ap (λ y. some (some y)) new
      ];
    }

pub json_array_index-Listed :
    (list : Json) (values : List Json) (i : ℕ) (v : Json)
    → Listed list values
    → get_elem? values i ≡ some v
    → json_array_index list i ≡ ok (some v)
unfolding json_array_index vector_index read
json_array_index-Listed list values i v l e =
    let lt = get_elem?-lt values i e in
    let inside : ltb l.vector.length i ≡ false =
      ltb_not_lt l.vector.length i (omega (arith, lt, l.counted)) in
    rw (l.is_array, inside, l.holds i v e) refl

pub json_array_length-Listed :
    (list : Json) (values : List Json)
    → Listed list values
    → json_array_length list ≡ ok (length values)
unfolding json_array_length vector_length
json_array_length-Listed list values l = rw l.is_array (ap ok l.counted)
