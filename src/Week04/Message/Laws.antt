-- ===== src/Week04/Message/Laws.antt =====
-- The greeting of week04/server.c and week05/server.c: what a struct that a client sends is answered.
use networks_course.Prelude.{
  ℕ, zero, suc, ◌+◌, ◌/◌, ◌%◌, ◌^◌, ◌<◌, ◌≤◌, ◌≡◌, inl, inr, refl, sym, ap, ◌∙◌, Bytes, true, [],
  ◌∷◌, ◌++◌, append_assoc, ok, length, take, drop, codes, c_str, IsText, c_str-append, ltb, arith,
  length-append, drop-append, take-append, Bool-cases,
}
use networks_course.Week06d.Wire.{to_le, from_le, strcpy}
use networks_course.Week06d.Wire.Laws.{length-to_le, from_le-to_le_four, strcpy-ok}
use networks_course.Week06.Json.Serializer.{decimal}
use networks_course.Week04.Message.{
  TestStruct, Student, field_size, message_size, struct_bytes, enter, terminated, read_string,
  greeting, greet,
}

-- An array that holds a text.
pub record Holds (size : ℕ) (area text : Bytes) : Type 0 where
  pub sized : length area ≡ size
  pub tail : Bytes
  pub layout : area ≡ text ++ 0 ∷ tail
  pub is_text : IsText text

pub strcpy-Holds :
    (dest s : Bytes)
    → length s < length dest
    → IsText s
    → (area : Bytes) × (strcpy dest s ≡ ok area) × Holds (length dest) area s
strcpy-Holds dest s h t =
    let (area, run, c) = strcpy-ok dest s h in
    (area, run, record { sized = c.size; tail = c.tail; layout = c.layout; is_text = t })

terminated-append : (s rest : Bytes) → terminated (s ++ 0 ∷ rest) ≡ true
unfolding terminated
terminated-append [] rest = refl
terminated-append (c ∷ cs) rest = ground (arith, terminated-append cs rest)

pub read_string-Holds :
    {size : ℕ} {area text : Bytes} (rest : Bytes)
    → Holds size area text
    → read_string (area ++ rest) ≡ ok text
unfolding read_string
read_string-Holds {size} {area} {text} rest f =
    rw
      (
        f.layout,
        append_assoc,
        terminated-append text (f.tail ++ rest),
        c_str-append text (f.tail ++ rest) f.is_text,
      )
      refl

pub c_str-Holds : {size : ℕ} {area text : Bytes} → Holds size area text → c_str area ≡ text
c_str-Holds {size} {area} {text} f = rw f.layout (c_str-append text f.tail f.is_text)

pub length-decimal_le : (fuel n : ℕ) → length (decimal fuel n) ≤ fuel
unfolding decimal
length-decimal_le zero n = omega arith
length-decimal_le (suc fuel) n = elim (Bool-cases (ltb n 10)) [
  | inl e ↦ rw e (omega arith)
  | inr e ↦ rw e (
      omega (
        arith,
        length-append (decimal fuel (n / 10)) ((48 + n % 10) ∷ []),
        length-decimal_le fuel (n / 10),
      ))
]

pub IsText-append : (s t : Bytes) → IsText s → IsText t → IsText (s ++ t)
IsText-append [] t h k = k
IsText-append (c ∷ cs) t h k = (h.0, IsText-append cs t h.1 k)

pub IsText-decimal : (fuel n : ℕ) → IsText (decimal fuel n)
unfolding decimal
IsText-decimal zero n = tt
IsText-decimal (suc fuel) n = elim (Bool-cases (ltb n 10)) [
  | inl e ↦ rw e (omega arith, tt)
  | inr e ↦ rw e (
      IsText-append (decimal fuel (n / 10)) ((48 + n % 10) ∷ []) (IsText-decimal fuel (n / 10))
        (omega arith, tt))
]

-- What a client can send: words that fit the arrays, and an `unsigned`.
pub record IsStudent (student : Student) : Type 0 where
  pub named : 0 < length student.name
  pub name_fits : length student.name < field_size
  pub name_text : IsText student.name
  pub age_fits : student.age < 2 ^ 32
  pub group_fits : length student.group < field_size
  pub group_text : IsText student.group

-- The greeting of a student.
abbrev pub greeting_of : Student → Bytes
greeting_of student = greeting student.name student.age student.group

pub length-greeting :
    (student : Student) → IsStudent student → length (greeting_of student) < message_size
unfolding greeting
length-greeting student h = omega (
  arith,
  h.name_fits,
  h.group_fits,
  length-decimal_le 10 student.age,
  length-append student.name (
      codes ", who is "
      ++ (decimal 10 student.age
          ++ (codes " years old, and studies in " ++ (student.group ++ codes " group\n")))),
  length-append (decimal 10 student.age)
      (codes " years old, and studies in " ++ (student.group ++ codes " group\n")),
  length-append student.group (codes " group\n"),
)

pub IsText-greeting : (student : Student) → IsStudent student → IsText (greeting_of student)
unfolding greeting
IsText-greeting student h = IsText-append (codes "Hello ") _ (omega arith) (
    IsText-append student.name _ h.name_text (
      IsText-append (codes ", who is ") _ (omega arith) (
        IsText-append (decimal 10 student.age) _ (IsText-decimal 10 student.age) (
          IsText-append (codes " years old, and studies in ") _ (omega arith)
            (IsText-append student.group (codes " group\n") h.group_text (omega arith))))))

-- A struct whose arrays hold what a student entered.
pub record Entered (student : Student) (s : TestStruct) : Type 0 where
  pub name_area : Holds field_size s.name student.name
  pub age_stored : s.age ≡ student.age
  pub group_area : Holds field_size s.group student.group

pub enter-Entered :
    (client_data : TestStruct) (student : Student)
    → length client_data.name ≡ field_size
    → length client_data.group ≡ field_size
    → IsStudent student
    → (s : TestStruct) × (enter client_data student ≡ ok s) × Entered student s
unfolding enter
enter-Entered client_data student n g h =
    let (name, run, a) =
      strcpy-Holds client_data.name student.name (omega (arith, h.name_fits)) h.name_text in
    let (group, run', b) =
      strcpy-Holds client_data.group student.group (omega (arith, h.group_fits)) h.group_text in
    (
      record { name = name; age = student.age % 2 ^ 32; group = group },
      rw (run, run') refl,
      record {
        name_area = record {
          sized = a.sized ∙ n;
          tail = a.tail;
          layout = a.layout;
          is_text = a.is_text;
        };
        age_stored = omega (arith, h.age_fits);
        group_area = record {
          sized = b.sized ∙ g;
          tail = b.tail;
          layout = b.layout;
          is_text = b.is_text;
        };
      },
    )

pub length-struct_bytes :
    (student : Student) (s : TestStruct) → Entered student s → length (struct_bytes s) ≡ 2052
unfolding struct_bytes
length-struct_bytes student s e = omega (
  arith,
  length-append s.name (to_le 4 s.age ++ s.group),
  length-append (to_le 4 s.age) s.group,
  length-to_le 4 s.age,
  e.name_area.sized,
  e.group_area.sized,
)

-- The strings at the offsets of the struct's fields.
pub read_name :
    (student : Student) (s : TestStruct) (rest : Bytes)
    → Entered student s
    → read_string (struct_bytes s ++ rest) ≡ ok student.name
unfolding struct_bytes
read_name student s rest e =
    rw (append_assoc s.name (to_le 4 s.age ++ s.group) rest)
      (read_string-Holds ((to_le 4 s.age ++ s.group) ++ rest) e.name_area)

split_bytes :
    (s : TestStruct) (rest : Bytes)
    → struct_bytes s ++ rest ≡ (s.name ++ to_le 4 s.age) ++ (s.group ++ rest)
unfolding struct_bytes
split_bytes s rest =
    append_assoc s.name (to_le 4 s.age ++ s.group) rest
    ∙ ap (λ l. s.name ++ l) (append_assoc (to_le 4 s.age) s.group rest)
    ∙ sym (append_assoc s.name (to_le 4 s.age) (s.group ++ rest))

-- A struct of a student in a data buffer is answered with the greeting of the student, whatever
-- stands behind it and in the array of the answer.
pub greet-Entered :
    (student : Student) (s : TestStruct) (rest message : Bytes)
    → IsStudent student
    → Entered student s
    → length message ≡ message_size
    → (reply : Bytes) × (greet (struct_bytes s ++ rest) message ≡ ok reply)
      × Holds message_size reply (greeting_of student)
unfolding greet
greet-Entered student s rest message h e m =
    let (reply, run, c) =
      strcpy-Holds message (greeting_of student) (omega (arith, m, length-greeting student h))
        (IsText-greeting student h) in
    (
      reply,
      rw (read_name student s rest e, group_read, age_read) run,
      record { sized = c.sized ∙ m; tail = c.tail; layout = c.layout; is_text = c.is_text },
    )
  where
    size : length (s.name ++ to_le 4 s.age) ≡ 1028
    size =
        omega (arith, length-append s.name (to_le 4 s.age), e.name_area.sized, length-to_le 4 s.age)

    group_read : read_string (drop 1028 (struct_bytes s ++ rest)) ≡ ok student.group
    group_read =
        ap read_string
          (ap (drop 1028) (split_bytes s rest) ∙ drop-append 1028 _ (s.group ++ rest) size)
        ∙ read_string-Holds rest e.group_area

    age_read : from_le (take 4 (drop 1024 (struct_bytes s ++ rest))) ≡ student.age
    age_read =
        ap (λ l. from_le (take 4 (drop 1024 l)))
          (split_bytes s rest ∙ append_assoc s.name (to_le 4 s.age) (s.group ++ rest))
        ∙ ap (λ l. from_le (take 4 l))
            (drop-append 1024 s.name (to_le 4 s.age ++ (s.group ++ rest)) e.name_area.sized)
        ∙ ap from_le (take-append 4 (to_le 4 s.age) (s.group ++ rest) (length-to_le 4 s.age))
        ∙ from_le-to_le_four s.age (omega (arith, e.age_stored, h.age_fits))
        ∙ e.age_stored
