-- ===== src/Week06d/Wire/Laws.antt =====
-- The byte layouts read back what they were made of.
use networks_course.Prelude.{
  ℕ, zero, suc, ◌+◌, ◌-◌, ◌/◌, ◌^◌, ◌<◌, ◌≤◌, min, ◌≡◌, refl, sym, ap, subst, ◌∙◌, Bytes, [], ◌∷◌,
  ◌++◌, append-nil, append_assoc, ok, length, set, take, drop, replicate, c_str, IsText,
  c_str-append, arith, length-append, length-set, length-replicate, length-take, drop-append,
  take-append, lt→ltb,
}
use networks_course.Week06d.Node.{node_name_len}
use networks_course.Week06d.Wire.{
  to_le, from_le, char_array, strcpy, strncpy, name_field, sizeof_node, node_bytes, read_node,
}

pub length-to_le : (k n : ℕ) → length (to_le k n) ≡ k
unfolding to_le
length-to_le zero n = refl
length-to_le (suc k) n = ap suc (length-to_le k (n / 256))

pub from_le-to_le_two : (n : ℕ) → n < 65536 → from_le (to_le 2 n) ≡ n
unfolding to_le from_le
from_le-to_le_two n h = omega arith

pub from_le-to_le_four : (n : ℕ) → n < 2 ^ 32 → from_le (to_le 4 n) ≡ n
unfolding to_le from_le
from_le-to_le_four n h = omega arith

pub length-char_array : (junk : Bytes) → length (char_array junk) ≡ 20
unfolding char_array
length-char_array junk =
    length-take 20 (junk ++ replicate 20 0) (omega (arith, length-append junk (replicate 20 0)))

pub length-drop : (n : ℕ) (xs : Bytes) → length (drop n xs) ≡ length xs - n
length-drop zero xs = omega arith
length-drop (suc n) [] = omega arith
length-drop (suc n) (x ∷ xs) = omega (arith, length-drop n xs)

-- What a `strcpy` that fits writes: the string, its terminator, and what was there before.
pub record Copied (dest s result : Bytes) : Type 0 where
  pub tail : Bytes
  pub layout : result ≡ s ++ 0 ∷ tail
  pub size : length result ≡ length dest

pub strcpy-ok :
    (dest s : Bytes)
    → length s < length dest
    → (result : Bytes) × (strcpy dest s ≡ ok result) × Copied dest s result
unfolding strcpy
strcpy-ok dest s h = (
  s ++ 0 ∷ drop (length s + 1) dest,
  rw (lt→ltb _ _ h),
  record {
    tail = drop (length s + 1) dest;
    layout = refl;
    size =
        omega
          (arith, length-append s (0 ∷ drop (length s + 1) dest), length-drop (length s + 1) dest);
  },
)

set_zeros : (k : ℕ) → set {A = ℕ} (replicate (suc k) 0) k 0 ≡ replicate (suc k) 0
set_zeros zero = refl
set_zeros (suc k) = ap (λ t. 0 ∷ t) (set_zeros k)

-- A string of n - k bytes, padded with k + 1 zeros.
padded :
    (s : Bytes) (k n : ℕ)
    → length s + k ≡ n
    → set (take (suc n) s ++ replicate (suc k) 0) n 0 ≡ s ++ 0 ∷ replicate k 0
padded [] k n e =
    subst (λ m. set {A = ℕ} (replicate (suc k) 0) m 0 ≡ replicate (suc k) 0) e' (set_zeros k)
  where
    e' : k ≡ n
    e' = omega arith
padded (x ∷ xs) k zero e = absurd (omega arith)
padded (x ∷ xs) k (suc n) e = ap (λ t. x ∷ t) (padded xs k n (omega arith))

-- A name that fits its array is followed there by zeros alone.
pub name_field-eq :
    (s : Bytes)
    → length s < node_name_len
    → name_field s ≡ s ++ 0 ∷ replicate (node_name_len - 1 - length s) 0
unfolding name_field
name_field-eq s h =
    let spare : 20 - length s ≡ suc (19 - length s) = omega arith in
    rw spare (padded s (19 - length s) 19 (omega arith))

pub take_all : (n : ℕ) (s : Bytes) → length s ≤ n → take n s ≡ s
take_all zero [] h = refl
take_all zero (x ∷ xs) h = absurd (omega arith)
take_all (suc n) [] h = refl
take_all (suc n) (x ∷ xs) h = ap (λ t. x ∷ t) (take_all n xs (omega arith))

length-take_le : (n : ℕ) (s : Bytes) → length (take n s) ≡ min n (length s)
length-take_le zero s = omega arith
length-take_le (suc n) [] = omega arith
length-take_le (suc n) (x ∷ xs) = omega (arith, length-take_le n xs)

pub length-name_field : (s : Bytes) → length (name_field s) ≡ 20
unfolding name_field
length-name_field s =
    let t = take 20 s in
    let z = replicate {A = ℕ} (20 - length s) 0 in
    omega (
      arith,
      length-set (t ++ z) 19 0,
      length-append t z,
      length-replicate {A = ℕ} (20 - length s) 0,
      length-take_le 20 s,
    )

-- A `char[20]` that holds the string `s`.
pub record IsField (area s : Bytes) : Type 0 where
  pub size : length area ≡ 20
  pub tail : Bytes
  pub layout : area ≡ s ++ 0 ∷ tail
  pub text : IsText s

pub c_str-IsField : {area s : Bytes} (rest : Bytes) → IsField area s → c_str (area ++ rest) ≡ s
c_str-IsField {area} {s} rest f =
    rw (f.layout, append_assoc) (c_str-append s (f.tail ++ rest) f.text)

pub name_field-IsField :
    (s : Bytes) → length s < node_name_len → IsText s → IsField (name_field s) s
name_field-IsField s h t = record {
  size = length-name_field s;
  tail = replicate (node_name_len - 1 - length s) 0;
  layout = name_field-eq s h;
  text = t;
}

pub strncpy-IsField : (s : Bytes) → length s < 20 → IsText s → IsField (strncpy s 20) s
unfolding strncpy
strncpy-IsField s h t =
    let spare : 20 - length s ≡ suc (19 - length s) = omega arith in
    record {
      size = omega (
        arith,
        length-append (take 20 s) (replicate (20 - length s) 0),
        length-take_le 20 s,
        length-replicate {A = ℕ} (20 - length s) 0,
      );
      tail = replicate (19 - length s) 0;
      layout = rw (take_all 20 s (omega arith), spare);
      text = t;
    }

pub strcpy-IsField :
    (dest s : Bytes)
    → length dest ≡ 20
    → length s < 20
    → IsText s
    → (area : Bytes) × (strcpy dest s ≡ ok area) × IsField area s
strcpy-IsField dest s d h t =
    let (area, run, c) = strcpy-ok dest s (omega arith) in
    (area, run, record { size = c.size ∙ d; tail = c.tail; layout = c.layout; text = t })

-- The strings and the port of a `struct node` are read back, whatever follows it.
pub read_node-node_bytes :
    {name_area name ip_area ip : Bytes} (port : ℕ) (rest : Bytes)
    → IsField name_area name
    → IsField ip_area ip
    → port < 65536
    → read_node (node_bytes name_area ip_area port ++ rest)
      ≡ record { name = name; ip = ip; port = port }
unfolding read_node node_bytes
read_node-node_bytes {name_area} {name} {ip_area} {ip} port rest f g p =
    λ i. record { name = first i; ip = second i; port = third i }
  where
    port_bytes : Bytes
    port_bytes = to_le 2 port

    all : Bytes
    all = (name_area ++ (ip_area ++ port_bytes)) ++ rest

    split : all ≡ name_area ++ (ip_area ++ (port_bytes ++ rest))
    split = simp append_assoc

    first : c_str all ≡ name
    first = rw split (c_str-IsField (ip_area ++ (port_bytes ++ rest)) f)

    second : c_str (drop 20 all) ≡ ip
    second =
        ap (λ t. c_str (drop 20 t)) split
        ∙ ap c_str (drop-append 20 name_area (ip_area ++ (port_bytes ++ rest)) f.size)
        ∙ c_str-IsField (port_bytes ++ rest) g

    both : length (name_area ++ ip_area) ≡ 40
    both = omega (arith, length-append name_area ip_area, f.size, g.size)

    third : from_le (take 2 (drop 40 all)) ≡ port
    third =
        ap (λ t. from_le (take 2 (drop 40 t)))
          (split ∙ sym (append_assoc name_area ip_area (port_bytes ++ rest)))
        ∙ ap (λ t. from_le (take 2 t))
            (drop-append 40 (name_area ++ ip_area) (port_bytes ++ rest) both)
        ∙ ap from_le (take-append 2 port_bytes rest (length-to_le 2 port))
        ∙ from_le-to_le_two port p

pub length-node_bytes :
    {name_area name ip_area ip : Bytes} (port : ℕ)
    → IsField name_area name
    → IsField ip_area ip
    → length (node_bytes name_area ip_area port) ≡ sizeof_node
unfolding node_bytes
length-node_bytes {name_area} {name} {ip_area} {ip} port f g = omega (
  arith,
  f.size,
  g.size,
  length-append name_area (ip_area ++ to_le 2 port),
  length-append ip_area (to_le 2 port),
  length-to_le 2 port,
)

-- The port that follows a field.
pub field_then_port :
    {area s : Bytes} (port : ℕ) (rest : Bytes)
    → IsField area s
    → port < 65536
    → (c_str ((area ++ to_le 2 port) ++ rest) ≡ s)
      × (from_le (take 2 (drop 20 ((area ++ to_le 2 port) ++ rest))) ≡ port)
field_then_port {area} {s} port rest f p =
    let split : (area ++ to_le 2 port) ++ rest ≡ area ++ (to_le 2 port ++ rest) =
      append_assoc area (to_le 2 port) rest in
    (
      ap c_str split ∙ c_str-IsField (to_le 2 port ++ rest) f,
      ap (λ t. from_le (take 2 (drop 20 t))) split
          ∙ ap (λ t. from_le (take 2 t)) (drop-append 20 area (to_le 2 port ++ rest) f.size)
          ∙ ap from_le (take-append 2 (to_le 2 port) rest (length-to_le 2 port))
          ∙ from_le-to_le_two port p,
    )

pub c_str-name_field : (s : Bytes) → length s < node_name_len → IsText s → c_str (name_field s) ≡ s
c_str-name_field s h t =
    ap c_str (sym (append-nil (name_field s))) ∙ c_str-IsField [] (name_field-IsField s h t)
