-- ===== src/Week01/Shell/Words.antt =====
-- `split_command_arguments` of week01/ex1.c on a typed line: a word, or two words with a space
-- between them.
use networks_course.Prelude.{
  ℕ, ◌+◌, ◌<◌, ◌≤◌, ◌≡◌, ◌≢◌, refl, sym, ap, ap₂, ◌∙◌, Bytes, false, List, [], ◌∷◌, ◌++◌,
  append-nil, append_assoc, Option, none, some, ok, read, write-ok, length, c_str, IsText,
  c_str-append, ◌==◌, arith, length-append, ==_ne, get_elem?-middle, set-middle, SplitAt, split_at,
}
use networks_course.Week01.Shell.{store, split_from, split_command_arguments}

-- A byte that is kept by `split_command_arguments`.
abbrev pub IsKept : ℕ → Type 0
IsKept c = (0 < c) × (c ≢ 32) × (c ≢ 10)

abbrev pub IsWord : Bytes → Type 0
IsWord [] = Unit {0}
IsWord (c ∷ cs) = IsKept c × IsWord cs

pub IsWord-IsText : (w : Bytes) → IsWord w → IsText w
IsWord-IsText [] h = tt
IsWord-IsText (c ∷ w) ((pos', _, _), h) = (pos', IsWord-IsText w h)

-- A line of a command and perhaps an argument.
pub record Line : Type 0 where
  pub name : Bytes
  pub argument : Option Bytes

abbrev pub argument_text : Option Bytes → Bytes
argument_text none = []
argument_text (some a) = 32 ∷ a

abbrev pub write_line : Line → Bytes
write_line line = line.name ++ (argument_text line.argument ++ 10 ∷ [])

abbrev pub argument_or : Bytes → Option Bytes → Bytes
argument_or old none = old
argument_or old (some a) = a

abbrev pub IsArgument : Option Bytes → Type 0
IsArgument none = Unit {0}
IsArgument (some a) = IsWord a

-- It fits the buffer of `fgets`.
pub record IsLine (line : Line) : Type 0 where
  pub name_word : IsWord line.name
  pub argument_word : IsArgument line.argument
  pub fits : length (write_line line) ≤ 1023

-- The two arrays.
pub record Arrays (split_command : List Bytes) (name argument : Bytes) : Type 0 where
  pub first : Bytes
  pub second : Bytes
  pub both : split_command ≡ first ∷ second ∷ []
  pub first_room : length first ≡ 1024
  pub second_room : length second ≡ 1024
  pub named : c_str first ≡ name
  pub argued : c_str second ≡ argument

length-middle : (a b : Bytes) (x y : ℕ) → length (a ++ x ∷ b) ≡ length (a ++ y ∷ b)
length-middle a b x y = omega (arith, length-append a (x ∷ b), length-append a (y ∷ b))

module _ (pre post : List Bytes) where
  store-middle :
      (done tail : Bytes) (x c : ℕ)
      → store (pre ++ (done ++ x ∷ tail) ∷ post) (length pre) (length done) c
        ≡ ok (pre ++ (done ++ c ∷ tail) ∷ post)
  unfolding store read
  store-middle done tail x c =
      let room : length done < length (done ++ x ∷ tail) =
        omega (arith, length-append done (x ∷ tail)) in
      rw
        (
          get_elem?-middle pre post (done ++ x ∷ tail),
          write-ok (done ++ x ∷ tail) (length done) c room,
          set-middle done tail x c,
          set-middle pre post (done ++ x ∷ tail) (done ++ c ∷ tail),
        )
        refl

  -- The bytes of a word are put behind what is there.
  split_from-word :
      (w cs done over tail : Bytes)
      → IsWord w
      → length over ≡ length w
      → split_from (w ++ cs) (pre ++ (done ++ (over ++ tail)) ∷ post) (length pre) (length done)
        ≡ split_from cs (pre ++ ((done ++ w) ++ tail) ∷ post) (length pre) (length (done ++ w))
  unfolding split_from
  split_from-word [] cs done [] tail h e =
      ap (λ l. split_from cs (pre ++ (l ++ tail) ∷ post) (length pre) (length l))
        (sym (append-nil done))
  split_from-word [] cs done (x ∷ over) tail h e = absurd (omega (arith, e))
  split_from-word (c ∷ w) cs done [] tail h e = absurd (omega (arith, e))
  split_from-word (c ∷ w) cs done (x ∷ over) tail ((p, ne, ne'), h) e =
      let nz : (c == 0) ≡ false = ==_ne c 0 (λ z. omega (arith, z, p)) in
      let next : done ++ c ∷ (over ++ tail) ≡ (done ++ c ∷ []) ++ (over ++ tail) =
        sym (append_assoc done (c ∷ []) (over ++ tail)) in
      let count : length done + 1 ≡ length (done ++ c ∷ []) =
        omega (arith, length-append done (c ∷ [])) in
      rw (nz, ==_ne c 32 ne, ==_ne c 10 ne', store-middle done (over ++ tail) x c)
        (ap₂ (λ l n. split_from (w ++ cs) (pre ++ l ∷ post) (length pre) n) next count
          ∙ split_from-word w cs (done ++ c ∷ []) over tail h (omega (arith, e))
          ∙ ap (λ l. split_from cs (pre ++ (l ++ tail) ∷ post) (length pre) (length l))
              (append_assoc done (c ∷ []) w))

-- A newline is passed over, and the terminator ends the word.
split_from-end :
    (pre post : List Bytes) (done rest tail : Bytes) (x : ℕ)
    → split_from (10 ∷ 0 ∷ rest) (pre ++ (done ++ x ∷ tail) ∷ post) (length pre) (length done)
      ≡ ok (pre ++ (done ++ 0 ∷ tail) ∷ post)
unfolding split_from
split_from-end pre post done rest tail x = store-middle pre post done tail x 0

split_from-space :
    (cs : Bytes) (second : Bytes) (done tail : Bytes) (x : ℕ)
    → split_from (32 ∷ cs) ((done ++ x ∷ tail) ∷ second ∷ []) 0 (length done)
      ≡ split_from cs ((done ++ 0 ∷ tail) ∷ second ∷ []) 1 0
unfolding split_from
split_from-space cs second done tail x = rw (store-middle [] (second ∷ []) done tail x 0) refl

length-filled :
    (xs w : Bytes) (s : SplitAt xs (length w)) → length xs ≡ 1024 → length (w ++ 0 ∷ s.back) ≡ 1024
length-filled xs w s h = omega (
  arith,
  h,
  ap length s.whole,
  s.counted,
  length-append w (0 ∷ s.back),
  length-append s.front (s.middle ∷ s.back),
)

-- A word at the end of a line.
split_from-last :
    (pre post : List Bytes) (xs w rest : Bytes) (s : SplitAt xs (length w))
    → IsWord w
    → split_from (w ++ 10 ∷ 0 ∷ rest) (pre ++ xs ∷ post) (length pre) 0
      ≡ ok (pre ++ (w ++ 0 ∷ s.back) ∷ post)
split_from-last pre post xs w rest s h =
    ap (λ l. split_from (w ++ 10 ∷ 0 ∷ rest) (pre ++ l ∷ post) (length pre) 0) s.whole
    ∙ split_from-word pre post w (10 ∷ 0 ∷ rest) [] s.front (s.middle ∷ s.back) h s.counted
    ∙ split_from-end pre post w rest s.back s.middle

-- A word that a space ends.
split_from-first :
    (second xs w cs : Bytes) (s : SplitAt xs (length w))
    → IsWord w
    → split_from (w ++ 32 ∷ cs) (xs ∷ second ∷ []) 0 0
      ≡ split_from cs ((w ++ 0 ∷ s.back) ∷ second ∷ []) 1 0
split_from-first second xs w cs s h =
    ap (λ l. split_from (w ++ 32 ∷ cs) (l ∷ second ∷ []) 0 0) s.whole
    ∙ split_from-word [] (second ∷ []) w (32 ∷ cs) [] s.front (s.middle ∷ s.back) h s.counted
    ∙ split_from-space cs second w s.back s.middle

-- What a line leaves in the two arrays.
pub record Written (line : Line) (rest old : Bytes) (split_command : List Bytes) : Type 0 where
  pub split_command' : List Bytes
  pub splits :
      split_command_arguments (write_line line ++ 0 ∷ rest) split_command ≡ ok split_command'
  pub arrays : Arrays split_command' line.name (argument_or old line.argument)

with_name :
    (name rest old_name old : Bytes) (split_command : List Bytes)
    → IsWord name
    → length (name ++ 10 ∷ []) ≤ 1023
    → Arrays split_command old_name old
    → Written (record { name = name; argument = none }) rest old split_command
unfolding split_command_arguments
with_name name rest old_name old split_command h le a =
    let s =
      split_at a.first (length name)
        (omega (arith, le, a.first_room, length-append name (10 ∷ []))) in
    record {
      split_command' = (name ++ 0 ∷ s.back) ∷ a.second ∷ [];
      splits =
          ap₂ (λ c l. split_from c l 0 0) (append_assoc name (10 ∷ []) (0 ∷ rest)) a.both
          ∙ split_from-last [] (a.second ∷ []) a.first name rest s h;
      arrays = record {
        first = name ++ 0 ∷ s.back;
        second = a.second;
        both = refl;
        first_room = length-filled a.first name s a.first_room;
        second_room = a.second_room;
        named = c_str-append name s.back (IsWord-IsText name h);
        argued = a.argued;
      };
    }

with_argument :
    (name argument rest old_name old : Bytes) (split_command : List Bytes)
    → IsWord name
    → IsWord argument
    → length (name ++ 32 ∷ (argument ++ 10 ∷ [])) ≤ 1023
    → Arrays split_command old_name old
    → Written (record { name = name; argument = some argument }) rest old split_command
unfolding split_command_arguments
with_argument name argument rest old_name old split_command h h' le a =
    let size = length-append name (32 ∷ (argument ++ 10 ∷ [])) in
    let size' = length-append argument (10 ∷ []) in
    let s = split_at a.first (length name) (omega (arith, le, a.first_room, size)) in
    let s' = split_at a.second (length argument) (omega (arith, le, a.second_room, size, size')) in
    let words : (name ++ 32 ∷ (argument ++ 10 ∷ [])) ++ 0 ∷ rest
        ≡ name ++ 32 ∷ (argument ++ 10 ∷ 0 ∷ rest) =
      append_assoc name (32 ∷ (argument ++ 10 ∷ [])) (0 ∷ rest)
      ∙ ap (λ l. name ++ 32 ∷ l) (append_assoc argument (10 ∷ []) (0 ∷ rest)) in
    record {
      split_command' = (name ++ 0 ∷ s.back) ∷ (argument ++ 0 ∷ s'.back) ∷ [];
      splits =
          ap₂ (λ c l. split_from c l 0 0) words a.both
          ∙ split_from-first a.second a.first name (argument ++ 10 ∷ 0 ∷ rest) s h
          ∙ split_from-last ((name ++ 0 ∷ s.back) ∷ []) [] a.second argument rest s' h';
      arrays = record {
        first = name ++ 0 ∷ s.back;
        second = argument ++ 0 ∷ s'.back;
        both = refl;
        first_room = length-filled a.first name s a.first_room;
        second_room = length-filled a.second argument s' a.second_room;
        named = c_str-append name s.back (IsWord-IsText name h);
        argued = c_str-append argument s'.back (IsWord-IsText argument h');
      };
    }

with_argument_or_none :
    (name : Bytes) (argument : Option Bytes) (rest old_name old : Bytes)
    (split_command : List Bytes)
    → IsLine (record { name = name; argument = argument })
    → Arrays split_command old_name old
    → Written (record { name = name; argument = argument }) rest old split_command
with_argument_or_none name none rest old_name old split_command h a =
    with_name name rest old_name old split_command h.name_word h.fits a
with_argument_or_none name (some argument) rest old_name old split_command h a =
    with_argument name argument rest old_name old split_command h.name_word h.argument_word h.fits a

pub write_line-Written :
    (line : Line) (rest old_name old : Bytes) (split_command : List Bytes)
    → IsLine line
    → Arrays split_command old_name old
    → Written line rest old split_command
write_line-Written line = with_argument_or_none line.name line.argument
