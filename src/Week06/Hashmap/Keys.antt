-- ===== src/Week06/Hashmap/Keys.antt =====
-- Adding to and looking up in the table of week06/src/ds/hashmap.c.
use mathlib.Core.Option.{some-injective}
use networks_course.Prelude.{
  ℕ, zero, suc, ◌≡◌, inl, inr, refl, sym, ap, ◌∙◌, ℤ, Bool, true, false, List, [], ◌∷◌, ◌++◌,
  Option, none, some, ok, access, read, ok-injective, >>=-eq-ok, get_elem?, set, Bool-cases,
}
use networks_course.Hash.{bucket_index}
use networks_course.Week06.Hashmap.{
  Hashmap, or_else, hashmap_look_up_element, look_up_chain, add_to_chain, hashmap_add_element,
  remove_from_chain,
}

module _ {ℓ} {E : Type ℓ} where
  -- No entry of the table looks equal to an element: what the lists hold is not what elements hold.
  abbrev pub NeverEqual : (E → E → Bool) → Type ℓ
  NeverEqual compare_entry = (value element : E) → compare_entry value element ≡ false

  module _ (compare_entry : E → E → Bool) (never : NeverEqual compare_entry) where
    pub add_to_chain-append :
        (hash_fn : E → ℤ) (element : E) (chain : List E)
        → add_to_chain hash_fn compare_entry element chain ≡ chain ++ element ∷ []
    unfolding add_to_chain
    add_to_chain-append hash_fn element [] = refl
    add_to_chain-append hash_fn element (value ∷ next) =
        rw (never value element) (ap (λ l. value ∷ l) (add_to_chain-append hash_fn element next))

    remove_from_chain-same :
        (hash_fn : E → ℤ) (element : E) (chain : List E)
        → remove_from_chain hash_fn compare_entry element chain ≡ chain
    unfolding remove_from_chain
    remove_from_chain-same hash_fn element [] = refl
    remove_from_chain-same hash_fn element (value ∷ next) =
        rw (never value element) (ap (λ l. value ∷ l) (remove_from_chain-same hash_fn element next))

  -- How `hashmap_add_element` changes a table where it returns.
  pub record Added (hash_fn : E → ℤ) (element : E) (table table' : Hashmap E) : Type ℓ where
    pub index : ℕ
    pub chain : List E
    pub hashed : bucket_index (hash_fn element) ≡ some index
    pub found : get_elem? table index ≡ some chain
    pub table'-eq : table' ≡ set table index (chain ++ element ∷ [])

access-eq_ok {ℓ} : {A : Type ℓ} (o : Option A) {a : A} → access o ≡ ok a → o ≡ some a
access-eq_ok none h = cc
access-eq_ok (some a) h = ap some (ok-injective h)

or_else-none {ℓ} : {A : Type ℓ} (a b : Option A) → or_else a b ≡ none → (a ≡ none) × (b ≡ none)
or_else-none none b h = (refl, h)
or_else-none (some v) b h = cc

-- Adding an element puts it behind the elements of its bucket, whatever elements are there: none
-- is replaced.
pub hashmap_add_element-Added {ℓ} :
    {E : Type ℓ} (hash_fn : E → ℤ) (compare_entry : E → E → Bool) (element : E)
    (table table' : Hashmap E)
    → NeverEqual compare_entry
    → hashmap_add_element hash_fn compare_entry element table ≡ ok table'
    → Added hash_fn element table table'
unfolding hashmap_add_element read
hashmap_add_element-Added hash_fn compare_entry element table table' never h =
    let (i, ei, h') = >>=-eq-ok (access (bucket_index (hash_fn element))) _ h in
    let (chain, ec, h'') = >>=-eq-ok (access (get_elem? table i)) _ h' in
    record {
      index = i;
      chain = chain;
      hashed = access-eq_ok _ ei;
      found = access-eq_ok _ ec;
      table'-eq =
          sym (ok-injective h'')
          ∙ ap (set table i) (add_to_chain-append compare_entry never hash_fn element chain);
    }

module _ {ℓ} {E : Type ℓ} (compare_fn : E → E → Bool) (element added : E) where
  look_up_chain-append :
      (chain : List E)
      → compare_fn element added ≡ true
      → look_up_chain compare_fn element (chain ++ added ∷ [])
        ≡ or_else (look_up_chain compare_fn element chain) (some added)
  unfolding look_up_chain
  look_up_chain-append [] h = rw h refl
  look_up_chain-append (value ∷ next) h = elim (Bool-cases (compare_fn element value)) [
    | inl e ↦ rw e refl
    | inr e ↦ rw e (look_up_chain-append next h)
  ]

  pub look_up_chain-append_ne :
      (chain : List E)
      → compare_fn element added ≡ false
      → look_up_chain compare_fn element (chain ++ added ∷ [])
        ≡ look_up_chain compare_fn element chain
  unfolding look_up_chain
  look_up_chain-append_ne [] h = rw h refl
  look_up_chain-append_ne (value ∷ next) h = elim (Bool-cases (compare_fn element value)) [
    | inl e ↦ rw e refl
    | inr e ↦ rw e (look_up_chain-append_ne next h)
  ]

  -- Where a chain's own result does not change, the table's does not.
  pub look_up-set_same :
      (table : Hashmap E) (i : ℕ) (chain chain' : List E)
      → get_elem? table i ≡ some chain
      → look_up_chain compare_fn element chain' ≡ look_up_chain compare_fn element chain
      → hashmap_look_up_element compare_fn element (set table i chain')
        ≡ hashmap_look_up_element compare_fn element table
  unfolding hashmap_look_up_element
  look_up-set_same [] i chain chain' g h = refl
  look_up-set_same (c ∷ table) zero chain chain' g h =
      ap (λ o. or_else o (hashmap_look_up_element compare_fn element table))
        (h ∙ ap (look_up_chain compare_fn element) (sym (some-injective _ _ g)))
  look_up-set_same (c ∷ table) (suc i) chain chain' g h =
      ap (or_else (look_up_chain compare_fn element c)) (look_up-set_same table i chain chain' g h)

  pub look_up-set_new :
      (table : Hashmap E) (i : ℕ) (chain : List E)
      → get_elem? table i ≡ some chain
      → compare_fn element added ≡ true
      → hashmap_look_up_element compare_fn element table ≡ none
      → hashmap_look_up_element compare_fn element (set table i (chain ++ added ∷ [])) ≡ some added
  unfolding hashmap_look_up_element
  look_up-set_new [] i chain g h n = cc
  look_up-set_new (c ∷ table) zero chain g h n =
      let (n', _) = or_else-none (look_up_chain compare_fn element c) _ n in
      ap (λ o. or_else o (hashmap_look_up_element compare_fn element table))
        (look_up_chain-append chain h
          ∙ ap (λ o. or_else o (some added))
              (ap (look_up_chain compare_fn element) (sym (some-injective _ _ g)) ∙ n'))
  look_up-set_new (c ∷ table) (suc i) chain g h n =
      let (n', n'') = or_else-none (look_up_chain compare_fn element c) _ n in
      ap
        (λ o.
          or_else o
            (hashmap_look_up_element compare_fn element (set table i (chain ++ added ∷ []))))
        n'
      ∙ look_up-set_new table i chain g h n''

  -- A second element that looks the same is not found.
  pub look_up_chain-append_twice :
      (chain : List E) (again : E)
      → compare_fn element added ≡ true
      → compare_fn element again ≡ true
      → look_up_chain compare_fn element ((chain ++ added ∷ []) ++ again ∷ [])
        ≡ look_up_chain compare_fn element (chain ++ added ∷ [])
  unfolding look_up_chain
  look_up_chain-append_twice [] again h h' = rw h refl
  look_up_chain-append_twice (value ∷ next) again h h' =
      elim (Bool-cases (compare_fn element value)) [
        | inl e ↦ rw e refl
        | inr e ↦ rw e (look_up_chain-append_twice next again h h')
      ]
