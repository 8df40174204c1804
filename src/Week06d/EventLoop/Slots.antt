-- ===== src/Week06d/EventLoop/Slots.antt =====
-- The registered descriptors as a list: what adding and removing one does to it.
use networks_course.Prelude.{
  ℕ, zero, suc, ◌+◌, ◌-◌, ◌<◌, ◌≤◌, ◌≡◌, ◌≢◌, ◌⊎◌, inl, inr, refl, sym, ap, ap₂, ◌∙◌, ℤ, pos,
  negsuc, int_eq, List, [], ◌∷◌, ◌++◌, none, some, ok, read, shift-ok, write-ok, length, get_elem?,
  set, take, drop, ◌==◌, if◌then◌else◌, arith, length-set, length-replicate, get_elem?-IsSome,
  Bool-cases, ==_iff,
}
use native.Mathlib.Nat.{suc-add, add-zero, zero-add, sub-zero}
use networks_course.Week06d.EventLoop.{
  Slot, EventLoop, PeriodicTask, event_loop_init, event_loop_add_fd, find_fd, close_gap,
  event_loop_remove_fd,
}

module _ {ℓ} {C A : Type ℓ} where
  -- The abstract loop: the registered slots in order.
  abbrev pub registered : EventLoop C A → List (Slot C A)
  registered loop = take loop.next_fd loop.slots

  -- The first slot of a descriptor, taken out.
  unfoldable pub remove_first : ℤ → List (Slot C A) → List (Slot C A)
  remove_first fd [] = []
  remove_first fd (s ∷ ss) = if int_eq s.fd fd then ss else s ∷ remove_first fd ss

  pub record IsValid (loop : EventLoop C A) : Type ℓ where
    pub slots_size : length loop.slots ≡ loop.max_fds
    pub fds_in : loop.next_fd ≤ loop.max_fds
    pub removals_size : length loop.to_remove ≡ loop.max_fds
    pub removals_in : loop.next_to_remove ≤ loop.max_fds
    pub tasks_size : length loop.tasks ≡ loop.max_fds
    pub tasks_in : loop.next_periodic_task ≤ loop.max_periodic_tasks

  take-set :
      (xs : List (Slot C A)) (n : ℕ) (v : Slot C A)
      → n < length xs
      → take (n + 1) (set xs n v) ≡ take n xs ++ v ∷ []
  take-set [] n v h = absurd (omega arith)
  take-set (x ∷ xs) zero v h = refl
  take-set (x ∷ xs) (suc n) v h = rw (suc-add n 1) (ap (λ t. x ∷ t) (take-set xs n v (omega arith)))

  -- `event_loop_init` makes a valid loop with no descriptor.
  pub event_loop_init-IsValid :
      (zero_slot : Slot C A) (zero_task : PeriodicTask C) (max_fds max_periodic_tasks : ℕ)
      → let loop = event_loop_init zero_slot zero_task max_fds max_periodic_tasks in
        IsValid loop × (registered loop ≡ [])
  unfolding event_loop_init
  event_loop_init-IsValid s t m n = (
    record {
      slots_size = length-replicate m s;
      fds_in = omega arith;
      removals_size = length-replicate m (pos 0);
      removals_in = omega arith;
      tasks_size = length-replicate m t;
      tasks_in = omega arith;
    },
    refl,
  )

  -- What a call of `event_loop_add_fd` leaves: a full loop as it was, with -1, or the slot behind
  -- the others, with 0.
  pub record AddedFd (loop : EventLoop C A) (slot : Slot C A) (r : EventLoop C A × ℤ) : Type ℓ where
    pub valid : IsValid r.0
    pub full : loop.next_fd ≡ loop.max_fds → (r.1 ≡ negsuc 0) × (r.0 ≡ loop)
    pub room :
        loop.next_fd ≢ loop.max_fds
        → (r.1 ≡ pos 0) × (registered r.0 ≡ registered loop ++ slot ∷ [])

  -- On a valid loop `event_loop_add_fd` returns, with the two outcomes of `AddedFd`.
  pub event_loop_add_fd-AddedFd :
      (loop : EventLoop C A) (fd : ℤ) (events : ℕ) (callback : C) (args : A)
      → IsValid loop
      → (r : EventLoop C A × ℤ) × (event_loop_add_fd loop fd events callback args ≡ ok r)
        × AddedFd loop
            (record { fd = fd; events = events; revents = 0; callback = callback; args = args })
            r
  unfolding event_loop_add_fd
  event_loop_add_fd-AddedFd loop fd events callback args v =
      elim (Bool-cases (loop.next_fd == loop.max_fds)) [
        | inl e ↦ (
          (loop, negsuc 0),
          rw e,
          record {
            valid = v;
            full = λ _. (refl, refl);
            room = λ ne. absurd (ne ((==_iff loop.next_fd loop.max_fds).0 e));
          },
        )
        | inr e ↦
            let slot : Slot C A = record {
              fd = fd;
              events = events;
              revents = 0;
              callback = callback;
              args = args;
            } in
            let room : loop.next_fd < length loop.slots = ground arith in
            (
              (
                record loop {
                  slots = set loop.slots loop.next_fd slot;
                  next_fd = loop.next_fd + 1;
                },
                pos 0,
              ),
              rw (e, write-ok loop.slots loop.next_fd slot room),
              record {
                valid = ground (arith, length-set loop.slots loop.next_fd slot);
                full = λ eq. absurd (ground arith);
                room = λ _. (refl, take-set loop.slots loop.next_fd slot room);
              },
            )
      ]

  drop-get :
      (xs : List (Slot C A)) (i : ℕ) (s : Slot C A)
      → get_elem? xs i ≡ some s
      → drop i xs ≡ s ∷ drop (suc i) xs
  drop-get [] i s e = cc
  drop-get (x ∷ xs) zero s e = cc
  drop-get (x ∷ xs) (suc i) s e = drop-get xs i s e

  -- What the search from `i` on finds: nothing to take out, or the index of the slot to take out.
  abbrev SearchResult : List (Slot C A) → ℤ → ℕ → ℕ → Type ℓ
  SearchResult slots fd k i =
      ((find_fd k i slots fd ≡ ok none)
        × (remove_first fd (take k (drop i slots)) ≡ take k (drop i slots)))
      ⊎ ((j : ℕ) × (j < k)
          × (find_fd k i slots fd ≡ ok (some (i + j)))
          × (remove_first fd (take k (drop i slots))
              ≡ take j (drop i slots) ++ take (k - 1 - j) (drop (suc (i + j)) slots)))

  find_fd-SearchResult :
      (k i : ℕ) (slots : List (Slot C A)) (fd : ℤ)
      → i + k ≤ length slots
      → SearchResult slots fd k i
  unfolding find_fd remove_first read
  find_fd-SearchResult zero i slots fd h = inl (refl, refl)
  find_fd-SearchResult (suc k) i slots fd h = elim (Bool-cases (int_eq s.fd fd)) [
    | inl hit ↦ inr (
      0,
      omega arith,
      rw (e, hit, add-zero),
      rw (d, hit, add-zero, sub-zero) (ap (λ t. take t (drop (suc i) slots)) one_less),
    )
    | inr miss ↦ elim (find_fd-SearchResult k (suc i) slots fd (omega arith)) [
      | inl (none', same) ↦ inl (rw (e, miss) none', rw (d, miss) (ap (λ t. s ∷ t) same))
      | inr (j, lt, found, taken) ↦ inr (
        suc j,
        omega arith,
        rw (e, miss) (found ∙ ap (λ t. ok (some t)) (index j)),
        rw (d, miss)
            (ap (λ t. s ∷ t)
              (taken
                ∙ ap₂ (λ a b. take j (drop (suc i) slots) ++ take a (drop (suc b) slots)) (rest j)
                    (index j))),
      )
    ]
  ]
    where
      read_i : (s : Slot C A) × (get_elem? slots i ≡ some s)
      read_i = get_elem?-IsSome slots i (omega arith)

      s : Slot C A
      s = read_i.0

      e : get_elem? slots i ≡ some s
      e = read_i.1

      d : drop i slots ≡ s ∷ drop (suc i) slots
      d = drop-get slots i s e

      one_less : k ≡ suc k - 1
      one_less = omega arith

      index : (j : ℕ) → suc i + j ≡ i + suc j
      index j = omega arith

      rest : (j : ℕ) → k - 1 - j ≡ suc k - 1 - suc j
      rest j = omega arith

  -- What a call of `event_loop_remove_fd` leaves: the first slot of the descriptor is out of the
  -- registered ones, the others stay in order, and the globals for removals are as before. The
  -- status tells whether there was such a slot; if not, nothing has changed.
  pub record RemovedFd (loop : EventLoop C A) (fd : ℤ) (r : EventLoop C A × ℤ) : Type ℓ where
    pub valid : IsValid r.0
    pub slots : registered r.0 ≡ remove_first fd (registered loop)
    pub removals : r.0.to_remove ≡ loop.to_remove
    pub pending : r.0.next_to_remove ≡ loop.next_to_remove
    pub limit : r.0.max_fds ≡ loop.max_fds
    pub status :
        ((r.1 ≡ pos 0) × (r.0.next_fd + 1 ≡ loop.next_fd)) ⊎ ((r.1 ≡ negsuc 0) × (r.0 ≡ loop))

  -- On a valid loop `event_loop_remove_fd` returns, and does what `RemovedFd` says.
  pub event_loop_remove_fd-RemovedFd :
      (loop : EventLoop C A) (fd : ℤ)
      → IsValid loop
      → (r : EventLoop C A × ℤ) × (event_loop_remove_fd loop fd ≡ ok r) × RemovedFd loop fd r
  unfolding event_loop_remove_fd close_gap
  event_loop_remove_fd-RemovedFd loop fd v =
      elim (find_fd-SearchResult loop.next_fd 0 loop.slots fd (omega arith)) [
        | inl (absent, same) ↦ (
          (loop, negsuc 0),
          rw absent,
          record {
            valid = v;
            slots = sym same;
            removals = refl;
            pending = refl;
            limit = refl;
            status = inr (refl, refl);
          },
        )
        | inr (j, lt, found, taken) ↦
            let (ys, run, size, kept) =
              shift-ok (loop.next_fd - 1 - j) j loop.slots (omega arith) in
            (
              (record loop { slots = ys; next_fd = loop.next_fd - 1 }, pos 0),
              rw (found, zero-add, run),
              record {
                valid = record {
                  slots_size = size ∙ v.slots_size;
                  fds_in = omega arith;
                  removals_size = v.removals_size;
                  removals_in = v.removals_in;
                  tasks_size = v.tasks_size;
                  tasks_in = v.tasks_in;
                };
                slots = ap (λ t. take t ys) (all_but_one j lt) ∙ kept ∙ sym (rw zero-add at taken);
                removals = refl;
                pending = refl;
                limit = refl;
                status = inl (refl, omega arith);
              },
            )
      ]
    where
      all_but_one : (j : ℕ) → j < loop.next_fd → loop.next_fd - 1 ≡ j + (loop.next_fd - 1 - j)
      all_but_one j lt = omega arith
