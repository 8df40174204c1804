-- ===== src/Week06d/EventLoop/Rounds.antt =====
-- One round over the descriptors.
use networks_course.Prelude.{
  ℕ, zero, suc, ◌+◌, ◌<◌, ◌≤◌, ◌≡◌, ◌⊎◌, inl, inr, refl, ◌∙◌, ℤ, pos, negsuc, is_neg, false, some,
  Run, ok, fault, read, write-ok, get_elem?, set, ltb, ◌==◌, if◌then◌else◌, arith, length-set,
  get_elem?-IsSome, Bool-cases, ltb→lt, Run-cases,
}
use networks_course.Week06d.EventLoop.{
  Slot, EventLoop, event_loop_schedule_remove_fd, after_callback, dispatch_slot, dispatch_from,
}
use networks_course.Week06d.EventLoop.Slots.{IsValid}

module _ {ℓ} {C A W : Type ℓ} (close : ℤ → W → W) where
  -- What a callback does with the loop depends on nothing that `poll` reported: two programs whose
  -- callbacks agree when they are told of no event run alike.
  pub dispatch_from_ignores_events :
      (call call' : C → ℤ → ℕ → A → W × EventLoop C A → Run ((W × EventLoop C A) × ℤ))
      → ((callback : C) (fd : ℤ) (args : A) (s : W × EventLoop C A)
          → call callback fd 0 args s ≡ call' callback fd 0 args s)
      → (fuel i : ℕ) (s : W × EventLoop C A)
      → dispatch_from call close fuel i s ≡ dispatch_from call' close fuel i s
  unfolding dispatch_from dispatch_slot
  dispatch_from_ignores_events call call' agree zero i s = refl
  dispatch_from_ignores_events call call' agree (suc fuel) i (w, loop) =
      simp (agree, dispatch_from_ignores_events call call' agree fuel)

module _ {ℓ} {C A W : Type ℓ} where
  -- Callbacks that, where they return, keep a valid loop valid and cause at most one removal.
  pub record Behaves (call : C → ℤ → ℕ → A → W × EventLoop C A → Run ((W × EventLoop C A) × ℤ))
      : Type ℓ where
    pub behaves :
        (callback : C) (fd : ℤ) (args : A) (s s' : W × EventLoop C A) (result : ℤ)
        → IsValid s.1
        → s.1.next_to_remove < s.1.max_fds
        → call callback fd 0 args s ≡ ok (s', result)
        → IsValid s'.1
          × (s'.1.max_fds ≡ s.1.max_fds)
          × (s'.1.next_to_remove + (if is_neg result then 1 else 0) ≤ s.1.next_to_remove + 1)

  -- The descriptors from `i` on and before `j` are looked at, one after the other.
  pub data Handled (call : C → ℤ → ℕ → A → W × EventLoop C A → Run ((W × EventLoop C A) × ℤ))
      (close : ℤ → W → W) : ℕ → W × EventLoop C A → ℕ → W × EventLoop C A → Type ℓ where
    handled_none : (i : ℕ) (s : W × EventLoop C A) → Handled call close i s i s
    handled_next :
        (i j : ℕ) (s s' t : W × EventLoop C A)
        → dispatch_slot call close i s ≡ ok s'
        → Handled call close (suc i) s' j t
        → Handled call close i s j t

  -- The callback of a descriptor that the round comes to, and that is ready, does not return.
  pub record Faults (call : C → ℤ → ℕ → A → W × EventLoop C A → Run ((W × EventLoop C A) × ℤ))
      (close : ℤ → W → W) (i : ℕ) (s : W × EventLoop C A) : Type ℓ where
    pub reached : ℕ
    pub state : W × EventLoop C A
    pub handled : Handled call close i s reached state
    pub slot : Slot C A
    pub at : get_elem? state.1.slots reached ≡ some slot
    pub ready : (slot.revents == 0) ≡ false
    pub faults :
        call slot.callback slot.fd 0 slot.args (
          state.0,
          record state.1 { slots = set state.1.slots reached (record slot { revents = 0 }) },
        )
        ≡ fault

  Faults-later :
      (call : C → ℤ → ℕ → A → W × EventLoop C A → Run ((W × EventLoop C A) × ℤ)) (close : ℤ → W → W)
      (i : ℕ) (s s' : W × EventLoop C A)
      → dispatch_slot call close i s ≡ ok s'
      → Faults call close (suc i) s'
      → Faults call close i s
  Faults-later call close i s s' run f = record {
    reached = f.reached;
    state = f.state;
    handled = handled_next i f.reached s s' f.state run f.handled;
    slot = f.slot;
    at = f.at;
    ready = f.ready;
    faults = f.faults;
  }

  -- What a part of the round leaves: a valid loop of the same size, with at most `n` removals.
  pub record Proceeds (n : ℕ) (before : EventLoop C A) (r : Run (W × EventLoop C A)) : Type ℓ where
    pub after : W × EventLoop C A
    pub run : r ≡ ok after
    pub valid : IsValid after.1
    pub limit : after.1.max_fds ≡ before.max_fds
    pub few : after.1.next_to_remove ≤ n

  after_callback-Proceeds :
      (close : ℤ → W → W) (i : ℕ) (s : W × EventLoop C A) (result : ℤ)
      → IsValid s.1
      → i < s.1.max_fds
      → s.1.next_to_remove + (if is_neg result then 1 else 0) ≤ suc i
      → Proceeds (suc i) s.1 (after_callback close i (s, result))
  unfolding after_callback event_loop_schedule_remove_fd read
  after_callback-Proceeds close i (w, loop) (pos n) v h few = record {
    after = (w, loop);
    run = refl;
    valid = v;
    limit = refl;
    few = omega arith;
  }
  after_callback-Proceeds close i (w, loop) (negsuc n) v h few =
      let (slot, e) = get_elem?-IsSome loop.slots i (omega arith) in
      record {
        after = (
          close slot.fd w,
          record loop {
            to_remove = set loop.to_remove loop.next_to_remove slot.fd;
            next_to_remove = loop.next_to_remove + 1;
          },
        );
        run = rw (e, write-ok loop.to_remove loop.next_to_remove slot.fd (omega arith));
        valid = ground (arith, length-set loop.to_remove loop.next_to_remove slot.fd);
        limit = refl;
        few = omega arith;
      }

  module _ (call : C → ℤ → ℕ → A → W × EventLoop C A → Run ((W × EventLoop C A) × ℤ))
      (close : ℤ → W → W) (b : Behaves call) where
    dispatch_slot-Proceeds :
        (i : ℕ) (s : W × EventLoop C A)
        → IsValid s.1
        → s.1.next_to_remove ≤ i
        → i < s.1.next_fd
        → Faults call close i s × (dispatch_slot call close i s ≡ fault)
          ⊎ Proceeds (suc i) s.1 (dispatch_slot call close i s)
    unfolding dispatch_slot read
    dispatch_slot-Proceeds i (w, loop) v few lt =
        let (slot, e) = get_elem?-IsSome loop.slots i (omega arith) in
        elim (Bool-cases (slot.revents == 0)) [
          | inl quiet ↦ inr (record {
            after = (w, loop);
            run = rw (e, quiet);
            valid = v;
            limit = refl;
            few = omega arith;
          })
          | inr ready ↦
              let cleared : Slot C A = record slot { revents = 0 } in
              let loop₁ : EventLoop C A = record loop { slots = set loop.slots i cleared } in
              let v₁ : IsValid loop₁ = ground (arith, length-set loop.slots i cleared) in
              let stored = write-ok loop.slots i cleared (omega arith) in
              elim (Run-cases (call slot.callback slot.fd 0 slot.args (w, loop₁))) [
                | inl failed ↦ inl (
                  record {
                    reached = i;
                    state = (w, loop);
                    handled = handled_none i (w, loop);
                    slot = slot;
                    at = e;
                    ready = ready;
                    faults = failed;
                  },
                  rw (e, ready, stored, failed) refl,
                )
                | inr ((s', result), run) ↦
                    let (v', same, one) =
                      b.behaves slot.callback slot.fd slot.args (w, loop₁) s' result v₁
                        (omega arith) run in
                    let p =
                      after_callback-Proceeds close i s' result v' (omega arith) (omega arith) in
                    inr (record {
                      after = p.after;
                      run = rw (e, ready, stored, run) p.run;
                      valid = p.valid;
                      limit = p.limit ∙ same;
                      few = p.few;
                    })
              ]
        ]

    -- If every callback that returns keeps a valid loop valid and causes at most one removal, the
    -- round over the descriptors of a valid loop with none scheduled comes to an end. It runs out of
    -- no fuel above the number of descriptors that fit, and of no array: it leaves a valid loop of
    -- the same size, unless it comes to a descriptor that is ready and whose callback faults when it
    -- is called with no event.
    pub dispatch_from_total :
        (fuel i : ℕ) (s : W × EventLoop C A)
        → IsValid s.1
        → s.1.next_to_remove ≤ i
        → i ≤ s.1.max_fds
        → s.1.max_fds < fuel + i
        → Faults call close i s × (dispatch_from call close fuel i s ≡ fault)
          ⊎ (s' : W × EventLoop C A) × (dispatch_from call close fuel i s ≡ ok (some s'))
            × IsValid s'.1
            × (s'.1.max_fds ≡ s.1.max_fds)
    unfolding dispatch_from
    dispatch_from_total zero i s v few h enough = absurd (omega arith)
    dispatch_from_total (suc fuel) i s v few h enough = elim (Bool-cases (ltb i s.1.next_fd)) [
      | inl more ↦ elim (dispatch_slot-Proceeds i s v few (ltb→lt i s.1.next_fd more)) [
        | inl (f, failed) ↦ inl (f, rw (more, failed) refl)
        | inr p ↦
            elim (dispatch_from_total fuel (suc i) p.after p.valid p.few
              (omega (arith, p.limit, ltb→lt i s.1.next_fd more)) (omega (arith, p.limit))) [
                | inl (f, failed) ↦
                    inl (Faults-later call close i s p.after p.run f, rw (more, p.run) failed)
                | inr (s', run, v', same) ↦ inr (s', rw (more, p.run) run, v', same ∙ p.limit)
              ]
      ]
      | inr stop ↦ inr (s, rw stop, v, refl)
    ]
