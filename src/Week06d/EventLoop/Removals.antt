-- ===== src/Week06d/EventLoop/Removals.antt =====
-- The end of a round: the scheduled removals.
use networks_course.Prelude.{
  ℕ, zero, suc, ◌≤◌, ◌≡◌, refl, sym, ap, ap₂, ◌∙◌, ℤ, pos, List, ok, read, get_or, arith,
  get_elem?-IsSome, get_or-get_elem?,
}
use networks_course.Week06d.EventLoop.{Slot, EventLoop, drain}
use networks_course.Week06d.EventLoop.Slots.{
  registered, remove_first, IsValid, event_loop_remove_fd-RemovedFd,
}

module _ {ℓ} {C A : Type ℓ} where
  -- The scheduled removals, the last one first.
  unfoldable pub remove_all : ℕ → List ℤ → List (Slot C A) → List (Slot C A)
  remove_all zero fds slots = slots
  remove_all (suc k) fds slots = remove_all k fds (remove_first (get_or fds k (pos 0)) slots)

  -- On a valid loop with `k` removals scheduled, `drain` returns: every scheduled descriptor has
  -- been taken out once, and nothing is scheduled any more.
  pub drain_lem :
      (k : ℕ) (loop : EventLoop C A)
      → IsValid loop
      → loop.next_to_remove ≡ k
      → (loop' : EventLoop C A) × (drain k loop ≡ ok loop')
        × IsValid loop'
        × (registered loop' ≡ remove_all k loop.to_remove (registered loop))
        × (loop'.next_to_remove ≡ 0)
  unfolding drain remove_all read
  drain_lem zero loop v e = (loop, refl, v, refl, e)
  drain_lem (suc k) loop v e =
      let (fd, at_k) = get_elem?-IsSome loop.to_remove k (omega arith) in
      let (r, run, t) = event_loop_remove_fd-RemovedFd loop fd v in
      let next : EventLoop C A = record (r.0) { next_to_remove = k } in
      let (loop', run', v', slots', done) =
        drain_lem k next (shorter r.0 t.valid (omega arith)) refl in
      (
        loop',
        rw (at_k, run) run',
        v',
        slots'
            ∙ ap₂ (remove_all k) t.removals (
                t.slots
                ∙ ap (λ f. remove_first f (registered loop))
                    (sym (get_or-get_elem? loop.to_remove k (pos 0) at_k))),
        done,
      )
    where
      shorter :
          (l : EventLoop C A)
          → IsValid l
          → k ≤ l.max_fds
          → IsValid (record l { next_to_remove = k })
      shorter l v h = record {
        slots_size = v.slots_size;
        fds_in = v.fds_in;
        removals_size = v.removals_size;
        removals_in = h;
        tasks_size = v.tasks_size;
        tasks_in = v.tasks_in;
      }
