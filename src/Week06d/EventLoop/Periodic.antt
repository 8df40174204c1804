-- ===== src/Week06d/EventLoop/Periodic.antt =====
-- When a periodic task runs.
use networks_course.Prelude.{
  ℕ, zero, suc, ◌+◌, ◌≤◌, ◌≡◌, ◌≢◌, refl, ℤ, pos, negsuc, int_lt, ◌-ℤ◌, some, ok, write-ok,
  get_elem?, set, ltb, arith, get_elem?-set_self, ==_ne,
}
use networks_course.Week06d.EventLoop.{
  EventLoop, PeriodicTask, event_loop_add_periodic_task, is_due,
}
use networks_course.Week06d.EventLoop.Slots.{IsValid}

due_later : (i : ℤ) (t l : ℕ) → int_lt i (pos l -ℤ (pos t -ℤ i)) ≡ ltb t l
due_later (pos zero) t l = ground arith
due_later (pos (suc n)) t l = ground arith
due_later (negsuc n) t l = ground arith

-- A task that is added at the time `t`, on a valid loop with room for it, is stored; whatever its
-- interval, it is due at a later reading of the clock exactly when the clock has moved on.
event_loop_add_periodic_task-is_due {ℓ} :
    {C A : Type ℓ} (loop : EventLoop C A) (callback : C) (interval : ℤ) (t l : ℕ)
    → IsValid loop
    → loop.max_periodic_tasks ≤ loop.max_fds
    → loop.next_periodic_task ≢ loop.max_periodic_tasks
    → (loop' : EventLoop C A) × (task : PeriodicTask C) × (event_loop_add_periodic_task loop
          callback interval
          (pos t)
        ≡ ok (loop', pos 0))
      × (get_elem? loop'.tasks loop.next_periodic_task ≡ some task)
      × (task.callback ≡ callback)
      × (is_due task (pos l) ≡ ltb t l)
unfolding event_loop_add_periodic_task is_due
event_loop_add_periodic_task-is_due {C} loop callback interval t l v small room =
    let task : PeriodicTask C = record {
      callback = callback;
      interval = interval;
      last_done = pos t -ℤ interval;
    } in
    let n = loop.next_periodic_task in
    (
      record loop { tasks = set loop.tasks n task; next_periodic_task = n + 1 },
      task,
      rw (==_ne n loop.max_periodic_tasks room, write-ok loop.tasks n task (omega arith)),
      get_elem?-set_self loop.tasks n task (omega arith),
      refl,
      due_later interval t l,
    )
