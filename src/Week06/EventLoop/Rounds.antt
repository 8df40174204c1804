-- ===== src/Week06/EventLoop/Rounds.antt =====
-- `event_loop_run_loop` of week06/src/event_loop.c.
use networks_course.Prelude.{
  ℕ, zero, suc, ◌-◌, ℤ, pos, is_neg, int_eq, int_lt, ◌-ℤ◌, Bool, true, List, [], ◌∷◌, Option, none,
  some, Run, ok, fault, ◌>>=◌, ◌>>◌, access, in_bounds, read, write, ltb, if◌then◌else◌,
}
use networks_course.Week06.EventLoop.{
  PeriodicTask, EventLoop, read_row, event_loop_release_fd, poll_list, drain,
}

-- What happens in a round: the time; the `revents` in the array that is given to `poll`, also
-- behind the descriptors polled, or none for an error; and what the callbacks do.
pub record World {ℓ} (H : Type ℓ) : Type ℓ where
  pub time : ℤ
  pub poll : List (ℤ × ℤ) → Option (List ℤ)
  pub call : H → ℤ → ℤ → EventLoop H → Run (ℤ × EventLoop H)
  pub call_periodic : ℕ → EventLoop H → Run (EventLoop H)

module _ {ℓ} {H : Type ℓ} (w : World H) where
  -- A descriptor that is ready. The top of an empty stack is 0, and the place below it is no place.
  unfoldable pub dispatch_ready : EventLoop H → ℕ → ℤ → Run (EventLoop H)
  dispatch_ready loop i revents = do
    tops ← access loop.stack_tops
    top ← read tops i
    in_bounds (ltb 0 top)
    pointer ← read_row loop.handlers i (top - 1)
    handler ← access pointer
    fd ← read loop.fds i
    called ← w.call handler fd revents loop
    dropped ← read called.1.fds i
    let released = event_loop_release_fd called.1 dropped
    if is_neg called.0 then released else ok called.1

  -- The loop over the descriptors, whose number callbacks may change.
  unfoldable pub dispatch : ℕ → List ℤ → ℕ → EventLoop H → Run (EventLoop H)
  dispatch zero revents i loop = fault
  dispatch (suc fuel) revents i loop =
      let ready = read revents i >>= λ r.
      (if int_eq r (pos 0) then ok loop else dispatch_ready loop i r)
      >>= dispatch fuel revents (suc i) in
      if ltb i loop.next_fd then ready else ok loop

  -- A task that is due.
  unfoldable pub run_task : EventLoop H → ℕ → PeriodicTask → Run (EventLoop H)
  run_task loop i task =
      let done = write loop.periodic_tasks i (record task { last_done = w.time }) >>= λ tasks.
      w.call_periodic task.callback (record loop { periodic_tasks = tasks }) in
      if int_lt task.interval (w.time -ℤ task.last_done) then done else ok loop

  -- The loop over the tasks from `i` on, whose number callbacks may change.
  unfoldable pub run_tasks : ℕ → ℕ → EventLoop H → Run (EventLoop H)
  run_tasks zero i loop = fault
  run_tasks (suc fuel) i loop =
      let due = read loop.periodic_tasks i >>= run_task loop i >>= run_tasks fuel (suc i) in
      if ltb i loop.next_periodic_task then due else ok loop

  unfoldable pub handle_events : Option (List ℤ) → EventLoop H → Run (EventLoop H)
  handle_events none loop = ok loop
  handle_events (some revents) loop = dispatch (suc loop.max_fds) revents 0 loop

  -- One round of `event_loop_run_loop`.
  unfoldable pub loop_round : EventLoop H → Run (EventLoop H)
  loop_round loop = do
    polled ← poll_list loop loop.next_fd 0
    handled ← handle_events (w.poll polled) loop
    tasked ← run_tasks (suc handled.max_periodic_tasks) 0 handled
    drain tasked.next_to_release tasked

-- The loop over what happens, and whether it has ended.
unfoldable pub event_loop_run_loop {ℓ} :
    {H : Type ℓ} → List (World H) → EventLoop H → Run (Bool × EventLoop H)
event_loop_run_loop [] loop = ok (int_eq loop.keep_alive (pos 0), loop)
event_loop_run_loop (w ∷ worlds) loop =
    let rest = loop_round w loop >>= event_loop_run_loop worlds in
    if int_eq loop.keep_alive (pos 0) then ok (true, loop) else rest
