-- ===== src/Week06d/EventLoop.antt =====
-- week06d/src/event_loop.c: descriptors with callbacks, periodic tasks, and one round of the loop.
-- The callbacks are code of the caller, `C` is a function pointer and `A` an argument pointer;
-- what `poll` and `time` return are arguments.
pub mod Slots
pub mod Removals
pub mod Rounds
pub mod Periodic
use networks_course.Prelude.{
  ℕ, zero, suc, ◌+◌, ◌-◌, ℤ, pos, negsuc, is_neg, int_eq, int_lt, ◌-ℤ◌, Bool, List, Option, none,
  some, Run, ok, ◌>>=◌, ◌>>◌, read, write, shift, replicate, ltb, ◌==◌, if◌then◌else◌,
}

-- One index of the three arrays `event_loop_fds`, `event_loop_callbacks` and
-- `event_loop_user_args`, which are allocated and indexed together.
pub record Slot {ℓ} (C A : Type ℓ) : Type ℓ where
  pub fd : ℤ
  pub events : ℕ
  pub revents : ℕ
  pub callback : C
  pub args : A

-- `struct event_loop_periodic_task`
pub record PeriodicTask {ℓ} (C : Type ℓ) : Type ℓ where
  pub callback : C
  pub interval : ℤ
  pub last_done : ℤ

-- The globals of the file.
pub record EventLoop {ℓ} (C A : Type ℓ) : Type ℓ where
  pub slots : List (Slot C A)
  pub next_fd : ℕ
  pub max_fds : ℕ
  pub tasks : List (PeriodicTask C)
  pub next_periodic_task : ℕ
  pub max_periodic_tasks : ℕ
  pub to_remove : List ℤ
  pub next_to_remove : ℕ

-- The test of a periodic task at the time `now`.
unfoldable pub is_due {ℓ} : {C : Type ℓ} → PeriodicTask C → ℤ → Bool
is_due task now = int_lt task.interval (now -ℤ task.last_done)

module _ {ℓ} {C A : Type ℓ} where
  -- `calloc` fills the arrays with zeros; all three have `max_fds` elements. The globals that
  -- `event_loop_init` does not write start at zero.
  unfoldable pub event_loop_init : Slot C A → PeriodicTask C → ℕ → ℕ → EventLoop C A
  event_loop_init zero_slot zero_task max_fds max_periodic_tasks = record {
    slots = replicate max_fds zero_slot;
    next_fd = 0;
    max_fds = max_fds;
    tasks = replicate max_fds zero_task;
    next_periodic_task = 0;
    max_periodic_tasks = max_periodic_tasks;
    to_remove = replicate max_fds (pos 0);
    next_to_remove = 0;
  }

  unfoldable pub event_loop_add_fd : EventLoop C A → ℤ → ℕ → C → A → Run (EventLoop C A × ℤ)
  event_loop_add_fd loop fd events callback args =
      if loop.next_fd == loop.max_fds then ok (loop, negsuc 0) else do
        slots ←
            write loop.slots loop.next_fd
              (record { fd = fd; events = events; revents = 0; callback = callback; args = args })
        ok (record loop { slots = slots; next_fd = loop.next_fd + 1 }, pos 0)

  -- The search of `event_loop_remove_fd`: `k` indices are left, from `i` on.
  unfoldable pub find_fd : ℕ → ℕ → List (Slot C A) → ℤ → Run (Option ℕ)
  find_fd zero i slots fd = ok none
  find_fd (suc k) i slots fd =
      let rest = find_fd k (suc i) slots fd in
      read slots i >>= λ slot. if int_eq slot.fd fd then ok (some i) else rest

  -- The loop that closes the gap.
  unfoldable pub close_gap : EventLoop C A → ℕ → Run (EventLoop C A)
  close_gap loop found_fd = do
    slots ← shift (loop.next_fd - 1 - found_fd) found_fd loop.slots
    ok (record loop { slots = slots; next_fd = loop.next_fd - 1 })

  unfoldable pub event_loop_remove_fd : EventLoop C A → ℤ → Run (EventLoop C A × ℤ)
  event_loop_remove_fd loop fd = do
    found ← find_fd loop.next_fd 0 loop.slots fd
    elim found [
      | none ↦ ok (loop, negsuc 0)
      | some found_fd ↦ do loop' ← close_gap loop found_fd; ok (loop', pos 0)
    ]

  unfoldable pub event_loop_schedule_remove_fd : EventLoop C A → ℤ → Run (EventLoop C A)
  event_loop_schedule_remove_fd loop fd = do
    to_remove ← write loop.to_remove loop.next_to_remove fd
    ok (record loop { to_remove = to_remove; next_to_remove = loop.next_to_remove + 1 })

  unfoldable pub event_loop_add_periodic_task : EventLoop C A → C → ℤ → ℤ → Run (EventLoop C A × ℤ)
  event_loop_add_periodic_task loop callback interval now =
      if loop.next_periodic_task == loop.max_periodic_tasks then ok (loop, negsuc 0) else do
        tasks ←
            write loop.tasks loop.next_periodic_task
              (record { callback = callback; interval = interval; last_done = now -ℤ interval })
        ok (record loop { tasks = tasks; next_periodic_task = loop.next_periodic_task + 1 }, pos 0)

  -- `while (event_loop_next_to_remove != 0)`: `k` is `event_loop_next_to_remove`.
  unfoldable pub drain : ℕ → EventLoop C A → Run (EventLoop C A)
  drain zero loop = ok loop
  drain (suc k) loop = do
    fd ← read loop.to_remove k
    (loop', status) ← event_loop_remove_fd loop fd
    drain k (record loop' { next_to_remove = k })

-- A callback that returns a negative number has its descriptor removed and closed.
unfoldable pub after_callback {ℓ} :
    {C A W : Type ℓ} → (ℤ → W → W) → ℕ → (W × EventLoop C A) × ℤ → Run (W × EventLoop C A)
after_callback close i ((w, loop), result) =
    let dropped = (do
      slot ← read loop.slots i
      loop' ← event_loop_schedule_remove_fd loop slot.fd
      ok (close slot.fd w, loop')) in
    if is_neg result then dropped else ok (w, loop)

-- The round over the descriptors, in a world `W` that callbacks and `close` change. A callback gets
-- the descriptor, the events and its argument; it may change the loop.
module _ {ℓ} {C A W : Type ℓ}
    (call : C → ℤ → ℕ → A → W × EventLoop C A → Run ((W × EventLoop C A) × ℤ))
    (close : ℤ → W → W) where
  -- The body of the loop at index `i`. The events are read after they were reset.
  unfoldable pub dispatch_slot : ℕ → W × EventLoop C A → Run (W × EventLoop C A)
  dispatch_slot i (w, loop) = read loop.slots i >>= λ slot.
      let cleared = record slot { revents = 0 } in
      if slot.revents == 0
      then ok (w, loop)
      else (write loop.slots i cleared >>= λ slots.
          call cleared.callback cleared.fd cleared.revents cleared.args
            (w, record loop { slots = slots })
          >>= after_callback close i)

  -- `for (; i < event_loop_next_fd; i++)`, the bound read anew in each round; `none` is a fuel
  -- that ran out.
  unfoldable pub dispatch_from : ℕ → ℕ → W × EventLoop C A → Run (Option (W × EventLoop C A))
  dispatch_from zero i s = ok none
  dispatch_from (suc fuel) i s =
      let rest = dispatch_slot i s >>= dispatch_from fuel (suc i) in
      if ltb i s.1.next_fd then rest else ok (some s)

-- The periodic tasks of a round, in a world that the callbacks change; `now i` and `later i` are
-- the two readings of the clock at task `i`.
module _ {ℓ} {C A W : Type ℓ} (call : C → W × EventLoop C A → Run (W × EventLoop C A))
    (now later : ℕ → ℤ) where
  unfoldable pub run_task : ℕ → W × EventLoop C A → Run (W × EventLoop C A)
  run_task i (w, loop) = read loop.tasks i >>= λ task.
      if is_due task (now i)
      then (write loop.tasks i (record task { last_done = later i }) >>= λ tasks.
          call task.callback (w, record loop { tasks = tasks }))
      else ok (w, loop)

  unfoldable pub run_tasks : ℕ → ℕ → W × EventLoop C A → Run (Option (W × EventLoop C A))
  run_tasks zero i s = ok none
  run_tasks (suc fuel) i s =
      let rest = run_task i s >>= run_tasks fuel (suc i) in
      if ltb i s.1.next_periodic_task then rest else ok (some s)
