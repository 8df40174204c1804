-- ===== src/Week06/EventLoop.antt =====
-- week06/src/event_loop.c: descriptors with a stack of callbacks each, and periodic tasks.
-- Callbacks and their arguments, which are stored at the same places, are kept together as handlers
-- of a type H.
pub mod Rounds
pub mod Inert
use networks_course.Prelude.{
  ℕ, zero, suc, ◌-◌, ◌*◌, ◌/◌, ℤ, pos, negsuc, int_eq, ◌-ℤ◌, List, [], ◌∷◌, Option, none, some, Run,
  ok, ◌>>=◌, ◌>>◌, access, read, write, replicate, ltb, ◌==◌, if◌then◌else◌,
}

-- `struct event_loop_periodic_task`
pub record PeriodicTask : Type 0 where
  pub callback : ℕ
  pub interval : ℤ
  pub last_done : ℤ

-- The variables of the file. The arrays have their allocated sizes; a pointer in them is `none`
-- while it is null, and so is `event_loop_stack_tops`.
pub record EventLoop {ℓ} (H : Type ℓ) : Type ℓ where
  pub fds : List ℤ
  pub next_fd : ℕ
  pub max_fds : ℕ
  pub events : List (Option (List ℤ))
  pub handlers : List (Option (List (Option H)))
  pub stack_tops : Option (List ℕ)
  pub max_stack_len : ℕ
  pub periodic_tasks : List PeriodicTask
  pub next_periodic_task : ℕ
  pub max_periodic_tasks : ℕ
  pub to_release : List ℤ
  pub next_to_release : ℕ
  pub keep_alive : ℤ

-- The events are allocated as `short`s and used as pointers, which have 8 bytes. The arrays of
-- callbacks and arguments are replaced in every round of the loop by arrays of `max_fd_overrides`
-- pointers. Nothing is stored to the stack tops, to the length of a stack or to
-- `event_loop_keep_alive`.
unfoldable pub event_loop_init {ℓ} : {H : Type ℓ} → ℕ → ℕ → ℕ → EventLoop H
event_loop_init max_fds max_fd_overrides max_periodic_tasks = record {
  fds = replicate max_fds (pos 0);
  next_fd = 0;
  max_fds = max_fds;
  events = replicate (max_fds * 2 / 8) none;
  handlers = replicate (if max_fds == 0 then 0 else max_fd_overrides) none;
  stack_tops = none;
  max_stack_len = 0;
  periodic_tasks = replicate max_fds (record { callback = 0; interval = pos 0; last_done = pos 0 });
  next_periodic_task = 0;
  max_periodic_tasks = max_periodic_tasks;
  to_release = replicate max_fds (pos 0);
  next_to_release = 0;
  keep_alive = pos 0;
}

-- The loop of `event_loop_find_fd` from the index `i` on, with the descriptors that are left.
unfoldable pub find_from : List ℤ → ℤ → ℕ → ℕ → Run (Option ℕ)
find_from fds fd zero i = ok none
find_from fds fd (suc left) i =
    let next = find_from fds fd left (suc i) in
    read fds i >>= λ stored. if int_eq stored fd then ok (some i) else next

-- `rows[i][j] = value;`
unfoldable pub write_row {ℓ} :
    {A : Type ℓ} → List (Option (List A)) → ℕ → ℕ → A → Run (List (Option (List A)))
write_row rows i j value = do
  pointer ← read rows i
  row ← access pointer
  row' ← write row j value
  write rows i (some row')

-- `rows[i][j]`
unfoldable pub read_row {ℓ} : {A : Type ℓ} → List (Option (List A)) → ℕ → ℕ → Run A
read_row rows i j = do pointer ← read rows i; row ← access pointer; read row j

-- `rows[i][j] = rows[i + 1][j];` for the `n` first places.
unfoldable pub copy_row {ℓ} :
    {A : Type ℓ} → List (Option (List A)) → ℕ → ℕ → Run (List (Option (List A)))
copy_row rows i zero = ok rows
copy_row rows i (suc n) = do
  rows' ← copy_row rows i n
  value ← read_row rows' (suc i) n
  write_row rows' i n value

module _ {ℓ} {H : Type ℓ} where
  unfoldable pub event_loop_find_fd : EventLoop H → ℤ → Run (Option ℕ)
  event_loop_find_fd loop fd = find_from loop.fds fd loop.next_fd 0

  -- Where a descriptor is, or else the next place, which is then taken.
  unfoldable pub place_of : EventLoop H → Option ℕ → ℕ × EventLoop H
  place_of loop (some found_fd) = (found_fd, loop)
  place_of loop none = (loop.next_fd, record loop { next_fd = suc loop.next_fd })

  -- The descriptor, its events and its handler at a place.
  unfoldable pub store_fd : EventLoop H → ℕ → ℕ → ℤ → ℤ → H → Run (EventLoop H)
  store_fd loop found_fd found_top fd poll_events handler = do
    fds ← write loop.fds found_fd fd
    events ← write_row loop.events found_fd found_top poll_events
    handlers ← write_row loop.handlers found_fd found_top (some handler)
    ok (record loop { fds = fds; events = events; handlers = handlers })

  -- After the search. The place stays taken when the stack is full.
  unfoldable pub listen_found : EventLoop H → ℤ → ℤ → H → Option ℕ → Run (ℤ × EventLoop H)
  listen_found loop fd poll_events handler found = do
    let place = place_of loop found
    tops ← access loop.stack_tops
    found_top ← read tops place.0
    let stored =
        store_fd place.1 place.0 found_top fd poll_events handler >>= λ loop'. ok (pos 0, loop')
    if found_top == loop.max_stack_len then ok (negsuc 0, place.1) else stored

  -- The result, and the event loop.
  unfoldable pub event_loop_listen_fd : EventLoop H → ℤ → ℤ → H → Run (ℤ × EventLoop H)
  event_loop_listen_fd loop fd poll_events handler =
      let listened = event_loop_find_fd loop fd >>= listen_found loop fd poll_events handler in
      if loop.next_fd == loop.max_fds then ok (negsuc 0, loop) else listened

  -- The loop of `event_loop_actual_release_fd`: `n` places from `i` on take what is behind them.
  unfoldable pub close_gap : ℕ → ℕ → List ℕ → EventLoop H → Run (EventLoop H)
  close_gap zero i tops loop = ok (record loop { stack_tops = some tops })
  close_gap (suc n) i tops loop = do
    fd ← read loop.fds (suc i)
    fds ← write loop.fds i fd
    top ← read tops i
    events ← copy_row loop.events i top
    handlers ← copy_row loop.handlers i top
    next_top ← read tops (suc i)
    tops' ← write tops i next_top
    close_gap n (suc i) tops' (record loop { fds = fds; events = events; handlers = handlers })

  -- At the place of the descriptor.
  unfoldable pub release_at : ℕ → EventLoop H → Run (EventLoop H)
  release_at found_fd loop = do
    tops ← access loop.stack_tops
    found_top ← read tops found_fd
    let lowered = write tops found_fd (found_top - 1) >>= λ tops'.
        ok (record loop { stack_tops = some tops' })
    let closed = close_gap (loop.next_fd - 1 - found_fd) found_fd tops loop >>= λ loop'.
        ok (record loop' { next_fd = loop.next_fd - 1 })
    if ltb 1 found_top then lowered else closed

  -- After the search.
  unfoldable pub release_found : EventLoop H → Option ℕ → Run (EventLoop H)
  release_found loop none = ok loop
  release_found loop (some found_fd) = release_at found_fd loop

  unfoldable pub event_loop_actual_release_fd : EventLoop H → ℤ → Run (EventLoop H)
  event_loop_actual_release_fd loop fd = event_loop_find_fd loop fd >>= release_found loop

  -- The result of listening is not looked at.
  unfoldable pub event_loop_replace_fd : EventLoop H → ℤ → ℤ → H → Run (EventLoop H)
  event_loop_replace_fd loop fd poll_events handler = do
    released ← event_loop_actual_release_fd loop fd
    listened ← event_loop_listen_fd released fd poll_events handler
    ok listened.1

  unfoldable pub event_loop_release_fd : EventLoop H → ℤ → Run (EventLoop H)
  event_loop_release_fd loop fd = do
    to_release ← write loop.to_release loop.next_to_release fd
    ok (record loop { to_release = to_release; next_to_release = suc loop.next_to_release })

  -- With the time.
  unfoldable pub event_loop_add_periodic_task : EventLoop H → ℕ → ℤ → ℤ → Run (ℤ × EventLoop H)
  event_loop_add_periodic_task loop callback interval time =
      let task : PeriodicTask = record {
        callback = callback;
        interval = interval;
        last_done = time -ℤ interval;
      } in
      let added = write loop.periodic_tasks loop.next_periodic_task task >>= λ tasks. ok (
        pos 0,
        record loop { periodic_tasks = tasks; next_periodic_task = suc loop.next_periodic_task },
      ) in
      if loop.next_periodic_task == loop.max_periodic_tasks then ok (negsuc 0, loop) else added

  -- What `event_loop_wait_for_events` hands to `poll`: the descriptors with their events, which are
  -- read above the top of their stacks. The places from `i` on.
  unfoldable pub poll_list : EventLoop H → ℕ → ℕ → Run (List (ℤ × ℤ))
  poll_list loop zero i = ok []
  poll_list loop (suc left) i = do
    tops ← access loop.stack_tops
    j ← read tops i
    fd ← read loop.fds i
    poll_events ← read_row loop.events i j
    rest ← poll_list loop left (suc i)
    ok ((fd, poll_events) ∷ rest)

  -- The releases that were asked for, the last one first.
  unfoldable pub drain : ℕ → EventLoop H → Run (EventLoop H)
  drain zero loop = ok loop
  drain (suc n) loop = do
    fd ← read loop.to_release n
    released ← event_loop_actual_release_fd loop fd
    drain n (record released { next_to_release = n })
