-- ===== src/Tests/Loop.antt =====
-- week06d: the event loop.
use networks_course.Prelude.{
  ℕ, ◌+◌, ◌≤◌, ◌≡◌, ◌⊎◌, refl, ap, subst, Bytes, ℤ, pos, negsuc, is_neg, [], ◌∷◌, some, Run, ok,
  fault, ◌>>=◌, read, write, shift, ok-injective, >>=-eq-ok, codes, ◌==◌, if◌then◌else◌, arith,
}
use networks_course.Week06d.Directory.{Directory, init_known_nodes_hashmap}
use networks_course.Week06d.Server.{handle_client_data}
use networks_course.Tests.Protocol.{server, scratch}
use networks_course.Week06d.EventLoop.{
  Slot, PeriodicTask, EventLoop, find_fd, close_gap, event_loop_remove_fd,
  event_loop_schedule_remove_fd, drain, after_callback, dispatch_slot, dispatch_from,
}
use networks_course.Week06d.EventLoop.Slots.{
  registered, IsValid, RemovedFd, event_loop_remove_fd-RemovedFd,
}
use networks_course.Week06d.EventLoop.Removals.{remove_all, drain_lem}
use networks_course.Week06d.EventLoop.Rounds.{
  dispatch_from_ignores_events, Behaves, Faults, dispatch_from_total,
}

abbrev slot : ℕ → Slot ℕ ℕ
slot fd = record { fd = pos fd; events = 1; revents = 1; callback = 0; args = 0 }

abbrev task : PeriodicTask ℕ
task = record { callback = 0; interval = pos 0; last_done = pos 0 }

-- Room for three descriptors; 4 and 5 are registered, and 4 is to be removed.
abbrev loop : EventLoop ℕ ℕ
loop = record {
  slots = slot 4 ∷ slot 5 ∷ slot 0 ∷ [];
  next_fd = 2;
  max_fds = 3;
  tasks = task ∷ task ∷ task ∷ [];
  next_periodic_task = 0;
  max_periodic_tasks = 1;
  to_remove = pos 4 ∷ pos 0 ∷ pos 0 ∷ [];
  next_to_remove = 1;
}

abbrev idle : EventLoop ℕ ℕ
idle = record loop { next_to_remove = 0 }

loop-IsValid : IsValid loop
loop-IsValid = omega arith

idle-IsValid : IsValid idle
idle-IsValid = omega arith

loop_program : Unit {0}
unfolding event_loop_remove_fd find_fd close_gap shift read write drain dispatch_from dispatch_slot
    after_callback event_loop_schedule_remove_fd
loop_program = tt

removed :
    drain 1 loop
    ≡ ok (record loop { slots = slot 5 ∷ slot 5 ∷ slot 0 ∷ []; next_fd = 1; next_to_remove = 0 })
unfolding loop_program
removed = refl

event_loop_remove_fd-RemovedFd_example :
    (r : EventLoop ℕ ℕ × ℤ) × (event_loop_remove_fd loop (pos 4) ≡ ok r) × RemovedFd loop (pos 4) r
event_loop_remove_fd-RemovedFd_example = event_loop_remove_fd-RemovedFd loop (pos 4) loop-IsValid

drain_lem_example :
    (loop' : EventLoop ℕ ℕ) × (drain 1 loop ≡ ok loop')
    × IsValid loop'
    × (registered loop' ≡ remove_all 1 (pos 4 ∷ pos 0 ∷ pos 0 ∷ []) (slot 4 ∷ slot 5 ∷ []))
    × (loop'.next_to_remove ≡ 0)
drain_lem_example = drain_lem 1 loop loop-IsValid refl

abbrev Call : Type 0
Call = ℕ → ℤ → ℕ → ℕ → ℕ × EventLoop ℕ ℕ → Run ((ℕ × EventLoop ℕ ℕ) × ℤ)

-- A callback that fails, and one that fails only if it is told of an event.
abbrev failing : Call
failing callback fd events args s = ok (s, negsuc 0)

abbrev picky : Call
picky callback fd events args s = ok (s, if events == 0 then negsuc 0 else pos 0)

abbrev close : ℤ → ℕ → ℕ
close fd w = w + 1

dispatch_from_ignores_events_example :
    dispatch_from failing close 4 0 (0, idle) ≡ dispatch_from picky close 4 0 (0, idle)
dispatch_from_ignores_events_example =
    dispatch_from_ignores_events close failing picky (λ callback fd args s. refl) 4 0 (0, idle)

-- The server of week06d on two clients that have sent the bytes of a text: `handle_client_data` is
-- the callback and the address of the client its argument.
abbrev Serving : Type 0
Serving = Directory × EventLoop ℕ Bytes

abbrev serve_client : ℕ → ℤ → ℕ → Bytes → Serving → Run (Serving × ℤ)
serve_client callback fd events ip (known_nodes, loop') =
    handle_client_data server scratch known_nodes [] (codes "ping") ip >>= λ served.
    ok (((served.1).known_nodes, loop'), served.0)

abbrev client : ℤ → Slot ℕ Bytes
client fd = record { fd = fd; events = 1; revents = 1; callback = 0; args = codes "10.0.0.7" }

abbrev clients : EventLoop ℕ Bytes
clients = record {
  slots = client (pos 4) ∷ client (pos 5) ∷ client (pos 0) ∷ [];
  next_fd = 2;
  max_fds = 3;
  tasks = task ∷ task ∷ task ∷ [];
  next_periodic_task = 0;
  max_periodic_tasks = 0;
  to_remove = pos 0 ∷ pos 0 ∷ pos 0 ∷ [];
  next_to_remove = 0;
}

clients-IsValid : IsValid clients
clients-IsValid = omega arith

removal : (n : ℕ) (result : ℤ) → n + (if is_neg result then 1 else 0) ≤ n + 1
removal n (pos r) = omega arith
removal n (negsuc r) = omega arith

serve_client-Behaves : Behaves serve_client
serve_client-Behaves = record {
  behaves = λ callback fd ip s s' result v h run.
      let (served, e, same) =
        >>=-eq-ok (handle_client_data server scratch s.0 [] (codes "ping") ip) _ run in
      let kept : s.1 ≡ s'.1 = ap (λ x. (x.0).1) (ok-injective same) in
      subst
        (λ l.
          IsValid l
          × (l.max_fds ≡ (s.1).max_fds)
          × (l.next_to_remove + (if is_neg result then 1 else 0) ≤ (s.1).next_to_remove + 1))
        kept (v, refl, removal (s.1).next_to_remove result);
}

dispatch_from_total_example :
    Faults serve_client (λ fd w. w) 0 (init_known_nodes_hashmap, clients)
      × (dispatch_from serve_client (λ fd w. w) 4 0 (init_known_nodes_hashmap, clients) ≡ fault)
    ⊎ (s' : Serving) × (dispatch_from serve_client
          (λ fd w. w)
          4
          0
          (init_known_nodes_hashmap, clients)
        ≡ ok (some s'))
      × IsValid s'.1
      × (s'.1.max_fds ≡ 3)
dispatch_from_total_example =
    dispatch_from_total serve_client (λ fd w. w) serve_client-Behaves 4 0
      (init_known_nodes_hashmap, clients) clients-IsValid (omega arith) (omega arith) (omega arith)
