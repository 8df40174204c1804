-- ===== src/Week06/EventLoop/Inert.antt =====
-- What the event loop of week06/src/event_loop.c can do after it was initialised.
use networks_course.Prelude.{
  ℕ, ◌≡◌, refl, sym, ap, subst, ◌∙◌, ℤ, pos, int_eq, true, List, [], ◌∷◌, Option, none, Run, ok,
  fault, ◌>>=◌, access, write, ok-injective, >>=-eq-ok, if-cases, ◌==◌, if◌then◌else◌,
  returns-fault,
}
use networks_course.Week06.EventLoop.Rounds.{World, loop_round, event_loop_run_loop}
use networks_course.Week06.EventLoop.{
  EventLoop, event_loop_init, find_from, event_loop_find_fd, listen_found, event_loop_listen_fd,
  release_found, event_loop_actual_release_fd, event_loop_replace_fd, event_loop_release_fd,
  event_loop_add_periodic_task,
}

-- A call of the functions that the rest of the program uses.
pub data Call {ℓ} (H : Type ℓ) : Type ℓ where
  listen : ℤ → ℤ → H → Call H
  replace : ℤ → ℤ → H → Call H
  release : ℤ → Call H
  add_periodic_task : ℕ → ℤ → ℤ → Call H

unfoldable pub perform {ℓ} : {H : Type ℓ} → Call H → EventLoop H → Run (EventLoop H)
perform (listen fd poll_events handler) loop =
    event_loop_listen_fd loop fd poll_events handler >>= λ listened. ok listened.1
perform (replace fd poll_events handler) loop = event_loop_replace_fd loop fd poll_events handler
perform (release fd) loop = event_loop_release_fd loop fd
perform (add_periodic_task callback interval time) loop =
    event_loop_add_periodic_task loop callback interval time >>= λ added. ok added.1

-- The event loops that calls lead to.
pub data Reach {ℓ} {H : Type ℓ} (start : EventLoop H) : EventLoop H → Type ℓ where
  here : Reach start start
  next :
      (call : Call H) (loop loop' : EventLoop H)
      → Reach start loop
      → perform call loop ≡ ok loop'
      → Reach start loop'

-- No descriptor is listened to, none can be, and the loop is not to be run.
pub record IsInert {ℓ} {H : Type ℓ} (loop : EventLoop H) : Type ℓ where
  pub no_stacks : loop.stack_tops ≡ none
  pub no_fds : loop.next_fd ≡ 0
  pub stopped : loop.keep_alive ≡ pos 0

access-none {ℓ κ} :
    {A : Type ℓ} {B : Type κ} (o : Option A) (k : A → Run B) → o ≡ none → (access o >>= k) ≡ fault
access-none o k e = rw e refl

module _ {ℓ} {H : Type ℓ} where
  find_none : (loop : EventLoop H) (fd : ℤ) → IsInert loop → event_loop_find_fd loop fd ≡ ok none
  unfolding event_loop_find_fd find_from
  find_none loop fd i = ap (λ n. find_from loop.fds fd n 0) i.no_fds

  pub listen_faults :
      (loop : EventLoop H) (fd poll_events : ℤ) (handler : H)
      → IsInert loop
      → (event_loop_find_fd loop fd >>= listen_found loop fd poll_events handler) ≡ fault
  unfolding listen_found
  listen_faults loop fd poll_events handler i =
      ap (λ r. r >>= listen_found loop fd poll_events handler) (find_none loop fd i)
      ∙ access-none loop.stack_tops _ i.no_stacks

  listen-IsInert :
      (loop : EventLoop H) (listened : ℤ × EventLoop H) (fd poll_events : ℤ) (handler : H)
      → IsInert loop
      → event_loop_listen_fd loop fd poll_events handler ≡ ok listened
      → IsInert listened.1
  unfolding event_loop_listen_fd
  listen-IsInert loop listened fd poll_events handler i h =
      if-cases (loop.next_fd == loop.max_fds) (λ r. r ≡ ok listened)
        (λ full. subst (λ x. IsInert x.1) (ok-injective full) i)
        (λ room. returns-fault (listen_faults loop fd poll_events handler i) room) h

  release-same :
      (loop : EventLoop H) (fd : ℤ) → IsInert loop → event_loop_actual_release_fd loop fd ≡ ok loop
  unfolding event_loop_actual_release_fd release_found
  release-same loop fd i = ap (λ r. r >>= release_found loop) (find_none loop fd i)

  add-IsInert :
      (loop : EventLoop H) (added : ℤ × EventLoop H) (callback : ℕ) (interval time : ℤ)
      → IsInert loop
      → event_loop_add_periodic_task loop callback interval time ≡ ok added
      → IsInert added.1
  unfolding event_loop_add_periodic_task
  add-IsInert loop added callback interval time i h =
      if-cases (loop.next_periodic_task == loop.max_periodic_tasks) (λ r. r ≡ ok added)
        (λ full. subst (λ x. IsInert x.1) (ok-injective full) i)
        (λ room.
          let (tasks, _, k) =
            >>=-eq-ok (write loop.periodic_tasks loop.next_periodic_task _) _ room in
          subst (λ x. IsInert x.1) (ok-injective k)
            (record { no_stacks = i.no_stacks; no_fds = i.no_fds; stopped = i.stopped }))
        h

  perform-IsInert :
      (call : Call H) (loop loop' : EventLoop H)
      → IsInert loop
      → perform call loop ≡ ok loop'
      → IsInert loop'
  unfolding perform event_loop_replace_fd event_loop_release_fd
  perform-IsInert (listen fd poll_events handler) loop loop' i h =
      let (listened, e, k) = >>=-eq-ok (event_loop_listen_fd loop fd poll_events handler) _ h in
      subst IsInert (ok-injective k) (listen-IsInert loop listened fd poll_events handler i e)
  perform-IsInert (replace fd poll_events handler) loop loop' i h =
      let (released, e, k) = >>=-eq-ok (event_loop_actual_release_fd loop fd) _ h in
      let (listened, e', k') =
        >>=-eq-ok (event_loop_listen_fd released fd poll_events handler) _ k in
      let same : loop ≡ released = ok-injective (sym (release-same loop fd i) ∙ e) in
      subst IsInert (ok-injective k')
        (listen-IsInert released listened fd poll_events handler (subst IsInert same i) e')
  perform-IsInert (release fd) loop loop' i h =
      let (to_release, e, k) = >>=-eq-ok (write loop.to_release loop.next_to_release fd) _ h in
      subst IsInert (ok-injective k)
        (record { no_stacks = i.no_stacks; no_fds = i.no_fds; stopped = i.stopped })
  perform-IsInert (add_periodic_task callback interval time) loop loop' i h =
      let (added, e, k) =
        >>=-eq-ok (event_loop_add_periodic_task loop callback interval time) _ h in
      subst IsInert (ok-injective k) (add-IsInert loop added callback interval time i e)

  pub init-IsInert :
      (max_fds max_fd_overrides max_periodic_tasks : ℕ)
      → IsInert {H = H} (event_loop_init max_fds max_fd_overrides max_periodic_tasks)
  unfolding event_loop_init
  init-IsInert max_fds max_fd_overrides max_periodic_tasks = record {
    no_stacks = refl;
    no_fds = refl;
    stopped = refl;
  }

  Reach-IsInert : (start loop : EventLoop H) → IsInert start → Reach start loop → IsInert loop
  Reach-IsInert start _ i here = i
  Reach-IsInert start _ i (next call loop loop' r h) =
      perform-IsInert call loop loop' (Reach-IsInert start loop i r) h

run_stopped {ℓ} :
    {H : Type ℓ} (worlds : List (World H)) (loop : EventLoop H)
    → loop.keep_alive ≡ pos 0
    → event_loop_run_loop worlds loop ≡ ok (true, loop)
unfolding event_loop_run_loop
run_stopped [] loop e = ap (λ n. ok (int_eq n (pos 0), loop)) e
run_stopped (w ∷ worlds) loop e =
    ap
      (λ n.
        if int_eq n (pos 0)
        then ok (true, loop)
        else loop_round w loop >>= event_loop_run_loop worlds)
      e

-- Whatever calls the program makes after the event loop was initialised, as long as they return: no
-- descriptor is listened to, the stacks of callbacks are not allocated, and the loop ends before its
-- first round, with nothing changed.
pub event_loop_run_loop-init {ℓ} :
    {H : Type ℓ} (max_fds max_fd_overrides max_periodic_tasks : ℕ) (loop : EventLoop H)
    (worlds : List (World H))
    → Reach (event_loop_init max_fds max_fd_overrides max_periodic_tasks) loop
    → IsInert loop × (event_loop_run_loop worlds loop ≡ ok (true, loop))
unfolding event_loop_run_loop
event_loop_run_loop-init max_fds max_fd_overrides max_periodic_tasks loop worlds r =
    let i = Reach-IsInert _ loop (init-IsInert max_fds max_fd_overrides max_periodic_tasks) r in
    (i, run_stopped worlds loop i.stopped)
