-- ===== src/Week06/Listening/Starting.antt =====
-- How far the server of week06 comes.
use networks_course.Prelude.{
  ℕ, ◌<◌, ◌≡◌, ◌≢◌, refl, Bytes, ℤ, is_neg, false, ok, fault, arith, ==_ne,
}
use networks_course.Sockets.{History, System}
use networks_course.Week06.EventLoop.{EventLoop, event_loop_init, event_loop_listen_fd}
use networks_course.Week06.EventLoop.Inert.{IsInert, listen_faults, init-IsInert}
use networks_course.Week06.Listening.{
  poll_in, poll_out, connect_plain, create_master_socket, listen_fd, send_request_sock,
  send_request_plain, start_listening, server_main,
}

module _ {H : Type 0} where
  listen_fd-IsInert :
      (system : System) (loop : EventLoop H) (sock events : ℤ) (handler : H) (h : History)
      → IsInert loop
      → loop.next_fd ≢ loop.max_fds
      → listen_fd system loop sock events handler h ≡ fault
  unfolding listen_fd event_loop_listen_fd
  listen_fd-IsInert system loop sock events handler h i room =
      rw (==_ne loop.next_fd loop.max_fds room, listen_faults loop sock events handler i) refl

  -- With the event loop that `main` has just made by `event_loop_init`, with at least one place,
  -- the server does not start: where its socket can be opened, telling the event loop of it goes
  -- through a pointer that was never set.
  pub server_main-event_loop_init :
      (system : System) (max_fds max_fd_overrides max_periodic_tasks listen_port ping : ℕ)
      (handler : H) (ping_interval now : ℤ) (h h' : History) (master : ℤ)
      → 0 < max_fds
      → create_master_socket system listen_port h ≡ ok (master, h')
      → is_neg master ≡ false
      → server_main system
          (event_loop_init max_fds max_fd_overrides max_periodic_tasks)
          listen_port
          handler
          ping
          ping_interval
          now
          h
        ≡ fault
  unfolding server_main start_listening event_loop_init
  server_main-event_loop_init system max_fds max_fd_overrides max_periodic_tasks listen_port ping
        handler ping_interval now h h' master lt e valid =
      let loop : EventLoop H = event_loop_init max_fds max_fd_overrides max_periodic_tasks in
      rw
        (
          e,
          valid,
          listen_fd-IsInert system loop master poll_in handler h'
              (init-IsInert max_fds max_fd_overrides max_periodic_tasks)
              (λ same. omega (arith, lt, same)),
        )
        refl

  -- Nor does it send a request: where the node can be connected to, the same pointer is used.
  pub send_request_plain-IsInert :
      (system : System) (loop : EventLoop H) (ip : Bytes) (port : ℕ) (handler : H) (h h' : History)
      (sock : ℤ)
      → IsInert loop
      → loop.next_fd ≢ loop.max_fds
      → connect_plain system ip port h ≡ ok (sock, h')
      → is_neg sock ≡ false
      → send_request_plain system loop ip port handler h ≡ fault
  unfolding send_request_plain send_request_sock
  send_request_plain-IsInert system loop ip port handler h h' sock i room e valid =
      rw (e, valid, listen_fd-IsInert system loop sock poll_out handler h' i room) refl
