-- ===== src/Week06d/Server/Inv.antt =====
-- What the server of week06d/src/server.c keeps true of its directory.
use networks_course.Prelude.{
  ℕ, zero, suc, ◌≡◌, ap, subst, Bytes, List, [], ◌∷◌, ◌++◌, ok, ok-injective, >>=-eq-ok, length,
  take, IsText,
}
use networks_course.Week06d.Directory.Inv.{IsValid}
use networks_course.Week06d.Directory.Fits.{Fits}
use networks_course.Week06d.Wire.{Self}
use networks_course.Week06d.Handlers.{buffer_size, on_client_request}
use networks_course.Week06d.Handlers.Inv.{IsBytes, drop-IsBytes, on_client_request-IsValid}
use networks_course.Week06d.Server.{
  State, Event, input_buffer, handle_client_data, handle_new_connection, handle_event, serve,
  connected, arrived,
}

-- A valid table whose entries fit their arrays, and an address that is a string.
pub record IsServing (state : State) : Type 0 where
  pub valid : IsValid state.known_nodes
  pub fits : Fits state.known_nodes
  pub is_text : IsText state.address

-- Bytes are bytes, addresses are strings.
abbrev pub IsEvent : Event → Type 0
IsEvent (connected ip) = IsText ip
IsEvent (arrived scratch junk bytes) = IsBytes junk × IsBytes bytes

abbrev pub AllEvents : List Event → Type 0
AllEvents [] = Unit {0}
AllEvents (event ∷ events) = IsEvent event × AllEvents events

append-IsBytes : (xs ys : Bytes) → IsBytes xs → IsBytes ys → IsBytes (xs ++ ys)
append-IsBytes [] ys a b = b
append-IsBytes (x ∷ xs) ys a b = (a.0, append-IsBytes xs ys a.1 b)

take-IsBytes : (n : ℕ) (xs : Bytes) → IsBytes xs → IsBytes (take n xs)
take-IsBytes zero xs h = tt
take-IsBytes (suc n) [] h = tt
take-IsBytes (suc n) (x ∷ xs) h = (h.0, take-IsBytes n xs h.1)

input_buffer-IsBytes :
    (junk bytes : Bytes) → IsBytes junk → IsBytes bytes → IsBytes (input_buffer junk bytes)
unfolding input_buffer
input_buffer-IsBytes junk bytes j b =
    append-IsBytes (take buffer_size bytes) _ (take-IsBytes buffer_size bytes b)
      (drop-IsBytes (length (take buffer_size bytes)) junk j)

handle_event-IsServing :
    (self : Self) (event : Event) (state state' : State)
    → IsEvent event
    → IsServing state
    → handle_event self event state ≡ ok state'
    → IsServing state'
unfolding handle_event handle_new_connection handle_client_data
handle_event-IsServing self (connected ip) state state' e s h =
    subst IsServing (ok-injective h) (record { valid = s.valid; fits = s.fits; is_text = e })
handle_event-IsServing self (arrived scratch junk bytes) state state' e s h =
    let (served, h1, k1) =
      >>=-eq-ok (handle_client_data self scratch state.known_nodes junk bytes state.address) _ h in
    let (reply, h2, k2) =
      >>=-eq-ok
        (on_client_request self scratch state.known_nodes (input_buffer junk bytes) state.address) _
        h1 in
    let (valid, fits) =
      on_client_request-IsValid self scratch state.known_nodes (input_buffer junk bytes)
        state.address (input_buffer-IsBytes junk bytes e.0 e.1) s.is_text s.valid s.fits h2 in
    let same = ap (λ x. x.1.known_nodes) (ok-injective k2) in
    subst IsServing (ok-injective k1) (record {
      valid = subst IsValid same valid;
      fits = subst Fits same fits;
      is_text = s.is_text;
    })

-- Whatever clients connect and whatever bytes arrive on their connections, in any order: as long as the
-- server runs, the directory is a valid table whose entries fit their arrays, where it was one before
-- and addresses are strings.
pub serve-IsServing :
    (self : Self) (events : List Event) (state state' : State)
    → AllEvents events
    → IsServing state
    → serve self events state ≡ ok state'
    → IsServing state'
unfolding serve
serve-IsServing self [] state state' e s h = subst IsServing (ok-injective h) s
serve-IsServing self (event ∷ events) state state' e s h =
    let (between, first, rest) = >>=-eq-ok (handle_event self event state) _ h in
    serve-IsServing self events between state' e.1
      (handle_event-IsServing self event state between e.0 s first) rest
