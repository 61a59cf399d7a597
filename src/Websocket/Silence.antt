-- ===== src/Websocket/Silence.antt =====
-- A websocket session notices a peer that falls silent (src/WebsocketSession.cpp).
use beast_examples.Common.{
  ℕ, ◌+◌, ◌≡◌, refl, ◌∙◌, true, false, Bool, ◌||◌, ◌&&◌, not, if◌then◌else◌, leb, nat_eqb, arith,
  Bool-cases, inl, inr,
}
use beast_examples.Http.{ErrorCode, success}
use beast_examples.Session.{at, timeout}
use beast_examples.Websocket.{Websocket, check_timer, on_timer, activity, on_ping, is_expired}

-- When a look at the timer keeps the socket.
connected-check_timer :
    (now : ℕ) (s : Websocket)
    → (check_timer now s).connected ≡ (
        if is_expired s.expiry now
        then (if s.is_open && nat_eqb s.ping_state 0 then s.connected else false)
        else s.connected)
unfolding check_timer
connected-check_timer now s = ground arith

-- The completion of a ping changes nothing but the state of the pings, and not whether one is out.
on_ping_lem :
    (e : ErrorCode) (s : Websocket)
    → ((on_ping e s).connected ≡ s.connected)
      × ((on_ping e s).expiry ≡ s.expiry)
      × (nat_eqb (on_ping e s).ping_state 0 ≡ nat_eqb s.ping_state 0)
unfolding on_ping
on_ping_lem success s = elim (Bool-cases (nat_eqb s.ping_state 1)) [
  | inl b ↦ rw b (refl, refl, ground arith)
  | inr b ↦ rw b (refl, refl, refl)
]
on_ping_lem _ s = (refl, refl, refl)

-- The second look, at a websocket of the status `still`, after the first one at `s`.
second_look :
    (now : ℕ) (still : Bool) (e : ErrorCode) (s : Websocket)
    → (check_timer now (record (on_ping e s) { is_open = still })).connected ≡ (
        if is_expired s.expiry now
        then (if still && nat_eqb s.ping_state 0 then s.connected else false)
        else s.connected)
second_look now still e s =
    let (here, expires, out) = on_ping_lem e s in
    connected-check_timer now (record (on_ping e s) { is_open = still })
    ∙ rw (here, expires, out) refl

module _ (last now : ℕ) (s : Websocket) (o : s.connected ≡ true) where
  quiet_late :
      leb (last + timeout) now ≡ true
      → let looked = check_timer now (record (activity last s) { is_open = true }) in
        (looked.pings ≡ s.pings + 1)
        × (looked.connected ≡ true)
        × (nat_eqb looked.ping_state 0 ≡ false)
        × (looked.expiry ≡ at (now + timeout))
  unfolding check_timer activity
  quiet_late late = rw (late, o) (refl, refl, refl, refl)

  quiet_down :
      leb (last + timeout) now ≡ true
      → let looked = check_timer now (record (activity last s) { is_open = false }) in
        (looked.pings ≡ s.pings) × (looked.connected ≡ false)
  unfolding check_timer activity
  quiet_down late = rw late (refl, refl)

module _ (last now : ℕ) (up : Bool) (s : Websocket) (o : s.connected ≡ true) where
  abbrev looked : Websocket
  looked = check_timer now (record (activity last s) { is_open = up })

  quiet_early :
      leb (last + timeout) now ≡ false
      → (looked.pings ≡ s.pings)
        × (looked.connected ≡ true)
        × (nat_eqb looked.ping_state 0 ≡ true)
        × (looked.expiry ≡ at (last + timeout))
  unfolding check_timer activity
  quiet_early early = rw early (refl, o, refl, refl)

-- Let a peer fall silent, and the timer be looked at twice; between, a ping that was sent may
-- complete in any way. If the first look is 15 seconds after the peer's last activity or later, then
-- a peer of an open websocket is sent a ping, and the session closes its socket at a second look 15
-- seconds after the first or later; under a websocket that is not open (no handshake, a close frame,
-- a failure) it closes the socket at once, and sends no ping. If the first look is earlier, nothing
-- is done at it, and the second look closes the socket only if it is late enough and the websocket
-- is no longer open.
pub on_timer-activity :
    (last first second : ℕ) (up still : Bool) (e : ErrorCode) (s : Websocket)
    → s.connected ≡ true
    → let looked = on_timer success first (record (activity last s) { is_open = up }) in
      let again = on_timer success second (record (on_ping e looked) { is_open = still }) in
      (looked.pings ≡ s.pings + (if leb (last + timeout) first && up then 1 else 0))
      × (again.connected ≡ (
          if leb (last + timeout) first
          then up && not (leb (first + timeout) second)
          else (still || not (leb (last + timeout) second))))
unfolding on_timer
on_timer-activity last first second true still e s o =
    let seen = second_look second still e (looked last first true s o) in
    elim (Bool-cases (leb (last + timeout) first)) [
      | inl late ↦
          let (pinged, here, sent, next) = quiet_late last first s o late in
          rw late (pinged, seen ∙ rw (next, sent, here) (ground arith))
      | inr early ↦
          let (silent, here, idle, next) = quiet_early last first true s o early in
          rw early (silent ∙ omega arith, seen ∙ rw (next, idle, here) (ground arith))
    ]
on_timer-activity last first second false still e s o =
    let seen = second_look second still e (looked last first false s o) in
    elim (Bool-cases (leb (last + timeout) first)) [
      | inl late ↦
          let (silent, gone) = quiet_down last first s o late in
          rw late (silent ∙ omega arith, seen ∙ rw gone (ground arith))
      | inr early ↦
          let (silent, here, idle, next) = quiet_early last first false s o early in
          rw early (silent ∙ omega arith, seen ∙ rw (next, idle, here) (ground arith))
    ]
