-- ===== src/Websocket/Passing.antt =====
-- What passes through a websocket relay of glopfile-relay/src/websocket.rs.
use glopfile.Base.{
  ℕ, ◌+◌, ◌≡◌, refl, sym, inl, inr, List, [], ◌∷◌, ◌++◌, map, map-append, append-nil, none, some,
  Bool, true, false, not, Bool-cases, if◌then◌else◌,
}
use glopfile.Session.Types.{Token, Channel, Frame, Direction, Peer, Command, WebsocketCommand}
use glopfile.Websocket.{
  Incoming, Outgoing, Wake, Event, Timers, started, idle_timeout, Woken, on_wake, and_then,
  relay_loop, disconnect, relay,
}

-- Whether an event ends the relay.
abbrev pub ends : Wake → Bool → Bool
ends (Wake.command (some (WebsocketCommand.send f))) taken = not taken
ends (Wake.command (some WebsocketCommand.session_error)) taken = true
ends (Wake.command none) taken = true
ends (Wake.frame none) taken = true
ends (Wake.frame (some Incoming.close)) taken = true
ends (Wake.frame (some (Incoming.content f))) taken = false
ends (Wake.frame (some Incoming.ping_or_pong)) taken = false
ends Wake.ping taken = not taken
ends Wake.idle taken = true

-- The events up to the one that ends the relay.
abbrev pub up_to_end : List Event → List Event
up_to_end [] = []
up_to_end (e ∷ es) = e ∷ (if ends e.wake e.taken then [] else up_to_end es)

abbrev pub has_end : List Event → Bool
has_end [] = false
has_end (e ∷ es) = if ends e.wake e.taken then true else has_end es

-- The content frames of the socket, and the messages for it.
abbrev pub frames_of : Wake → List Frame
frames_of (Wake.frame (some (Incoming.content f))) = f ∷ []
frames_of _ = []

abbrev pub frames : List Event → List Frame
frames [] = []
frames (e ∷ es) = frames_of e.wake ++ frames es

abbrev pub messages_of : Wake → List Outgoing
messages_of (Wake.command (some (WebsocketCommand.send f))) = Outgoing.content f ∷ []
messages_of Wake.ping = Outgoing.ping ∷ []
messages_of _ = []

abbrev pub messages : List Event → List Outgoing
messages [] = []
messages (e ∷ es) = messages_of e.wake ++ messages es

-- When the socket last brought something, from a time on.
abbrev pub heard_at : ℕ → ℕ → Wake → ℕ
heard_at last at (Wake.frame (some m)) = at
heard_at last at _ = last

abbrev pub last_heard : ℕ → List Event → ℕ
last_heard last [] = last
last_heard last (e ∷ es) = last_heard (heard_at last e.at e.wake) es

abbrev pub leaving : Direction → Token → Bool → List Command
leaving direction token false = []
leaving direction token true = Command.disconnected token (Peer.websocket direction) ∷ []

module _ (direction : Direction) where
  abbrev Passes : Wake → Bool → ℕ → ℕ → Woken → Type 0
  Passes w taken last at r =
      (r.to_session ≡ map (Command.websocket_data direction) (frames_of w))
      × (r.to_socket ≡ messages_of w)
      × (r.goes_on ≡ not (ends w taken))
      × (r.timers.idle ≡ heard_at last at w + idle_timeout)

  on_wake-Passes :
      (w : Wake) (taken : Bool) (last at : ℕ) (t : Timers)
      → t.idle ≡ last + idle_timeout
      → Passes w taken last at (on_wake direction at w taken t)
  unfolding on_wake
  on_wake-Passes (Wake.command none) taken last at t e = (refl, refl, refl, e)
  on_wake-Passes (Wake.command (some WebsocketCommand.session_error)) taken last at t e =
      (refl, refl, refl, e)
  on_wake-Passes (Wake.command (some (WebsocketCommand.send f))) true last at t e =
      (refl, refl, refl, e)
  on_wake-Passes (Wake.command (some (WebsocketCommand.send f))) false last at t e =
      (refl, refl, refl, e)
  on_wake-Passes (Wake.frame none) taken last at t e = (refl, refl, refl, e)
  on_wake-Passes (Wake.frame (some Incoming.close)) taken last at t e = (refl, refl, refl, refl)
  on_wake-Passes (Wake.frame (some (Incoming.content f))) taken last at t e =
      (refl, refl, refl, refl)
  on_wake-Passes (Wake.frame (some Incoming.ping_or_pong)) taken last at t e =
      (refl, refl, refl, refl)
  on_wake-Passes Wake.ping true last at t e = (refl, refl, refl, e)
  on_wake-Passes Wake.ping false last at t e = (refl, refl, refl, e)
  on_wake-Passes Wake.idle taken last at t e = (refl, refl, refl, e)

  abbrev PassesAll : ℕ → List Event → Woken → Type 0
  PassesAll last es r =
      (r.to_session ≡ map (Command.websocket_data direction) (frames (up_to_end es)))
      × (r.to_socket ≡ messages (up_to_end es))
      × (r.goes_on ≡ not (has_end es))
      × (r.timers.idle ≡ last_heard last (up_to_end es) + idle_timeout)

  going_on :
      (x : Event) (es : List Event) (last : ℕ) (w rest : Woken)
      → ends x.wake x.taken ≡ false
      → Passes x.wake x.taken last x.at w
      → PassesAll (heard_at last x.at x.wake) es rest
      → PassesAll last (x ∷ es) (if w.goes_on then and_then direction w rest else w)
  going_on x es last w rest q (a, b, c, d) (f, g, h, i) =
      rw (c, q)
        (
          rw (a, f)
              (sym (
                map-append (Command.websocket_data direction) (frames_of x.wake)
                  (frames (up_to_end es)))),
          rw (b, g) refl,
          h,
          i,
        )

  ending :
      (x : Event) (es : List Event) (last : ℕ) (w rest : Woken)
      → ends x.wake x.taken ≡ true
      → Passes x.wake x.taken last x.at w
      → PassesAll last (x ∷ es) (if w.goes_on then and_then direction w rest else w)
  ending x es last w rest q (a, b, c, d) =
      rw (c, q)
        (rw (append-nil (frames_of x.wake)) a, rw (append-nil (messages_of x.wake)) b, refl, d)

  relay_loop-PassesAll :
      (es : List Event) (last : ℕ) (t : Timers)
      → t.idle ≡ last + idle_timeout
      → PassesAll last es (relay_loop direction es t)
  unfolding relay_loop
  relay_loop-PassesAll [] last t e = (refl, refl, refl, e)
  relay_loop-PassesAll (x ∷ es) last t e =
      let w = on_wake direction x.at x.wake x.taken t in
      let p = on_wake-Passes x.wake x.taken last x.at t e in
      elim (Bool-cases (ends x.wake x.taken)) [
        | inl q ↦ ending x es last w (relay_loop direction es w.timers) q p
        | inr q ↦
            going_on x es last w (relay_loop direction es w.timers) q p
              (relay_loop-PassesAll es (heard_at last x.at x.wake) w.timers p.3)
      ]

  leaving_lem :
      (token : Token) (b : Bool) → disconnect direction token (not b) ≡ leaving direction token b
  leaving_lem token true = refl
  leaving_lem token false = refl

  -- A relay whose websocket was registered with the session passes on, up to the first event that ends
  -- it and in their order, all frames of the socket to the session and all commanded frames and pings to
  -- the socket; it tells the session of its registration first, and when it has ended, and only then, of
  -- that last; and its idle timer runs from when the socket last brought something, or from its start,
  -- whatever is sent meanwhile. If the registration is not answered, the session is told nothing else.
  pub relay_passes_on :
      (token : Token) (commands reply : Channel) (now : ℕ) (es : List Event)
      → let start =
          Command.start_websocket direction (record { token = token; commands = commands }) reply in
        let r = relay direction token commands reply true now es in
        (r.to_session
          ≡ start
            ∷ (map (Command.websocket_data direction) (frames (up_to_end es))
                ++ leaving direction token (has_end es)))
        × (r.to_socket ≡ messages (up_to_end es))
        × (r.timers.idle ≡ last_heard now (up_to_end es) + idle_timeout)
        × ((relay direction token commands reply false now es).to_session ≡ start ∷ [])
  unfolding relay
  relay_passes_on token commands reply now es =
      let (a, b, c, d) = relay_loop-PassesAll es now (started now) refl in
      (rw (a, c, leaving_lem token (has_end es)) refl, b, d, refl)
