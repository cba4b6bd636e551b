-- ===== src/Examples/Sockets.antt =====
-- The theorem on websocket relays at a concrete input.
use glopfile.Base.{◌+◌, ◌≡◌, List, [], ◌∷◌, ◌++◌, map, some, true, false}
use glopfile.Session.Types.{Frame, Direction, Command, WebsocketCommand}
use glopfile.Websocket.{Incoming, Wake, Event, idle_timeout, relay}
use glopfile.Websocket.Passing.{
  frames, messages, up_to_end, has_end, last_heard, leaving, relay_passes_on,
}

-- A frame, a ping, a command to send, and a socket that is idle for too long.
abbrev events : List Event
events =
    record {
      at = 1000;
      wake = Wake.frame (some (Incoming.content (Frame.text "hello")));
      taken = true;
    }
    ∷ record { at = 6000; wake = Wake.ping; taken = true }
    ∷ record {
      at = 7000;
      wake = Wake.command (some (WebsocketCommand.send (Frame.text "hi")));
      taken = true;
    }
    ∷ record { at = 31000; wake = Wake.idle; taken = true }
    ∷ record { at = 31001; wake = Wake.ping; taken = true }
    ∷ []

relay_passes_on_example :
    let start = Command.start_websocket Direction.upload (record { token = 5; commands = 6 }) 7 in
    let r = relay Direction.upload 5 6 7 true 0 events in
    (r.to_session
      ≡ start
        ∷ (map (Command.websocket_data Direction.upload) (frames (up_to_end events))
            ++ leaving Direction.upload 5 (has_end events)))
    × (r.to_socket ≡ messages (up_to_end events))
    × (r.timers.idle ≡ last_heard 0 (up_to_end events) + idle_timeout)
    × ((relay Direction.upload 5 6 7 false 0 events).to_session ≡ start ∷ [])
relay_passes_on_example = relay_passes_on Direction.upload 5 6 7 0 events
