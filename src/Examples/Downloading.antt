-- ===== src/Examples/Downloading.antt =====
-- The theorems on the download handler of glopfile-relay/src/api.rs at concrete inputs.
use glopfile.Base.{◌≡◌, refl, [], ◌∷◌, flatten}
use glopfile.Session.Types.{Command}
use glopfile.Session.Relay
use glopfile.Session.Relay.{handle}
use glopfile.Session.Handlers.{check_start_position}
use glopfile.Session.Task.{run}
use glopfile.Session.Delivery.{Agrees}
use glopfile.Api.Downloads.{stream, events_on}
use glopfile.Api.Downloads.Bodies.{body-Agrees}
use glopfile.Examples.Relaying.{
  content, ack, fresh_state, watcher, uploading, uploading_honest, fresh_state-Faithful,
}

body-Agrees_example : Agrees content 2 (
    flatten
      (stream
        (events_on 9 (run ack (Command.start_download watcher 10 ∷ uploading) fresh_state).1)).0)
body-Agrees_example =
    body-Agrees content ack watcher 10 uploading fresh_state fresh_state-Faithful uploading_honest
      refl (tt, (tt, (tt, tt)))

-- The whole content reaches the watcher.
body_whole :
    flatten
      (stream
        (events_on 9 (run ack (Command.start_download watcher 10 ∷ uploading) fresh_state).1)).0
    ≡ 2 ∷ 3 ∷ 4 ∷ []
unfolding stream events_on run handle Relay.start_download Relay.start_upload Relay.upload_data
    check_start_position
body_whole = refl
