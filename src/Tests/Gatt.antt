-- ===== src/Tests/Gatt.antt =====
-- Frames and requests of src/ptlab/gatt.py.
use pinetime_dev_tools.Prelude.{
  ℕ, List, [], ◌∷◌, ◌++◌, Option, none, some, true, String, All, ◌≡◌, refl, arith,
}
use pinetime_dev_tools.Prelude.Result.{ok}
use pinetime_dev_tools.Prelude.State.{pure, ◌>>=◌}
use pinetime_dev_tools.Bytes.{Bytes}
use pinetime_dev_tools.Gatt.Frame.{Frame, response, notification, FrameParser, feed}
use pinetime_dev_tools.Gatt.Frame.Chunks.{feed-append}
use pinetime_dev_tools.Gatt.Frame.RoundTrip.{feed_all, FrameFits, fresh, feed_all-stream}
use pinetime_dev_tools.Gatt.Frame.Bounds.{Sound, outcome, feed-Sound}
use pinetime_dev_tools.Gatt.Names.{by_name, by_id, resolve_characteristic, resolve_inverse}
use pinetime_dev_tools.Gatt.Client.{
  GattResponse, GattNotification, Client, chunk, op_read, check_request, request, next_notification,
}
use pinetime_dev_tools.Gatt.Client.Order.{Ahead}
use pinetime_dev_tools.Gatt.Client.Sending.{due, request_sent}
use pinetime_dev_tools.Gatt.Client.Requests.{Handed, request_in_order, next_notification_in_order}

abbrev parser : FrameParser
parser = fresh 64

abbrev first_bytes : Bytes
first_bytes = 0 ∷ 2 ∷ 0 ∷ 7 ∷ []

abbrev later_bytes : Bytes
later_bytes = 8 ∷ 0xf0 ∷ 4 ∷ 1 ∷ 0 ∷ 90 ∷ []

feed-append_example :
    feed (first_bytes ++ later_bytes) parser
    ≡ (do fs ← feed first_bytes; gs ← feed later_bytes; pure (fs ++ gs)) parser
feed-append_example = feed-append first_bytes later_bytes parser

abbrev frames : List Frame
frames = response 0 (7 ∷ 8 ∷ []) ∷ notification 4 (90 ∷ []) ∷ []

frames_fit : All (FrameFits 64) frames
frames_fit = (((λ e. cc), omega arith), (omega arith, tt))

feed_all-stream_example :
    feed_all (first_bytes ∷ later_bytes ∷ []) (fresh 64) ≡ (ok frames, fresh 64)
feed_all-stream_example =
    feed_all-stream 64 frames (first_bytes ∷ later_bytes ∷ []) (omega arith) frames_fit refl

feed-Sound_example :
    Sound 64 (outcome (feed first_bytes parser))
    × ((feed first_bytes parser).1.maximum_payload ≡ 64)
feed-Sound_example = feed-Sound first_bytes parser

resolve_inverse_example :
    (resolve_characteristic (by_name "battery") ≡ ok ("battery", 4)
      → (◌≡◌ {A = String} "battery" "battery")
        × (resolve_characteristic (by_id 4) ≡ ok ("battery", 4)))
    × (resolve_characteristic (by_id 4) ≡ ok ("battery", 4)
        → (◌≡◌ {A = ℕ} 4 4) × (resolve_characteristic (by_name "battery") ≡ ok ("battery", 4)))
resolve_inverse_example = resolve_inverse "battery" "battery" 4 4

-- A battery response and, behind it, a battery notification, in two chunks.
abbrev client : Client
client = record {
  parser = fresh 64;
  responses = [];
  notifications = [];
  transcript = none;
  is_open = true;
  incoming = chunk 0 (2 ∷ 0 ∷ 7 ∷ []) ∷ chunk 8 (0xf0 ∷ 4 ∷ 1 ∷ 0 ∷ 90 ∷ []) ∷ [];
  sends = [];
  sent = [];
}

request_sent_example :
    (request (by_name "battery") op_read [] client).1.sent
    ≡ client.sent ++ due (check_request (by_name "battery") op_read []) op_read [] client
request_sent_example = request_sent (by_name "battery") op_read [] client

abbrev battery_response : GattResponse
battery_response = record { status = 0; payload = 7 ∷ 8 ∷ [] }

abbrev battery_notification : GattNotification
battery_notification = record { characteristic = 4; payload = 90 ∷ [] }

battery_known : resolve_characteristic (by_id 4) ≡ ok ("battery", 4)
unfolding resolve_characteristic
battery_known = refl

read_allowed : check_request (by_name "battery") op_read [] ≡ ok ("battery", 4)
unfolding check_request resolve_characteristic
read_allowed = refl

frames-Ahead : Ahead client (battery_response ∷ []) (battery_notification ∷ [])
frames-Ahead = record {
  frames = frames;
  last = fresh 64;
  parses = feed_all-stream 64 frames (first_bytes ∷ later_bytes ∷ []) (omega arith) frames_fit refl;
  chunks = (tt, (tt, tt));
  known = (tt, (("battery", battery_known), tt));
  responses_are = refl;
  notifications_are = refl;
}

request_in_order_example :
    Handed
      (Option GattResponse)
      []
      (battery_notification ∷ [])
      (some battery_response)
      (request (by_name "battery") op_read [] client)
request_in_order_example =
    request_in_order (by_name "battery") op_read [] client battery_response []
      (battery_notification ∷ []) read_allowed (λ e. cc) refl tt frames-Ahead

next_notification_in_order_example :
    Handed GattNotification
      (battery_response ∷ [])
      []
      battery_notification
      (next_notification client)
next_notification_in_order_example =
    next_notification_in_order client battery_notification (battery_response ∷ []) [] refl
      frames-Ahead
