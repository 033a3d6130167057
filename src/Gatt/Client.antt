-- ===== src/Gatt/Client.antt =====
-- `GattClient` of src/ptlab/gatt.py: the queues, the transcript, and the socket. What the socket
-- will do is part of the state: the chunks that `recv` returns, and how far each `sendall` comes.
pub mod Sending
pub mod Order
pub mod Waiting
pub mod Requests
use pinetime_dev_tools.Prelude.{
  ℕ, ◌+◌, List, [], ◌∷◌, ◌++◌, Option, none, some, Bool, true, false, not, ◌&&◌, ◌||◌, ltb, ◌==◌,
  if◌then◌else◌, String, str_eq, length, take,
}
use pinetime_dev_tools.Prelude.Int.{ℤ, between, is_positive}
use pinetime_dev_tools.Prelude.Result.{Result, ok, err, map_err}
use pinetime_dev_tools.Prelude.Result
use pinetime_dev_tools.Prelude.State.{Exec, pure, raise, lift, gets, modify, ◌>>=◌, ◌>>◌}
use pinetime_dev_tools.Bytes.{Bytes, le_bytes}
use pinetime_dev_tools.Gatt.Frame.{Frame, response, notification, FrameError, FrameParser, feed}
use pinetime_dev_tools.Gatt.Names.{Characteristic, by_id, NameError, resolve_characteristic}

abbrev pub op_write : ℕ
op_write = 0

abbrev pub op_read : ℕ
op_read = 1

abbrev pub op_write_without_response : ℕ
op_write_without_response = 2

abbrev pub max_request_payload : ℕ
max_request_payload = 508

abbrev pub max_response_payload : ℕ
max_response_payload = 64

pub record GattResponse : Type 0 where
  pub status : ℕ
  pub payload : Bytes

pub record GattNotification : Type 0 where
  pub characteristic : ℕ
  pub payload : Bytes

-- GattTimeout: `timed_out`. GattProtocolError: `bad_frame`, `fragmented`, `closed_early`.
-- ValueError: `bad_name` and the rest; `no_socket` is the AttributeError behind `close`.
pub data ClientError : Type 0 where
  timed_out fragmented closed_early no_socket : ClientError
  bad_frame : FrameError → ClientError
  bad_name : NameError → ClientError
  bad_operation payload_too_long read_with_payload : ClientError
  empty_host bad_port bad_timeout : ClientError

-- What `recv(4096)` does next: it returns bytes, at least one, or none at the end of the stream,
-- or it times out.
pub data Incoming : Type 0 where
  chunk : ℕ → Bytes → Incoming
  finished stalled : Incoming

pub data Direction : Type 0 where
  send receive : Direction

-- One line of the transcript; `value` is the operation of a request or the status of a response.
pub record Entry : Type 0 where
  pub direction : Direction
  pub name : String
  pub characteristic : ℕ
  pub payload : Bytes
  pub value : Option ℕ

-- `sends` tells for each coming `sendall` after how many bytes it times out, if it does.
pub record Client : Type 0 where
  pub parser : FrameParser
  pub responses : List GattResponse
  pub notifications : List GattNotification
  pub transcript : Option (List Entry)
  pub is_open : Bool
  pub incoming : List Incoming
  pub sends : List (Option ℕ)
  pub sent : Bytes

-- The connection is what `socket_factory` did: `none` is its TimeoutError.
abbrev opened :
    Option (List Entry) → Option (List Incoming × List (Option ℕ)) → Result ClientError Client
opened transcript none = err timed_out
opened transcript (some (arrives, goes)) = ok (record {
  parser = record { maximum_payload = max_response_payload; buffer = [] };
  responses = [];
  notifications = [];
  transcript = transcript;
  is_open = true;
  incoming = arrives;
  sends = goes;
  sent = [];
})

-- GattClient(host, port, timeout=..., transcript=...)
unfoldable pub connect :
    String
    → ℤ
    → ℤ
    → Option (List Entry)
    → Option (List Incoming × List (Option ℕ))
    → Result ClientError Client
connect host port timeout transcript connection =
    if str_eq host ""
    then err empty_host
    else if not (between 1 65535 port)
    then err bad_port
    else if not (is_positive timeout)
    then err bad_timeout
    else opened transcript connection

-- Closing twice is closing once.
abbrev pub close : Client → Client
close c = record c { is_open = false }

abbrev add_entry : Entry → Option (List Entry) → Option (List Entry)
add_entry e none = none
add_entry e (some es) = some (es ++ e ∷ [])

-- `_record`
abbrev pub note : Entry → Exec Client ClientError (Unit {0})
note e = modify (λ c. record c { transcript = add_entry e c.transcript })

-- A notification is queued and noted.
abbrev pub queue_notification : ℕ → Bytes → String × ℕ → Exec Client ClientError (Unit {0})
queue_notification ch bs (name, _) = do
  modify (λ c. record c {
    notifications = c.notifications ++ (record { characteristic = ch; payload = bs } ∷ []);
  })
  note
      (record { direction = receive; name = name; characteristic = ch; payload = bs; value = none })

-- The loop over the frames of a chunk. A notification that no name has raises, and the frames
-- behind it are dropped.
unfoldable pub deliver : List Frame → Exec Client ClientError (Unit {0})
deliver [] = pure tt
deliver (notification ch bs ∷ fs) = do
  named ← lift (map_err bad_name (resolve_characteristic (by_id ch)))
  queue_notification ch bs named
  deliver fs
deliver (response s bs ∷ fs) = do
  modify (λ c. record c { responses = c.responses ++ (record { status = s; payload = bs } ∷ []) })
  deliver fs

-- self.parser.feed(chunk)
abbrev pub feed_client : Bytes → Exec Client ClientError (List Frame)
feed_client bs c = let (r, p) = feed bs c.parser in (map_err bad_frame r, record c { parser = p })

-- `_receive`, once the socket has answered.
unfoldable pub arrive : Incoming → Exec Client ClientError (Unit {0})
unfolding deliver
arrive stalled = raise timed_out
arrive finished =
    λ c. (err (if ltb 0 (length c.parser.buffer) then fragmented else closed_early), c)
arrive (chunk b bs) = do frames ← feed_client (b ∷ bs); deliver frames

abbrev pub is_empty {ℓ} : {A : Type ℓ} → List A → Bool
is_empty [] = true
is_empty (x ∷ xs) = false

-- The end of the stream stays: every later `recv` meets it again.
abbrev pub left_behind : Incoming → List Incoming → List Incoming
left_behind finished es = finished ∷ es
left_behind e es = es

-- `while not queue: self._receive()`, over what the socket still brings; behind the last event the
-- socket is silent, and `recv` times out.
unfoldable pub receive_until : (Client → Bool) → List Incoming → Exec Client ClientError (Unit {0})
receive_until done [] c =
    if done c then (ok tt, c) else if not c.is_open then (err no_socket, c) else (err timed_out, c)
receive_until done (e ∷ es) c =
    let again = (do arrive e; receive_until done es) (record c { incoming = left_behind e es }) in
    if done c then (ok tt, c) else if not c.is_open then (err no_socket, c) else again

-- The checks of `request`, in its order.
unfoldable pub check_request : Characteristic → ℕ → Bytes → Result ClientError (String × ℕ)
check_request ch op payload = Result.◌>>=◌ (map_err bad_name (resolve_characteristic ch)) λ named.
    if not (op == op_write || (op == op_read || op == op_write_without_response))
    then err bad_operation
    else if ltb max_request_payload (length payload)
    then err payload_too_long
    else if op == op_read && not (is_empty payload)
    then err read_with_payload
    else ok named

abbrev pub request_bytes : ℕ → ℕ → Bytes → Bytes
request_bytes i op payload = (i ∷ op ∷ le_bytes 2 (length payload)) ++ payload

-- self.socket.sendall(frame); what went out before a time-out stays sent.
abbrev pub send_now : Option ℕ → List (Option ℕ) → Bytes → Exec Client ClientError (Unit {0})
send_now none rest frame c = (ok tt, record c { sends = rest; sent = c.sent ++ frame })
send_now (some n) rest frame c =
    (err timed_out, record c { sends = rest; sent = c.sent ++ take n frame })

abbrev pub send_by : List (Option ℕ) → Bytes → Exec Client ClientError (Unit {0})
send_by [] frame = send_now none [] frame
send_by (s ∷ rest) frame = send_now s rest frame

unfoldable pub send_all : Bytes → Exec Client ClientError (Unit {0})
send_all frame c = if c.is_open then send_by c.sends frame c else (err no_socket, c)

abbrev pub has_response : Client → Bool
has_response c = not (is_empty c.responses)

-- self.responses.popleft()
abbrev pub pop_response : List GattResponse → Exec Client ClientError GattResponse
pop_response [] c = (err timed_out, c)
pop_response (r ∷ rs) c = (ok r, record c { responses = rs })

-- Waiting for the response of a request that was sent.
unfoldable pub await_response : String → ℕ → Exec Client ClientError GattResponse
unfolding receive_until
await_response name i = do
  events ← gets (λ c. c.incoming)
  receive_until has_response events
  queue ← gets (λ c. c.responses)
  r ← pop_response queue
  note (record {
    direction = receive;
    name = name;
    characteristic = i;
    payload = r.payload;
    value = some r.status;
  })
  pure r

unfoldable pub respond : ℕ → String → ℕ → Exec Client ClientError (Option GattResponse)
respond op name i =
    if op == op_write_without_response
    then pure none
    else do r ← await_response name i; pure (some r)

-- What `request` does once its checks have passed.
unfoldable pub exchange : ℕ → Bytes → String × ℕ → Exec Client ClientError (Option GattResponse)
unfolding send_all respond
exchange op payload (name, i) = do
  note (record {
    direction = send;
    name = name;
    characteristic = i;
    payload = payload;
    value = some op;
  })
  send_all (request_bytes i op payload)
  respond op name i

unfoldable pub request : Characteristic → ℕ → Bytes → Exec Client ClientError (Option GattResponse)
unfolding check_request exchange
request ch op payload = do named ← lift (check_request ch op payload); exchange op payload named

-- `assert response is not None`
abbrev pub asserted : Option GattResponse → Exec Client ClientError GattResponse
asserted none = raise bad_operation
asserted (some r) = pure r

unfoldable pub read : Characteristic → Exec Client ClientError GattResponse
unfolding request
read ch = do r ← request ch op_read []; asserted r

unfoldable pub write : Characteristic → Bytes → Exec Client ClientError GattResponse
unfolding request
write ch payload = do r ← request ch op_write payload; asserted r

unfoldable pub write_without_response : Characteristic → Bytes → Exec Client ClientError (Unit {0})
unfolding request
write_without_response ch payload = do request ch op_write_without_response payload; pure tt

abbrev pub has_notification : Client → Bool
has_notification c = not (is_empty c.notifications)

abbrev pub pop_notification : List GattNotification → Exec Client ClientError GattNotification
pop_notification [] c = (err timed_out, c)
pop_notification (n ∷ ns) c = (ok n, record c { notifications = ns })

unfoldable pub next_notification : Exec Client ClientError GattNotification
unfolding receive_until
next_notification = do
  events ← gets (λ c. c.incoming)
  receive_until has_notification events
  queue ← gets (λ c. c.notifications)
  pop_notification queue
