-- ===== src/Control/Client.antt =====
-- `BleControlClient` of src/ptlab/control.py. What the socket will do is part of the state: the
-- chunks that `recv` returns, and after how many bytes each `sendall` times out, if it does.
pub mod Sending
use pinetime_dev_tools.Prelude.{
  ℕ, List, [], ◌∷◌, ◌++◌, Option, none, some, Bool, true, false, not, ◌&&◌, ◌||◌, ltb, ◌==◌,
  if◌then◌else◌, String, str_eq, length, take, any,
}
use pinetime_dev_tools.Prelude.Int.{ℤ, between, is_positive}
use pinetime_dev_tools.Prelude.Result.{Result, ok, err, map_err}
use pinetime_dev_tools.Prelude.State.{Exec, pure, raise, lift, gets, modify, ◌>>=◌, ◌>>◌}
use pinetime_dev_tools.Prelude.Texts.{Text, codes}
use pinetime_dev_tools.Bytes.{Bytes}
use pinetime_dev_tools.Utf8.{utf8_encode}
use pinetime_dev_tools.Gatt.Client.{Incoming, chunk, finished, stalled, left_behind}
use pinetime_dev_tools.Control.Lines.{LineError, LineParser, max_control_line, feed}
use pinetime_dev_tools.Control.Response.{
  ResponseError, Reply, Value, is_space, is_empty, parse_control_line, coerce_control_values,
}

-- ControlTimeout: `timed_out`. ControlProtocolError: `bad_line`, `bad_response`, `closed_early`.
-- ControlError: `refused`. ValueError: `bad_command` and the rest; `no_socket` is the
-- AttributeError behind `close`, `unencodable` the UnicodeEncodeError.
pub data ControlError : Type 0 where
  timed_out closed_early no_socket unencodable bad_command command_too_long : ControlError
  bad_line : LineError → ControlError
  bad_response : ResponseError → ControlError
  refused : Text → ControlError
  empty_host bad_port bad_timeout : ControlError

pub data Entry : Type 0 where
  sent_line : Text → Entry
  received_line : Text → Reply → Entry

pub record Client : Type 0 where
  pub parser : LineParser
  pub lines : List Text
  pub transcript : Option (List Entry)
  pub is_open : Bool
  pub incoming : List Incoming
  pub sends : List (Option ℕ)
  pub sent : Bytes

-- The connection is what `socket_factory` did: `none` is its TimeoutError.
abbrev opened :
    Option (List Entry) → Option (List Incoming × List (Option ℕ)) → Result ControlError Client
opened transcript none = err timed_out
opened transcript (some (arrives, goes)) = ok (record {
  parser = record { maximum_line = max_control_line; buffer = [] };
  lines = [];
  transcript = transcript;
  is_open = true;
  incoming = arrives;
  sends = goes;
  sent = [];
})

-- BleControlClient(host, port, timeout=..., transcript=...)
unfoldable pub connect :
    String
    → ℤ
    → ℤ
    → Option (List Entry)
    → Option (List Incoming × List (Option ℕ))
    → Result ControlError Client
connect host port timeout transcript connection =
    if str_eq host ""
    then err empty_host
    else if not (between 1 65535 port)
    then err bad_port
    else if not (is_positive timeout)
    then err bad_timeout
    else opened transcript connection

abbrev pub close : Client → Client
close c = record c { is_open = false }

abbrev add_entry : Entry → Option (List Entry) → Option (List Entry)
add_entry e none = none
add_entry e (some es) = some (es ++ e ∷ [])

abbrev pub note : Entry → Exec Client ControlError (Unit {0})
note e = modify (λ c. record c { transcript = add_entry e c.transcript })

-- self.lines.extend(self.parser.feed(chunk))
abbrev pub feed_client : Bytes → Exec Client ControlError (Unit {0})
feed_client bs c =
    let (r, p) = feed bs c.parser in
    (lift (map_err bad_line r) >>= λ ls. modify (λ d. record d { lines = d.lines ++ ls }))
      (record c { parser = p })

abbrev pub arrive : Incoming → Exec Client ControlError (Unit {0})
arrive stalled = raise timed_out
arrive finished = raise closed_early
arrive (chunk b bs) = feed_client (b ∷ bs)

abbrev pub has_line : Client → Bool
has_line c = elim c.lines [ [] ↦ false | l ∷ ls ↦ true ]

-- `while not self.lines`, over what the socket still brings; behind the last event the socket is
-- silent, and `recv` times out.
unfoldable pub receive_lines : List Incoming → Exec Client ControlError (Unit {0})
unfolding feed
receive_lines [] c =
    if has_line c
    then (ok tt, c)
    else if not c.is_open
    then (err no_socket, c)
    else (err timed_out, c)
receive_lines (e ∷ es) c =
    let again = (do arrive e; receive_lines es) (record c { incoming = left_behind e es }) in
    if has_line c then (ok tt, c) else if not c.is_open then (err no_socket, c) else again

-- self.lines.pop(0); the loop before it ends with a line.
abbrev pub pop_line : List Text → Exec Client ControlError Text
pop_line [] c = (err closed_early, c)
pop_line (l ∷ ls) c = (ok l, record c { lines = ls })

-- `_next_line`
unfoldable pub next_line : Exec Client ControlError Text
unfolding receive_lines
next_line = do
  events ← gets (λ c. c.incoming)
  receive_lines events
  queue ← gets (λ c. c.lines)
  pop_line queue

-- command.strip() != command
abbrev pub is_trimmed : Text → Bool
is_trimmed [] = true
is_trimmed (c ∷ cs) = not (is_space c) && not (is_space (last_or c cs))
  where
    last_or : ℕ → Text → ℕ
    last_or x [] = x
    last_or x (y ∷ ys) = last_or y ys

abbrev is_break : ℕ → Bool
is_break c = c == b'\n' || c == b'\r'

abbrev checked_length : Bytes → Result ControlError Bytes
checked_length encoded =
    if ltb max_control_line (length encoded) then err command_too_long else ok encoded

abbrev of_encoded : Option Bytes → Result ControlError Bytes
of_encoded none = err unencodable
of_encoded (some bs) = checked_length bs

-- The checks of `command`, and the bytes of the command.
unfoldable pub check_command : Text → Result ControlError Bytes
unfolding utf8_encode
check_command command =
    if is_empty command || not (is_trimmed command) || any is_break command
    then err bad_command
    else of_encoded (utf8_encode command)

-- self.socket.sendall(encoded + b"\n"); what went out before a time-out stays sent.
abbrev pub send_by : List (Option ℕ) → Bytes → Exec Client ControlError (Unit {0})
send_by [] frame c = (ok tt, record c { sends = []; sent = c.sent ++ frame })
send_by (none ∷ rest) frame c = (ok tt, record c { sends = rest; sent = c.sent ++ frame })
send_by (some n ∷ rest) frame c =
    (err timed_out, record c { sends = rest; sent = c.sent ++ take n frame })

unfoldable pub send_all : Bytes → Exec Client ControlError (Unit {0})
send_all frame c = if c.is_open then send_by c.sends frame c else (err no_socket, c)

abbrev pub Answer : Type 0
Answer = Text × List (Text × Value)

module _ (digit : ℕ → Option ℕ) where
  -- What `command` returns for a parsed line.
  abbrev pub answer : Bool → Text → Reply → Result ControlError Answer
  answer allow_error line reply =
      if not reply.is_ok && not allow_error
      then err (refused line)
      else ok (reply.message, coerce_control_values digit reply.values)

  -- What `command` does behind its checks.
  unfoldable pub exchange : Text → Bool → Bytes → Exec Client ControlError Answer
  unfolding send_all next_line parse_control_line
  exchange command allow_error encoded = do
    note (sent_line command)
    send_all (encoded ++ b'\n' ∷ [])
    line ← next_line
    reply ← lift (map_err bad_response (parse_control_line line))
    note (received_line line reply)
    lift (answer allow_error line reply)

  unfoldable pub command : Text → Bool → Exec Client ControlError Answer
  unfolding check_command exchange
  command text allow_error = do
    encoded ← lift (check_command text)
    exchange text allow_error encoded

  abbrev query_text : Text
  query_text = codes "QUERY"

  -- `query`
  unfoldable pub query : Exec Client ControlError (List (Text × Value))
  unfolding command
  query = do reply ← command query_text false; pure reply.1
