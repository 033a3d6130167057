-- ===== src/Tests/Control.antt =====
-- Lines, responses and commands of src/ptlab/control.py.
use pinetime_dev_tools.Prelude.{
  ℕ, List, [], ◌∷◌, ◌++◌, map, Option, none, some, true, false, leb, ◌&&◌, ◌-◌, if◌then◌else◌, ◌≡◌,
  refl, arith, All, inl, inr,
}
use pinetime_dev_tools.Prelude.Result.{ok}
use pinetime_dev_tools.Prelude.Texts.{Text, codes}
use pinetime_dev_tools.Bytes.{Bytes}
use pinetime_dev_tools.Utf8.{utf8_encode}
use pinetime_dev_tools.Control.Lines.{LineParser, find_newline, strip_return, feed}
use pinetime_dev_tools.Control.Lines.Stream.{IsLine, Settled, feed-lines, feed-Settled}
use pinetime_dev_tools.Control.Response.{Values, join_words, parse_control_line}
use pinetime_dev_tools.Control.Response.Printed.{prefix_of, pair_text, parse_control_line-printed}
use pinetime_dev_tools.Control.Client.{Client, check_command, command}
use pinetime_dev_tools.Control.Client.Sending.{due, command_sent}

abbrev parser : LineParser
parser = record { maximum_line = 1024; buffer = b'O' ∷ [] }

abbrev ok_bytes : Bytes
ok_bytes = b'O' ∷ b'K' ∷ []

abbrev incoming : Bytes
incoming = b'K' ∷ b'\r' ∷ b'\n' ∷ b'\n' ∷ b'E' ∷ []

-- A line with a carriage return, an empty one, and the first byte of one more.
abbrev incoming_lines : List (Text × Bytes)
incoming_lines = (codes "OK", ok_bytes ++ b'\r' ∷ []) ∷ ([], []) ∷ []

lines-IsLine : All (IsLine 1024) incoming_lines
unfolding utf8_encode find_newline strip_return
lines-IsLine = (
  (ok_bytes, refl, refl, inr refl, omega arith),
  (([], refl, refl, inl (refl, refl), omega arith), tt),
)

no_newline : find_newline (b'E' ∷ []) ≡ none
unfolding find_newline
no_newline = refl

feed-lines_example :
    feed incoming parser ≡ (ok (codes "OK" ∷ []), record parser { buffer = b'E' ∷ [] })
feed-lines_example =
    feed-lines incoming_lines (b'E' ∷ []) [] incoming parser lines-IsLine no_newline (inl refl) refl

feed-Settled_example :
    Settled 1024
      (parser.buffer ++ (0xff ∷ incoming))
      ((feed (0xff ∷ incoming) parser).0, (feed (0xff ∷ incoming) parser).1.buffer)
feed-Settled_example = feed-Settled (0xff ∷ incoming) parser

abbrev ready : List Text
ready = codes "up" ∷ []

abbrev values : Values
values = (codes "n", codes "5") ∷ (codes "id", []) ∷ []

parse_control_line-printed_example :
    parse_control_line (join_words (prefix_of true ∷ (ready ++ map pair_text values)))
    ≡ ok (record { is_ok = true; message = join_words ready; values = values })
parse_control_line-printed_example =
    parse_control_line-printed true ready values (((refl, (refl, tt)), (refl, (refl, tt))), tt)
      ((((refl, tt), (refl, tt)), (refl, tt)), ((((refl, (refl, tt)), (refl, (refl, tt))), tt), tt))
      (refl, (refl, tt))

abbrev ascii_digit : ℕ → Option ℕ
ascii_digit c = if leb b'0' c && leb c b'9' then some (c - b'0') else none

abbrev client : Client
client = record {
  parser = record { maximum_line = 1024; buffer = [] };
  lines = [];
  transcript = none;
  is_open = true;
  incoming = [];
  sends = [];
  sent = [];
}

command_sent_example :
    (command ascii_digit (codes "QUERY") false client).1.sent
    ≡ client.sent ++ due (check_command (codes "QUERY")) client
command_sent_example = command_sent ascii_digit (codes "QUERY") false client
