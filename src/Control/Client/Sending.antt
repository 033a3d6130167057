-- ===== src/Control/Client/Sending.antt =====
-- What leaves the BLE-control client: a command's line, and nothing else.
use pinetime_dev_tools.Prelude.{
  ℕ, List, [], ◌∷◌, ◌++◌, Option, none, some, Bool, if◌then◌else◌, take, append-nil, ◌≡◌, refl, sym,
  ◌∙◌, arith, Bool-cases, inl, inr,
}
use pinetime_dev_tools.Prelude.Result.{Result, ok, err, map_err}
use pinetime_dev_tools.Prelude.State.{lift, continue, ◌>>=◌, ◌>>◌}
use pinetime_dev_tools.Prelude.Texts.{Text}
use pinetime_dev_tools.Bytes.{Bytes}
use pinetime_dev_tools.Gatt.Client.{Incoming, chunk, finished, stalled}
use pinetime_dev_tools.Control.Client.{
  Client, ControlError, Answer, sent_line, note, arrive, receive_lines, next_line, pop_line,
  check_command, send_by, send_all, answer, exchange, command, received_line, bad_response,
}
use pinetime_dev_tools.Control.Response.{ResponseError, Reply, parse_control_line}

arrive-sent : (e : Incoming) (c : Client) → (arrive e c).1.sent ≡ c.sent
arrive-sent stalled c = refl
arrive-sent finished c = refl
arrive-sent (chunk b p) c = ground arith

receive_lines-sent : (es : List Incoming) (c : Client) → (receive_lines es c).1.sent ≡ c.sent
unfolding receive_lines
receive_lines-sent [] c = ground arith
receive_lines-sent (e ∷ es) c = grind (arith, arrive-sent, receive_lines-sent es)

pop_line-sent : (ls : List Text) (c : Client) → (pop_line ls c).1.sent ≡ c.sent
pop_line-sent [] c = refl
pop_line-sent (l ∷ ls) c = refl

next_line-sent : (c : Client) → (next_line c).1.sent ≡ c.sent
unfolding next_line
next_line-sent c = grind (arith, receive_lines-sent, pop_line-sent)

-- How much of a line the socket takes: all of it, or what goes out before the time-out.
abbrev taken_by : List (Option ℕ) → Bytes → Bytes
taken_by [] frame = frame
taken_by (none ∷ rest) frame = frame
taken_by (some n ∷ rest) frame = take n frame

abbrev pub taken : Client → Bytes → Bytes
taken c frame = if c.is_open then taken_by c.sends frame else []

send_by-sent :
    (sends : List (Option ℕ)) (frame : Bytes) (c : Client)
    → (send_by sends frame c).1.sent ≡ c.sent ++ taken_by sends frame
send_by-sent [] frame c = refl
send_by-sent (none ∷ rest) frame c = refl
send_by-sent (some n ∷ rest) frame c = refl

send_all-sent : (frame : Bytes) (c : Client) → (send_all frame c).1.sent ≡ c.sent ++ taken c frame
unfolding send_all
send_all-sent frame c = elim (Bool-cases c.is_open) [
  | inl open_socket ↦ simp open_socket (send_by-sent c.sends frame c)
  | inr shut ↦ simp shut (sym (append-nil c.sent))
]

module _ (digit : ℕ → Option ℕ) where
  -- What `exchange` does with a line that came.
  abbrev answered : Bool → Text → Client → Result ControlError Answer × Client
  answered allow_error line = do
    reply ← lift (map_err bad_response (parse_control_line line))
    note (received_line line reply)
    lift (answer digit allow_error line reply)

  answered-sent :
      (allow_error : Bool) (line : Text) (c : Client)
      → (answered allow_error line c).1.sent ≡ c.sent
  answered-sent allow_error line c = go (parse_control_line line)
    where
      go :
          (r : Result ResponseError Reply)
          → (continue
              (map_err bad_response r)
              (λ reply.
                note (received_line line reply) >> lift (answer digit allow_error line reply))
              c).1.sent
            ≡ c.sent
      go (ok reply) = refl
      go (err e) = refl

  next-answered :
      (allow_error : Bool) (r : Result ControlError (Unit {0})) (c : Client)
      → (continue r (λ _. next_line >>= answered allow_error) c).1.sent ≡ c.sent
  next-answered allow_error (err e) c = refl
  next-answered allow_error (ok _) c = go (next_line c).0 (next_line c).1 ∙ next_line-sent c
    where
      go :
          (r : Result ControlError Text) (d : Client)
          → (continue r (answered allow_error) d).1.sent ≡ d.sent
      go (ok line) d = answered-sent allow_error line d
      go (err e) d = refl

  exchange-sent :
      (text : Text) (allow_error : Bool) (encoded : Bytes) (c : Client)
      → (exchange digit text allow_error encoded c).1.sent
        ≡ c.sent ++ taken c (encoded ++ b'\n' ∷ [])
  unfolding exchange
  exchange-sent text allow_error encoded c =
      let noted = (note (sent_line text) c).1 in
      let (r, d) = send_all (encoded ++ b'\n' ∷ []) noted in
      next-answered allow_error r d ∙ send_all-sent (encoded ++ b'\n' ∷ []) noted

abbrev pub due : Result ControlError Bytes → Client → Bytes
due (ok encoded) c = taken c (encoded ++ b'\n' ∷ [])
due (err e) c = []

-- A command that passes its checks sends its bytes and a line feed, cut only where the socket times
-- out. One that fails them, or finds the client closed, sends nothing. Waiting for the response
-- sends nothing, whatever arrives.
pub command_sent :
    (digit : ℕ → Option ℕ) (text : Text) (allow_error : Bool) (c : Client)
    → (command digit text allow_error c).1.sent ≡ c.sent ++ due (check_command text) c
unfolding command
command_sent digit text allow_error c =
    elim (check_command text)
      as (λ r. (continue r (exchange digit text allow_error) c).1.sent ≡ c.sent ++ due r c) [
        | ok encoded ↦ exchange-sent digit text allow_error encoded c
        | err e ↦ sym (append-nil c.sent)
      ]
