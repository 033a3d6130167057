-- ===== src/Gatt/Client/Sending.antt =====
-- What leaves the client: the bytes of a request, and nothing else.
use pinetime_dev_tools.Prelude.{
  ℕ, List, [], ◌∷◌, ◌++◌, Option, none, some, Bool, ◌==◌, ◌%◌, ◌/◌, length, if◌then◌else◌, String,
  take, append-nil, ◌≡◌, refl, sym, ◌∙◌, arith, Bool-cases, inl, inr,
}
use pinetime_dev_tools.Prelude.Result.{Result, ok, err}
use pinetime_dev_tools.Prelude.State.{continue}
use pinetime_dev_tools.Bytes.{Bytes}
use pinetime_dev_tools.Gatt.Frame.{Frame, response, notification}
use pinetime_dev_tools.Gatt.Names.{Characteristic}
use pinetime_dev_tools.Gatt.Client.{
  Client, ClientError, Incoming, chunk, finished, stalled, deliver, arrive, receive_until,
  check_request, request_bytes, op_write_without_response, send_all, send_by, note, send, respond,
  exchange, await_response, request,
}

deliver-sent : (fs : List Frame) (c : Client) → (deliver fs c).1.sent ≡ c.sent
unfolding deliver
deliver-sent [] c = refl
deliver-sent (response s p ∷ fs) c = deliver-sent fs _
deliver-sent (notification ch p ∷ fs) c = grind (arith, deliver-sent fs)

arrive-sent : (e : Incoming) (c : Client) → (arrive e c).1.sent ≡ c.sent
unfolding arrive
arrive-sent stalled c = refl
arrive-sent finished c = refl
arrive-sent (chunk b p) c = grind (arith, deliver-sent)

receive_until-sent :
    (done : Client → Bool) (es : List Incoming) (c : Client)
    → (receive_until done es c).1.sent ≡ c.sent
unfolding receive_until
receive_until-sent done [] c = ground arith
receive_until-sent done (e ∷ es) c = grind (arith, arrive-sent, receive_until-sent done es)

await_response-sent :
    (name : String) (i : ℕ) (c : Client) → (await_response name i c).1.sent ≡ c.sent
unfolding await_response
await_response-sent name i c = grind (arith, receive_until-sent)

-- How much of a frame the socket takes: all of it, or what goes out before the time-out.
abbrev taken_by : List (Option ℕ) → Bytes → Bytes
taken_by [] frame = frame
taken_by (none ∷ rest) frame = frame
taken_by (some n ∷ rest) frame = take n frame

abbrev pub taken : Client → Bytes → Bytes
taken c frame = if c.is_open then taken_by c.sends frame else []

send_by-sent :
    (sends : List (Option ℕ)) (frame : Bytes) (c : Client)
    → (send_by sends frame c).1.sent ≡ c.sent ++ taken_by sends frame
send_by-sent [] frame c = refl
send_by-sent (none ∷ rest) frame c = refl
send_by-sent (some n ∷ rest) frame c = refl

send_all-sent : (frame : Bytes) (c : Client) → (send_all frame c).1.sent ≡ c.sent ++ taken c frame
unfolding send_all
send_all-sent frame c = elim (Bool-cases c.is_open) [
  | inl open_socket ↦ simp open_socket (send_by-sent c.sends frame c)
  | inr shut ↦ simp shut (sym (append-nil c.sent))
]

-- A frame: the identifier, the operation, the low and the high byte of the payload's length, and the
-- payload.
abbrev pub request_frame : ℕ → ℕ → Bytes → Bytes
request_frame i op payload = i ∷ op ∷ length payload % 256 ∷ length payload / 256 % 256 ∷ payload

abbrev pub due : Result ClientError (String × ℕ) → ℕ → Bytes → Client → Bytes
due (ok (name, i)) op payload c = taken c (request_frame i op payload)
due (err e) op payload c = []

respond-sent : (op : ℕ) (name : String) (i : ℕ) (c : Client) → (respond op name i c).1.sent ≡ c.sent
unfolding respond
respond-sent op name i c = elim (Bool-cases (op == op_write_without_response)) [
  | inl silent ↦ rw silent refl
  | inr waiting ↦ rw waiting (grind (arith, await_response-sent))
]

continue-respond :
    (r : Result ClientError (Unit {0})) (op : ℕ) (name : String) (i : ℕ) (c : Client)
    → (continue r (λ _. respond op name i) c).1.sent ≡ c.sent
continue-respond (ok _) op name i c = respond-sent op name i c
continue-respond (err e) op name i c = refl

exchange-sent :
    (op : ℕ) (payload : Bytes) (name : String) (i : ℕ) (c : Client)
    → (exchange op payload (name, i) c).1.sent ≡ c.sent ++ taken c (request_frame i op payload)
unfolding exchange
exchange-sent op payload name i c =
    let noted =
      (note
        (record {
          direction = send;
          name = name;
          characteristic = i;
          payload = payload;
          value = some op;
        })
        c).1 in
    let (r, d) = send_all (request_bytes i op payload) noted in
    continue-respond r op name i d ∙ send_all-sent (request_bytes i op payload) noted

-- A request that passes its checks sends one frame: the identifier, the operation, the length of
-- the payload in two bytes with the low one first, and the payload, cut only where the socket times
-- out. One that fails them, or finds
-- the client closed, sends nothing. Waiting for the response sends nothing, whatever arrives.
pub request_sent :
    (ch : Characteristic) (op : ℕ) (payload : Bytes) (c : Client)
    → (request ch op payload c).1.sent ≡ c.sent ++ due (check_request ch op payload) op payload c
unfolding request
request_sent ch op payload c =
    elim (check_request ch op payload)
      as (λ r. (continue r (exchange op payload) c).1.sent ≡ c.sent ++ due r op payload c) [
        | ok named ↦ exchange-sent op payload named.0 named.1 c
        | err e ↦ sym (append-nil c.sent)
      ]
