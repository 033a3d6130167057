-- ===== src/Gatt/Client/Requests.antt =====
-- Responses and notifications are handed out in the order in which the bridge wrote them.
use pinetime_dev_tools.Prelude.{
  ℕ, List, [], ◌∷◌, ◌++◌, Option, none, some, true, false, not, ◌==◌, String, ◌≡◌, ◌≢◌, refl, sym,
  ◌∙◌, ap, subst, arith, append-nil,
}
use pinetime_dev_tools.Prelude.Result.{Result, ok}
use pinetime_dev_tools.Prelude.State.{after_ok}
use pinetime_dev_tools.Bytes.{Bytes}
use pinetime_dev_tools.Gatt.Names.{Characteristic}
use pinetime_dev_tools.Gatt.Client.{
  GattResponse, GattNotification, Client, ClientError, Entry, note, send, op_write_without_response,
  has_response, has_notification, pop_response, pop_notification, next_notification, await_response,
  respond, exchange, request, check_request, send_all, send_by, request_bytes, receive_until,
  is_empty,
}
use pinetime_dev_tools.Gatt.Frame.{Frame, FrameParser}
use pinetime_dev_tools.Gatt.Frame.RoundTrip.{feed_all}
use pinetime_dev_tools.Gatt.Client.Order.{Ahead, bytes_of, responses_of, notifications_of}
use pinetime_dev_tools.Gatt.Client.Waiting.{receive_until-Waited}

-- An action that returned, and what the client will hand out behind it.
pub record Handed (A : Type 0) (rs : List GattResponse) (ns : List GattNotification) (a : A)
    (o : Result ClientError A × Client) : Type 0 where
  pub returns : o.0 ≡ ok a
  pub ahead : Ahead o.1 rs ns

none-Ahead :
    (c : Client) (rs : List GattResponse) (ns : List GattNotification)
    → c.incoming ≡ []
    → Ahead c rs ns
    → (c.responses ≡ rs) × (c.notifications ≡ ns)
none-Ahead c rs ns e a =
    let none_left : a.frames ≡ [] =
      no_chunks a.frames a.last
        (subst (λ t. feed_all (bytes_of t) c.parser ≡ (ok a.frames, a.last)) e a.parses) in
    (
      sym (append-nil c.responses)
          ∙ ap (λ t. c.responses ++ responses_of t) (sym none_left)
          ∙ a.responses_are,
      sym (append-nil c.notifications)
          ∙ ap (λ t. c.notifications ++ notifications_of t) (sym none_left)
          ∙ a.notifications_are,
    )
  where
    no_chunks : (fs : List Frame) (q : FrameParser) → feed_all [] c.parser ≡ (ok fs, q) → fs ≡ []
    no_chunks fs q h = unfold feed_all in cc

filled {ℓ} : {A : Type ℓ} {x : A} {xs : List A} (l : List A) → l ≡ x ∷ xs → not (is_empty l) ≡ true
filled l e = rw e refl

-- The transcript does not change what is ahead.
Ahead-note :
    {c : Client} {rs : List GattResponse} {ns : List GattNotification} (e : Entry)
    → Ahead c rs ns
    → Ahead (note e c).1 rs ns
Ahead-note e a = record {
  frames = a.frames;
  last = a.last;
  parses = a.parses;
  chunks = a.chunks;
  known = a.known;
  responses_are = a.responses_are;
  notifications_are = a.notifications_are;
}

Ahead-sent :
    {c : Client} {rs : List GattResponse} {ns : List GattNotification} {rest : List (Option ℕ)}
    {out : Bytes}
    → Ahead c rs ns
    → Ahead (record c { sends = rest; sent = out }) rs ns
Ahead-sent a = record {
  frames = a.frames;
  last = a.last;
  parses = a.parses;
  chunks = a.chunks;
  known = a.known;
  responses_are = a.responses_are;
  notifications_are = a.notifications_are;
}

-- The next `sendall` does not time out.
abbrev pub Goes : List (Option ℕ) → Type 0
Goes [] = Unit {0}
Goes (none ∷ rest) = Unit {0}
Goes (some n ∷ rest) = ⊥

record Went (c : Client) (o : Result ClientError (Unit {0}) × Client) : Type 0 where
  goes : o.0 ≡ ok tt
  open_kept : o.1.is_open ≡ c.is_open
  keeps_ahead :
      {rs : List GattResponse} {ns : List GattNotification} → Ahead c rs ns → Ahead o.1 rs ns

send_by-Went :
    (sends : List (Option ℕ)) (frame : Bytes) (c : Client)
    → Goes sends
    → Went c (send_by sends frame c)
send_by-Went [] frame c g = record { goes = refl; open_kept = refl; keeps_ahead = Ahead-sent }
send_by-Went (none ∷ rest) frame c g = record {
  goes = refl;
  open_kept = refl;
  keeps_ahead = Ahead-sent;
}
send_by-Went (some n ∷ rest) frame c g = absurd g

send_all-Goes :
    (frame : Bytes) (c : Client) → c.is_open ≡ true → Goes c.sends → Went c (send_all frame c)
unfolding send_all
send_all-Goes frame c o g = simp o (send_by-Went c.sends frame c g)

module _ (r : GattResponse) (rs : List GattResponse) (ns : List GattNotification) where
  pop_response-Handed :
      (queue : List GattResponse) (c : Client)
      → c.responses ≡ queue
      → not (is_empty queue) ≡ true
      → Ahead c (r ∷ rs) ns
      → Handed GattResponse rs ns r (pop_response queue c)
  pop_response-Handed [] c e full a = cc
  pop_response-Handed (x ∷ xs) c e full a =
      let all_of : (x ∷ xs) ++ responses_of a.frames ≡ r ∷ rs = rw e at a.responses_are in
      record {
        returns = cc all_of;
        ahead = record {
          frames = a.frames;
          last = a.last;
          parses = a.parses;
          chunks = a.chunks;
          known = a.known;
          responses_are = cc all_of;
          notifications_are = a.notifications_are;
        };
      }

  await_response-Handed :
      (name : String) (i : ℕ) (c : Client)
      → c.is_open ≡ true
      → Ahead c (r ∷ rs) ns
      → Handed GattResponse rs ns r (await_response name i c)
  unfolding await_response
  await_response-Handed name i c o a =
      let w =
        receive_until-Waited (r ∷ rs) ns has_response
          (λ d e b. filled d.responses (none-Ahead d (r ∷ rs) ns e b).0) c.incoming c refl o a in
      let (x, d) = receive_until has_response c.incoming c in
      let p = pop_response-Handed d.responses d refl w.satisfied w.ahead in
      after_ok (Handed GattResponse rs ns r) x _ d w.returns (
        after_ok (Handed GattResponse rs ns r) (pop_response d.responses d).0 _
          (pop_response d.responses d).1 p.returns
          (record { returns = refl; ahead = Ahead-note _ p.ahead }))

  respond-Handed :
      (op : ℕ) (name : String) (i : ℕ) (c : Client)
      → (op == op_write_without_response) ≡ false
      → c.is_open ≡ true
      → Ahead c (r ∷ rs) ns
      → Handed (Option GattResponse) rs ns (some r) (respond op name i c)
  unfolding respond
  respond-Handed op name i c e o a =
      let h = await_response-Handed name i c o a in
      let (x, d) = await_response name i c in
      rw e (
        after_ok (Handed (Option GattResponse) rs ns (some r)) x _ d h.returns
          (record { returns = refl; ahead = h.ahead }))

  exchange-Handed :
      (op : ℕ) (payload : Bytes) (name : String) (i : ℕ) (c : Client)
      → (op == op_write_without_response) ≡ false
      → c.is_open ≡ true
      → Goes c.sends
      → Ahead c (r ∷ rs) ns
      → Handed (Option GattResponse) rs ns (some r) (exchange op payload (name, i) c)
  unfolding exchange
  exchange-Handed op payload name i c e o g a =
      let noted =
        (note
          (record {
            direction = send;
            name = name;
            characteristic = i;
            payload = payload;
            value = some op;
          })
          c).1 in
      let s = send_all-Goes (request_bytes i op payload) noted o g in
      let (x, d) = send_all (request_bytes i op payload) noted in
      after_ok (Handed (Option GattResponse) rs ns (some r)) x _ d s.goes
        (respond-Handed op name i d e (s.open_kept ∙ o) (s.keeps_ahead (Ahead-note _ a)))

-- With an open client, a socket that takes the frame, and chunks that hold well-formed frames of
-- known characteristics, a request other than a write without response that passes its checks
-- returns the first response ahead: the oldest in the queue, else the first in the stream. The
-- responses behind it and all the notifications stay ahead, in their order.
pub request_in_order :
    (ch : Characteristic) (op : ℕ) (payload : Bytes) (c : Client) {named : String × ℕ}
    (r : GattResponse) (rs : List GattResponse) (ns : List GattNotification)
    → check_request ch op payload ≡ ok named
    → op ≢ op_write_without_response
    → c.is_open ≡ true
    → Goes c.sends
    → Ahead c (r ∷ rs) ns
    → Handed (Option GattResponse) rs ns (some r) (request ch op payload c)
unfolding request
request_in_order ch op payload c {named} r rs ns checked waits o g a =
    rw checked (exchange-Handed r rs ns op payload named.0 named.1 c (ground arith) o g a)

module _ (n : GattNotification) (rs : List GattResponse) (ns : List GattNotification) where
  pop_notification-Handed :
      (queue : List GattNotification) (c : Client)
      → c.notifications ≡ queue
      → not (is_empty queue) ≡ true
      → Ahead c rs (n ∷ ns)
      → Handed GattNotification rs ns n (pop_notification queue c)
  pop_notification-Handed [] c e full a = cc
  pop_notification-Handed (x ∷ xs) c e full a =
      let all_of : (x ∷ xs) ++ notifications_of a.frames ≡ n ∷ ns = rw e at a.notifications_are in
      record {
        returns = cc all_of;
        ahead = record {
          frames = a.frames;
          last = a.last;
          parses = a.parses;
          chunks = a.chunks;
          known = a.known;
          responses_are = a.responses_are;
          notifications_are = cc all_of;
        };
      }

-- Under the same conditions on the client and the stream, `next_notification` returns the first
-- notification ahead and keeps the others, and all the responses, in their order.
pub next_notification_in_order :
    (c : Client) (n : GattNotification) (rs : List GattResponse) (ns : List GattNotification)
    → c.is_open ≡ true
    → Ahead c rs (n ∷ ns)
    → Handed GattNotification rs ns n (next_notification c)
unfolding next_notification
next_notification_in_order c n rs ns o a =
    let w =
      receive_until-Waited rs (n ∷ ns) has_notification
        (λ d e b. filled d.notifications (none-Ahead d rs (n ∷ ns) e b).1) c.incoming c refl o a in
    let (x, d) = receive_until has_notification c.incoming c in
    after_ok (Handed GattNotification rs ns n) x _ d w.returns
      (pop_notification-Handed n rs ns d.notifications d refl w.satisfied w.ahead)
