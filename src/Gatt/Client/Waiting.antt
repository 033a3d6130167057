-- ===== src/Gatt/Client/Waiting.antt =====
-- Waiting on a socket whose stream holds what is waited for.
use pinetime_dev_tools.Prelude.{
  ℕ, List, [], ◌∷◌, ◌++◌, Bool, true, false, not, if◌then◌else◌, All, All-split, append_assoc, ◌≡◌,
  refl, sym, ◌∙◌, ap, subst, Bool-cases, inl, inr,
}
use pinetime_dev_tools.Prelude.Result.{Result, ok, err}
use pinetime_dev_tools.Prelude.State.{◌>>=◌, continue, pure}
use pinetime_dev_tools.Bytes.{Bytes}
use pinetime_dev_tools.Gatt.Frame.{Frame, response, notification, FrameError, FrameParser, feed}
use pinetime_dev_tools.Gatt.Frame.RoundTrip.{feed_all}
use pinetime_dev_tools.Gatt.Client.Order.{
  responses_of, notifications_of, Known, IsChunk, bytes_of, Ahead, deliver-Delivered,
}
use pinetime_dev_tools.Gatt.Client.{
  GattResponse, GattNotification, Client, ClientError, Incoming, chunk, finished, stalled, deliver,
  arrive, receive_until,
}

-- The first chunk of a stream that parses, and the rest.
record FirstChunk (c : Bytes) (cs : List Bytes) (p : FrameParser) (fs : List Frame)
    (last : FrameParser) : Type 0 where
  first : List Frame
  later : List Frame
  middle : FrameParser
  feeds : feed c p ≡ (ok first, middle)
  goes_on : feed_all cs middle ≡ (ok later, last)
  joined : fs ≡ first ++ later

feed_all-FirstChunk :
    (c : Bytes) (cs : List Bytes) (p : FrameParser) (fs : List Frame) (last : FrameParser)
    → feed_all (c ∷ cs) p ≡ (ok fs, last)
    → FirstChunk c cs p fs last
unfolding feed_all
feed_all-FirstChunk c cs p fs last h = go (feed c p).0 (feed c p).1 refl h
  where
    finish :
        (first : List Frame) (middle : FrameParser)
        → feed c p ≡ (ok first, middle)
        → (r : Result FrameError (List Frame)) (q : FrameParser) → feed_all cs middle ≡ (r, q)
        → continue r (λ gs. pure (first ++ gs)) q ≡ (ok fs, last)
        → FirstChunk c cs p fs last
    finish first middle e (ok later) q e' k = record {
      first = first;
      later = later;
      middle = middle;
      feeds = e;
      goes_on = cc;
      joined = cc;
    }
    finish first middle e (err x) q e' k = cc

    go :
        (r : Result FrameError (List Frame)) (q : FrameParser)
        → feed c p ≡ (r, q)
        → continue r (λ gs. feed_all cs >>= λ hs. pure (gs ++ hs)) q ≡ (ok fs, last)
        → FirstChunk c cs p fs last
    go (ok first) middle e k =
        finish first middle e (feed_all cs middle).0 (feed_all cs middle).1 refl k
    go (err x) q e k = cc

responses_of-append :
    (xs ys : List Frame) → responses_of (xs ++ ys) ≡ responses_of xs ++ responses_of ys
responses_of-append [] ys = refl
responses_of-append (response s bs ∷ xs) ys = rw (responses_of-append xs ys)
responses_of-append (notification ch bs ∷ xs) ys = responses_of-append xs ys

notifications_of-append :
    (xs ys : List Frame) → notifications_of (xs ++ ys) ≡ notifications_of xs ++ notifications_of ys
notifications_of-append [] ys = refl
notifications_of-append (response s bs ∷ xs) ys = notifications_of-append xs ys
notifications_of-append (notification ch bs ∷ xs) ys = rw (notifications_of-append xs ys)

-- What a chunk that arrives leaves.
record Arrived (rs : List GattResponse) (ns : List GattNotification) (es : List Incoming)
    (c : Client) (o : Result ClientError (Unit {0}) × Client) : Type 0 where
  returns : o.0 ≡ ok tt
  ahead : Ahead o.1 rs ns
  incoming_is : o.1.incoming ≡ es
  open_kept : o.1.is_open ≡ c.is_open

module _ (rs : List GattResponse) (ns : List GattNotification) (b : ℕ) (bs : Bytes)
    (es : List Incoming) (c : Client) where
  -- The client once the chunk is parsed.
  abbrev parsed : FrameParser → Client
  parsed middle = record c { incoming = es; parser = middle }

  parsed-Arrived :
      (a : Ahead c rs ns) (f : FirstChunk (b ∷ bs) (bytes_of es) c.parser a.frames a.last)
      → All IsChunk es
      → Arrived rs ns es c (deliver f.first (parsed f.middle))
  parsed-Arrived a f chunks =
      let (known_first, known_later) =
        All-split Known f.first f.later (subst (All Known) f.joined a.known) in
      let d = deliver-Delivered f.first (parsed f.middle) known_first in
      record {
        returns = d.returns;
        ahead = record {
          frames = f.later;
          last = a.last;
          parses = rw (d.incoming_kept, d.parser_kept) f.goes_on;
          chunks = rw d.incoming_kept chunks;
          known = known_later;
          responses_are = rw d.responses_grow (
              append_assoc c.responses (responses_of f.first) (responses_of f.later)
              ∙ ap (λ t. c.responses ++ t) (sym (responses_of-append f.first f.later))
              ∙ ap (λ t. c.responses ++ responses_of t) (sym f.joined)
              ∙ a.responses_are);
          notifications_are = rw d.notifications_grow (
              append_assoc c.notifications (notifications_of f.first) (notifications_of f.later)
              ∙ ap (λ t. c.notifications ++ t) (sym (notifications_of-append f.first f.later))
              ∙ ap (λ t. c.notifications ++ notifications_of t) (sym f.joined)
              ∙ a.notifications_are);
        };
        incoming_is = d.incoming_kept;
        open_kept = d.open_kept;
      }

  arrive-Arrived :
      c.incoming ≡ chunk b bs ∷ es
      → Ahead c rs ns
      → Arrived rs ns es c (arrive (chunk b bs) (record c { incoming = es }))
  unfolding arrive
  arrive-Arrived e a =
      let parses : feed_all ((b ∷ bs) ∷ bytes_of es) c.parser ≡ (ok a.frames, a.last) =
        subst (λ t. feed_all (bytes_of t) c.parser ≡ (ok a.frames, a.last)) e a.parses in
      let f = feed_all-FirstChunk (b ∷ bs) (bytes_of es) c.parser a.frames a.last parses in
      let chunks : IsChunk (chunk b bs) × All IsChunk es = subst (All IsChunk) e a.chunks in
      rw f.feeds (parsed-Arrived a f chunks.1)

-- What `receive_until` leaves when the stream holds what it waits for.
pub record Waited (rs : List GattResponse) (ns : List GattNotification) (done : Client → Bool)
    (o : Result ClientError (Unit {0}) × Client) : Type 0 where
  pub returns : o.0 ≡ ok tt
  pub ahead : Ahead o.1 rs ns
  pub satisfied : done o.1 ≡ true

go_on :
    (rs : List GattResponse) (ns : List GattNotification) (done : Client → Bool) (b o : Bool)
    (x y : Result ClientError (Unit {0}) × Client) (r : Result ClientError (Unit {0})) (c : Client)
    (k : Client → Result ClientError (Unit {0}) × Client)
    → b ≡ false
    → o ≡ true
    → r ≡ ok tt
    → Waited rs ns done (k c)
    → Waited rs ns done (if b then x else if not o then y else continue r (λ _. k) c)
go_on rs ns done true o x y r c k eb eo er w = cc
go_on rs ns done false false x y r c k eb eo er w = cc
go_on rs ns done false true x y (err e) c k eb eo er w = cc
go_on rs ns done false true x y (ok u) c k eb eo er w = w

module _ (rs : List GattResponse) (ns : List GattNotification) (done : Client → Bool)
    (at_end : (c : Client) → c.incoming ≡ [] → Ahead c rs ns → done c ≡ true) where
  pub receive_until-Waited :
      (es : List Incoming) (c : Client)
      → c.incoming ≡ es
      → c.is_open ≡ true
      → Ahead c rs ns
      → Waited rs ns done (receive_until done es c)
  unfolding receive_until
  receive_until-Waited [] c e o a =
      rw (at_end c e a) (record { returns = refl; ahead = a; satisfied = at_end c e a })
  receive_until-Waited (finished ∷ es) c e o a = absurd (subst (All IsChunk) e a.chunks).0
  receive_until-Waited (stalled ∷ es) c e o a = absurd (subst (All IsChunk) e a.chunks).0
  receive_until-Waited (chunk b bs ∷ es) c e o a = elim (Bool-cases (done c)) [
    | inl now ↦ rw now (record { returns = refl; ahead = a; satisfied = now })
    | inr later ↦
        let r = arrive-Arrived rs ns b bs es c e a in
        let next = (arrive (chunk b bs) (record c { incoming = es })).1 in
        let rest = receive_until-Waited es next r.incoming_is (r.open_kept ∙ o) r.ahead in
        go_on rs ns done (done c) c.is_open _ _ _ next (receive_until done es) later o r.returns
          rest
  ]
