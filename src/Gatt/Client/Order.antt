-- ===== src/Gatt/Client/Order.antt =====
-- The order in which responses and notifications come out of a client, against what the bridge
-- wrote into the socket.
use pinetime_dev_tools.Prelude.{
  ℕ, List, [], ◌∷◌, ◌++◌, String, All, append-nil, append_assoc, ◌≡◌, ◌∙◌, arith,
}
use pinetime_dev_tools.Prelude.Result.{Result, ok, err, map_err}
use pinetime_dev_tools.Prelude.State.{◌>>=◌, continue}
use pinetime_dev_tools.Bytes.{Bytes}
use pinetime_dev_tools.Gatt.Frame.{Frame, response, notification, FrameParser}
use pinetime_dev_tools.Gatt.Frame.RoundTrip.{feed_all}
use pinetime_dev_tools.Gatt.Names.{by_id, NameError, resolve_characteristic}
use pinetime_dev_tools.Gatt.Client.{
  GattResponse, GattNotification, Client, ClientError, bad_name, Incoming, chunk, finished, stalled,
  queue_notification, deliver,
}

abbrev pub responses_of : List Frame → List GattResponse
responses_of [] = []
responses_of (response s bs ∷ fs) = record { status = s; payload = bs } ∷ responses_of fs
responses_of (notification ch bs ∷ fs) = responses_of fs

abbrev pub notifications_of : List Frame → List GattNotification
notifications_of [] = []
notifications_of (response s bs ∷ fs) = notifications_of fs
notifications_of (notification ch bs ∷ fs) =
    record { characteristic = ch; payload = bs } ∷ notifications_of fs

-- A notification of a characteristic that the generated table names.
abbrev pub Known : Frame → Type 0
Known (response s bs) = Unit {0}
Known (notification ch bs) = (n : String) × (resolve_characteristic (by_id ch) ≡ ok (n, ch))

abbrev pub IsChunk : Incoming → Type 0
IsChunk (chunk b bs) = Unit {0}
IsChunk finished = ⊥
IsChunk stalled = ⊥

abbrev pub bytes_of : List Incoming → List Bytes
bytes_of [] = []
bytes_of (chunk b bs ∷ es) = (b ∷ bs) ∷ bytes_of es
bytes_of (finished ∷ es) = bytes_of es
bytes_of (stalled ∷ es) = bytes_of es

-- The client will hand out `rs` and `ns`: what is queued, then what the chunks still hold.
pub record Ahead (c : Client) (rs : List GattResponse) (ns : List GattNotification) : Type 0 where
  pub frames : List Frame
  pub last : FrameParser
  pub parses : feed_all (bytes_of c.incoming) c.parser ≡ (ok frames, last)
  pub chunks : All IsChunk c.incoming
  pub known : All Known frames
  pub responses_are : c.responses ++ responses_of frames ≡ rs
  pub notifications_are : c.notifications ++ notifications_of frames ≡ ns

-- What delivering frames does to a client.
pub record Delivered (fs : List Frame) (c : Client) (o : Result ClientError (Unit {0}) × Client)
    : Type 0 where
  pub returns : o.0 ≡ ok tt
  pub responses_grow : o.1.responses ≡ c.responses ++ responses_of fs
  pub notifications_grow : o.1.notifications ≡ c.notifications ++ notifications_of fs
  pub parser_kept : o.1.parser ≡ c.parser
  pub incoming_kept : o.1.incoming ≡ c.incoming
  pub open_kept : o.1.is_open ≡ c.is_open

pub deliver-Delivered :
    (fs : List Frame) (c : Client) → All Known fs → Delivered fs c (deliver fs c)
unfolding deliver
deliver-Delivered [] c h = ground (arith, append-nil c.responses, append-nil c.notifications)
deliver-Delivered (response s bs ∷ fs) c h = grind (arith, deliver-Delivered fs, append_assoc)
deliver-Delivered (notification ch bs ∷ fs) c ((n, e), h) =
    go (resolve_characteristic (by_id ch)) e (λ d. deliver-Delivered fs d h)
  where
    go :
        (r : Result NameError (String × ℕ))
        → r ≡ ok (n, ch)
        → ((d : Client) → Delivered fs d (deliver fs d))
        → Delivered (notification ch bs ∷ fs) c (
            continue
              (map_err bad_name r)
              (λ named. queue_notification ch bs named >>= λ _. deliver fs)
              c)
    go (ok named) e again = queued (again (queue_notification ch bs named c).1)
      where
        queued :
            Delivered fs
              (queue_notification ch bs named c).1
              (deliver fs (queue_notification ch bs named c).1)
            → Delivered
                (notification ch bs ∷ fs)
                c
                (deliver fs (queue_notification ch bs named c).1)
        queued d = record {
          returns = d.returns;
          responses_grow = d.responses_grow;
          notifications_grow = d.notifications_grow ∙ append_assoc c.notifications _ _;
          parser_kept = d.parser_kept;
          incoming_kept = d.incoming_kept;
          open_kept = d.open_kept;
        }
    go (err x) e again = cc
