-- ===== src/Transfer/Push.antt =====
-- What a push writes, however it ends.
use pinetime_dev_tools.Prelude.{
  ℕ, ◌+◌, List, [], ◌∷◌, ◌++◌, map, ◌==◌, String, Bool-cases, inl, inr, append-nil, append_assoc,
  ◌≡◌, refl, sym, ap, subst, ◌∙◌,
}
use pinetime_dev_tools.Prelude.Int.{ℤ, pos}
use pinetime_dev_tools.Prelude.Result.{Result, ok, err, map_err, bind-eq-ok, ◌>>=◌}
use pinetime_dev_tools.Prelude.State.{Exec, pure, continue}
use pinetime_dev_tools.Prelude.State
use pinetime_dev_tools.Bytes.{Bytes}
use pinetime_dev_tools.Gatt.Client.{GattResponse, ClientError}
use pinetime_dev_tools.Wire.{WireError, record_message}
use pinetime_dev_tools.Transfer.{
  TransferError, client_error, record_failed, Device, calling, expect_ok, push_each,
}

-- A device that keeps the list of what was written to it.
pub record Logged {S : Type 0} (dev : Device S) : Type 0 where
  pub log : S → List (String × Bytes)
  pub write_logs :
      (ch : String) (bs : Bytes) (s : S) → log (dev.write ch bs s).1 ≡ log s ++ (ch, bs) ∷ []
  pub read_logs : (ch : String) (s : S) → log (dev.read ch s).1 ≡ log s
  pub sleep_logs : (n : ℕ) (s : S) → log (dev.sleep n s) ≡ log s

-- The messages of the records, or the error of the first that cannot be encoded.
unfoldable pub record_messages : ℕ → List Bytes → ℤ → Result WireError (List Bytes)
record_messages index [] record_version = ok []
record_messages index (r ∷ rs) record_version = do
  m ← record_message (pos index) r record_version
  ms ← record_messages (index + 1) rs record_version
  ok (m ∷ ms)

abbrev pub IsOk {ℓ κ} : {E : Type ℓ} {A : Type κ} → Result E A → Type 0
IsOk (ok a) = Unit
IsOk (err e) = ⊥

module _ {S : Type 0} (dev : Device S) (l : Logged dev) (sync : String) where
  abbrev pub to_sync : List Bytes → List (String × Bytes)
  to_sync = map (λ bs. (sync, bs))

  -- From state `s`, messages went out up to some point of the plan, and all of them if the action
  -- returned.
  pub record Follows {A : Type 0} (plan : List Bytes) (s : S) (o : Result TransferError A × S)
      : Type 0 where
    pub sent : List Bytes
    pub unsent : List Bytes
    pub plan_is : plan ≡ sent ++ unsent
    pub logged : l.log o.1 ≡ l.log s ++ to_sync sent
    pub all_if_ok : IsOk o.0 → unsent ≡ []

  stops :
      {A : Type 0} (plan : List Bytes) (s s' : S) (e : TransferError)
      → l.log s' ≡ l.log s
      → Follows {A = A} plan s (err e, s')
  stops plan s s' e h = record {
    sent = [];
    unsent = plan;
    plan_is = refl;
    logged = h ∙ sym (append-nil (l.log s));
    all_if_ok = λ x. absurd x;
  }

  module _ {A : Type 0} (m : Bytes) (plan : List Bytes) (s s' : S)
      (wrote : l.log s' ≡ l.log s ++ (sync, m) ∷ []) where
    -- The first message went out, and then the action raised.
    stops_behind : (e : TransferError) → Follows {A = A} (m ∷ plan) s (err e, s')
    stops_behind e = record {
      sent = m ∷ [];
      unsent = plan;
      plan_is = refl;
      logged = wrote;
      all_if_ok = λ x. absurd x;
    }

    -- The first message went out, and the action went on.
    goes_on : (o : Result TransferError A × S) → Follows plan s' o → Follows (m ∷ plan) s o
    goes_on o f = record {
      sent = m ∷ f.sent;
      unsent = f.unsent;
      plan_is = ap (◌∷◌ m) f.plan_is;
      logged =
          f.logged
          ∙ ap (λ t. t ++ to_sync f.sent) wrote
          ∙ append_assoc (l.log s) ((sync, m) ∷ []) (to_sync f.sent);
      all_if_ok = f.all_if_ok;
    }

    answered :
        (r : Result ClientError GattResponse) (failure : ℕ → TransferError)
        (k : Exec S TransferError A)
        → Follows plan s' (k s')
        → Follows
            (m ∷ plan)
            s
            (continue (map_err client_error r) (λ x. State.◌>>=◌ (expect_ok x failure) (λ _. k)) s')
    answered (err e) failure k rest = stops_behind (client_error e)
    answered (ok x) failure k rest = elim (Bool-cases (x.status == 0)) [
      | inl fine ↦ rw fine (goes_on (k s') rest)
      | inr refused ↦ rw refused (stops_behind (failure x.status))
    ]

  -- Writing the next message of the plan, and going on behind it.
  pub one_write :
      {A : Type 0} (m : Bytes) (plan : List Bytes) (s : S) (failure : ℕ → TransferError)
      (k : Exec S TransferError A)
      → ((s' : S) → Follows plan s' (k s'))
      → Follows (m ∷ plan) s (
          State.◌>>=◌
            (calling (dev.write sync m))
            (λ r. State.◌>>=◌ (expect_ok r failure) (λ _. k))
            s)
  one_write m plan s failure k rest =
      let (r, s') = dev.write sync m s in
      answered m plan s s' (l.write_logs sync m s) r failure k (rest s')

  regroup :
      (r : Result ClientError GattResponse) (failure : ℕ → TransferError)
      (p k : Exec S TransferError (Unit {0})) (s : S)
      → State.◌>>=◌
          (continue (map_err client_error r) (λ x. State.◌>>=◌ (expect_ok x failure) (λ _. p)))
          (λ _. k)
          s
        ≡ continue
            (map_err client_error r)
            (λ x. State.◌>>=◌ (expect_ok x failure) (λ _. State.◌>>=◌ p (λ _. k)))
            s
  regroup (err e) failure p k s = refl
  regroup (ok x) failure p k s = elim (Bool-cases (x.status == 0)) [
    | inl fine ↦ rw fine refl
    | inr refused ↦ rw refused refl
  ]

  -- The records go out in order, before what follows them.
  pub push_each-Follows :
      (records : List Bytes) (index : ℕ) (version : ℤ) (ms tail : List Bytes)
      (k : Exec S TransferError (Unit {0}))
      → record_messages index records version ≡ ok ms
      → ((s : S) → Follows tail s (k s))
      → (s : S)
      → Follows (ms ++ tail) s (State.◌>>=◌ (push_each dev sync version index records) (λ _. k) s)
  unfolding push_each record_messages
  push_each-Follows [] index version ms tail k e rest s =
      let nil_is : [] ≡ ms = cc in subst (λ t. Follows (t ++ tail) s (k s)) nil_is (rest s)
  push_each-Follows (r ∷ rs) index version ms tail k e rest s =
      let (m, hm, e₁) = bind-eq-ok (record_message (pos index) r version) _ e in
      let (ms', hms, e₂) = bind-eq-ok (record_messages (index + 1) rs version) _ e₁ in
      let cons_is : m ∷ ms' ≡ ms = cc in
      let (x, s') = dev.write sync m s in
      subst
        (λ t.
          Follows (t ++ tail) s
            (State.◌>>=◌ (push_each dev sync version index (r ∷ rs)) (λ _. k) s))
        cons_is
        (rw hm (
          rw (regroup x (record_failed index) (push_each dev sync version (index + 1) rs) k s') (
            one_write m (ms' ++ tail) s (record_failed index)
              (State.◌>>=◌ (push_each dev sync version (index + 1) rs) (λ _. k))
              (push_each-Follows rs (index + 1) version ms' tail k hms rest))))
