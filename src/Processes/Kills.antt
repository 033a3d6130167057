-- ===== src/Processes/Kills.antt =====
-- The order of the signals of a termination.
use pinetime_dev_tools.Prelude.{
  ℕ, zero, suc, ◌+◌, List, [], ◌∷◌, ◌++◌, map, append_assoc, append-nil, ◌&&◌, ltb, ◌≡◌, ◌≢◌, refl,
  sym, ap, ◌∙◌, Bool-cases, inl, inr,
}
use pinetime_dev_tools.Prelude.Int.{ℤ}
use pinetime_dev_tools.Prelude.Result.{Result, ok, err}
use pinetime_dev_tools.Prelude.State.{gets, continue, ◌>>=◌}
use pinetime_dev_tools.Processes.{
  Signal, sigterm, sigkill, SignalOutcome, delivered, lookup_error, permission_error, ProcessError,
  System, above_one, filter_pids, on_sent, send_each, pause, wait_gone, terminate, pids_left,
  terminate_pids,
}
use pinetime_dev_tools.Processes.Signals.{Watched}

abbrev pub signals : Signal → List ℤ → List (ℤ × Signal)
signals signal ts = map (λ t. (t, signal)) ts

abbrev IsOk : {A : Type 0} → Result ProcessError A → Type 0
IsOk (ok a) = Unit
IsOk (err e) = ⊥

module _ {S : Type 0} (system : System S) (w : Watched system) where
  -- What a round of signals sends: the signal to the first targets, and to all if it returns.
  record Sent (signal : Signal) (ts : List ℤ) (s : S) (o : Result ProcessError (Unit {0}) × S)
      : Type 0 where
    first : List ℤ
    logged : w.log o.1 ≡ w.log s ++ signals signal first
    all_if_ok : IsOk o.0 → first ≡ ts

  send_each-Sent :
      (signal : Signal) (ts : List ℤ) (s : S) → Sent signal ts s (send_each system signal ts s)
  unfolding send_each
  send_each-Sent signal [] s = record {
    first = [];
    logged = sym (append-nil (w.log s));
    all_if_ok = λ x. refl;
  }
  send_each-Sent signal (t ∷ ts) s =
      go (system.send t signal s).0 (system.send t signal s).1 (w.send_logs t signal s)
        (send_each-Sent signal ts)
    where
      more :
          (u : S) (o : Result ProcessError (Unit {0}) × S)
          → w.log u ≡ w.log s ++ (t, signal) ∷ []
          → Sent signal ts u o
          → Sent signal (t ∷ ts) s o
      more u o e h = record {
        first = t ∷ h.first;
        logged =
            h.logged
            ∙ ap (λ l. l ++ signals signal h.first) e
            ∙ append_assoc (w.log s) ((t, signal) ∷ []) (signals signal h.first);
        all_if_ok = λ x. ap (◌∷◌ t) (h.all_if_ok x);
      }

      go :
          (o : SignalOutcome) (u : S)
          → w.log u ≡ w.log s ++ (t, signal) ∷ []
          → ((v : S) → Sent signal ts v (send_each system signal ts v))
          → Sent signal (t ∷ ts) s (
              continue
                (on_sent system o u).0
                (λ _. send_each system signal ts)
                (on_sent system o u).1)
      go delivered u e again = more u (send_each system signal ts u) e (again u)
      go lookup_error u e again = more u (send_each system signal ts u) e (again u)
      go permission_error u e again = record {
        first = t ∷ [];
        logged = e;
        all_if_ok = λ x. absurd x;
      }

  pause-log : (deadline : ℕ) (ts : List ℤ) (s : S) → w.log (pause system deadline ts s) ≡ w.log s
  pause-log deadline [] s = refl
  pause-log deadline (t ∷ ts) s = w.sleep_logs _ s

  wait-log :
      (fuel deadline : ℕ) (still : List ℤ → S → List ℤ) (ts : List ℤ) (s : S)
      → w.log (wait_gone system fuel deadline still ts s).1 ≡ w.log s
  unfolding wait_gone
  wait-log zero deadline still ts s = refl
  wait-log (suc fuel) deadline still [] s = refl
  wait-log (suc fuel) deadline still (t ∷ ts) s = elim (Bool-cases (ltb (system.now s) deadline)) [
    | inl early ↦ rw early (
        wait-log fuel deadline still (still (t ∷ ts) s) (pause system deadline (still (t ∷ ts) s) s)
        ∙ pause-log deadline (still (t ∷ ts) s) s)
    | inr late ↦ rw late refl
  ]

  -- First SIGTERM to targets, then SIGKILL; none is killed unless all were asked to end.
  pub record TermFirst (targets : List ℤ) (before : List (ℤ × Signal)) (s : S) : Type 0 where
    pub asked : List ℤ
    pub killed : List ℤ
    pub logged : w.log s ≡ before ++ (signals sigterm asked ++ signals sigkill killed)
    pub all_asked : killed ≢ [] → asked ≡ targets

  terminate-TermFirst :
      (timeout : ℕ) (still : List ℤ → S → List ℤ) (ts : List ℤ) (s : S)
      → TermFirst ts (w.log s) (terminate system timeout still ts s).1
  unfolding terminate
  terminate-TermFirst timeout still ts s =
      on_terms (send_each system sigterm ts s).0 (send_each system sigterm ts s).1
        (send_each-Sent sigterm ts s)
    where
      no_kill :
          (u v : S) (first : List ℤ)
          → w.log v ≡ w.log u
          → w.log u ≡ w.log s ++ signals sigterm first
          → TermFirst ts (w.log s) v
      no_kill u v first e h = record {
        asked = first;
        killed = [];
        logged = e ∙ h ∙ ap (λ l. w.log s ++ l) (sym (append-nil (signals sigterm first)));
        all_asked = λ x. absurd (x refl);
      }

      on_waited :
          (u : S) (first : List ℤ) (r : Result ProcessError (List ℤ)) (v : S)
          → w.log v ≡ w.log u
          → w.log u ≡ w.log s ++ signals sigterm first
          → first ≡ ts
          → TermFirst ts (w.log s) (continue r (send_each system sigkill) v).1
      on_waited u first (err e) v same h all = no_kill u v first same h
      on_waited u first (ok left) v same h all =
          let k = send_each-Sent sigkill left v in
          record {
            asked = first;
            killed = k.first;
            logged =
                k.logged
                ∙ ap (λ l. l ++ signals sigkill k.first) (same ∙ h)
                ∙ append_assoc (w.log s) (signals sigterm first) (signals sigkill k.first);
            all_asked = λ x. all;
          }

      on_terms :
          (r : Result ProcessError (Unit {0})) (u : S)
          → Sent sigterm ts s (r, u)
          → TermFirst ts
              (w.log s)
              (continue r
                (λ _. gets (λ v. system.now v + timeout) >>= λ deadline.
                  wait_gone system (suc timeout) deadline still ts >>= send_each system sigkill)
                u).1
      on_terms (err e) u h = no_kill u u h.first refl h.logged
      on_terms (ok x) u h =
          let deadline = system.now u + timeout in
          on_waited u h.first (wait_gone system (suc timeout) deadline still ts u).0
            (wait_gone system (suc timeout) deadline still ts u).1
            (wait-log (suc timeout) deadline still ts u) h.logged (h.all_if_ok tt)

-- Terminating processes sends SIGTERMs and then SIGKILLs, in this order and nothing else; if it
-- kills any, then each process that was alive at the start was first sent a SIGTERM.
pub terminate_pids-TermFirst :
    {S : Type 0} (system : System S) (w : Watched system) (pids : List ℤ) (timeout : ℕ) (s : S)
    → TermFirst system w
        (filter_pids (λ p. above_one p && system.alive p s) pids)
        (w.log s)
        (terminate_pids system pids timeout s).1
unfolding terminate_pids
terminate_pids-TermFirst system w pids timeout s =
    terminate-TermFirst system w timeout (pids_left system)
      (filter_pids (λ p. above_one p && system.alive p s) pids) s
