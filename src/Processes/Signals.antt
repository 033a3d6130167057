-- ===== src/Processes/Signals.antt =====
-- The signals that a termination sends, and its end.
use Prim.Native.Nat.{min}
use pinetime_dev_tools.Prelude.{
  ℕ, zero, suc, ◌+◌, ◌-◌, List, [], ◌∷◌, ◌++◌, append_assoc, append-nil, Bool, true, false, not,
  ◌&&◌, ◌||◌, &&_elim, ltb, All, All-append, ◌≡◌, refl, sym, ap, ◌∙◌, Bool-cases, inl, inr,
}
use pinetime_dev_tools.Prelude.Int.{ℤ}
use pinetime_dev_tools.Prelude.Result.{Result, ok, err}
use pinetime_dev_tools.Prelude.State.{gets, continue, ◌>>=◌}
use pinetime_dev_tools.Processes.{
  ProcessRef, Signal, sigterm, sigkill, SignalOutcome, delivered, lookup_error, permission_error,
  ProcessError, System, same_ℤ, above_one, is_in, filter_pids, on_sent, send_each, pause, wait_gone,
  terminate, is_target, groups_of, first_groups, groups_left, hits_own_group, pids_left,
  terminate_process_groups, terminate_pids,
}

-- A system that keeps the list of the signals that were sent.
pub record Watched {S : Type 0} (system : System S) : Type 0 where
  pub log : S → List (ℤ × Signal)
  pub send_logs :
      (t : ℤ) (signal : Signal) (s : S) → log (system.send t signal s).1 ≡ log s ++ (t, signal) ∷ []
  pub sleep_logs : (n : ℕ) (s : S) → log (system.sleep n s) ≡ log s

module _ {S : Type 0} (system : System S) (w : Watched system) (Good : ℤ → Type 0) where
  -- Since `before`, signals went only to good targets.
  pub record Spared (before : List (ℤ × Signal)) (s : S) : Type 0 where
    pub sent : List (ℤ × Signal)
    pub logged : w.log s ≡ before ++ sent
    pub all_good : All (λ x. Good x.0) sent

  send_to-Spared :
      (before : List (ℤ × Signal)) (t : ℤ) (signal : Signal) (s : S)
      → Good t
      → Spared before s
      → Spared before (system.send t signal s).1
  send_to-Spared before t signal s g h = record {
    sent = h.sent ++ (t, signal) ∷ [];
    logged =
        w.send_logs t signal s
        ∙ ap (λ l. l ++ (t, signal) ∷ []) h.logged
        ∙ append_assoc before h.sent ((t, signal) ∷ []);
    all_good = All-append (λ x. Good x.0) h.sent ((t, signal) ∷ []) h.all_good (g, tt);
  }

  send_each-Spared :
      (before : List (ℤ × Signal)) (signal : Signal) (ts : List ℤ) (s : S)
      → All Good ts
      → Spared before s
      → Spared before (send_each system signal ts s).1
  unfolding send_each
  send_each-Spared before signal [] s g h = h
  send_each-Spared before signal (t ∷ ts) s (g, gs) h =
      go (system.send t signal s).0 (system.send t signal s).1
        (send_to-Spared before t signal s g h) (λ u k. send_each-Spared before signal ts u gs k)
    where
      go :
          (o : SignalOutcome) (u : S)
          → Spared before u
          → ((v : S) → Spared before v → Spared before (send_each system signal ts v).1)
          → Spared before
              (continue
                (on_sent system o u).0
                (λ _. send_each system signal ts)
                (on_sent system o u).1).1
      go delivered u k again = again u k
      go lookup_error u k again = again u k
      go permission_error u k again = k

  pause-Spared :
      (before : List (ℤ × Signal)) (deadline : ℕ) (ts : List ℤ) (s : S)
      → Spared before s
      → Spared before (pause system deadline ts s)
  pause-Spared before deadline [] s h = h
  pause-Spared before deadline (t ∷ ts) s h = record {
    sent = h.sent;
    logged = w.sleep_logs (min 50 (deadline - system.now s)) s ∙ h.logged;
    all_good = h.all_good;
  }

  -- What the wait hands on, and that it sends nothing.
  abbrev Waited : List (ℤ × Signal) → Result ProcessError (List ℤ) × S → Type 0
  Waited before (ok left, s) = All Good left × Spared before s
  Waited before (err e, s) = Spared before s

  wait-Waited :
      (before : List (ℤ × Signal)) (fuel deadline : ℕ) (still : List ℤ → S → List ℤ) (ts : List ℤ)
      (s : S)
      → ((l : List ℤ) (u : S) → All Good l → All Good (still l u))
      → All Good ts
      → Spared before s
      → Waited before (wait_gone system fuel deadline still ts s)
  unfolding wait_gone
  wait-Waited before zero deadline still ts s keeps g h = h
  wait-Waited before (suc fuel) deadline still [] s keeps g h = (tt, h)
  wait-Waited before (suc fuel) deadline still (t ∷ ts) s keeps g h =
      elim (Bool-cases (ltb (system.now s) deadline)) [
        | inl early ↦ rw early (
            wait-Waited before fuel deadline still (still (t ∷ ts) s)
              (pause system deadline (still (t ∷ ts) s) s) keeps (keeps (t ∷ ts) s g)
              (pause-Spared before deadline (still (t ∷ ts) s) s h))
        | inr late ↦ rw late (g, h)
      ]

  terminate-Spared :
      (timeout : ℕ) (still : List ℤ → S → List ℤ) (ts : List ℤ) (s : S)
      → ((l : List ℤ) (u : S) → All Good l → All Good (still l u))
      → All Good ts
      → Spared (w.log s) (terminate system timeout still ts s).1
  unfolding terminate
  terminate-Spared timeout still ts s keeps g =
      let started : Spared (w.log s) s = record {
        sent = [];
        logged = sym (append-nil (w.log s));
        all_good = tt;
      } in
      on_sent_all (send_each system sigterm ts s).0 (send_each system sigterm ts s).1
        (send_each-Spared (w.log s) sigterm ts s g started)
    where
      on_waited :
          (o : Result ProcessError (List ℤ) × S)
          → Waited (w.log s) o
          → Spared (w.log s) (continue o.0 (send_each system sigkill) o.1).1
      on_waited (ok left, u) (k, h) = send_each-Spared (w.log s) sigkill left u k h
      on_waited (err e, u) h = h

      on_sent_all :
          (r : Result ProcessError (Unit {0})) (u : S)
          → Spared (w.log s) u
          → Spared
              (w.log s)
              (continue r
                (λ _. gets (λ v. system.now v + timeout) >>= λ deadline.
                  wait_gone system (suc timeout) deadline still ts >>= send_each system sigkill)
                u).1
      on_sent_all (err e) u h = h
      on_sent_all (ok x) u h =
          on_waited (wait_gone system (suc timeout) (system.now u + timeout) still ts u)
            (wait-Waited (w.log s) (suc timeout) (system.now u + timeout) still ts u keeps g h)

groups_of-All :
    (Good : ℤ → Type 0) (f : ProcessRef → Bool) (rs : List ProcessRef)
    → All (λ r. f r ≡ true → Good r.pgid) rs
    → All Good (groups_of f rs)
unfolding groups_of
groups_of-All Good f [] h = tt
groups_of-All Good f (r ∷ rs) (h, hs) =
    let rest = groups_of f rs in
    elim (Bool-cases (f r && not (is_in r.pgid rest))) [
      | inl new ↦
          rw new (h (&&_elim (f r) (not (is_in r.pgid rest)) new).0, groups_of-All Good f rs hs)
      | inr old ↦ rw old (groups_of-All Good f rs hs)
    ]

filter_pids-All :
    (Good : ℤ → Type 0) (f : ℤ → Bool) (ps : List ℤ)
    → All (λ p. f p ≡ true → Good p) ps
    → All Good (filter_pids f ps)
unfolding filter_pids
filter_pids-All Good f [] h = tt
filter_pids-All Good f (p ∷ ps) (h, hs) =
    let rest = filter_pids f ps in
    elim (Bool-cases (f p && not (is_in p rest))) [
      | inl new ↦
          rw new (h (&&_elim (f p) (not (is_in p rest)) new).0, filter_pids-All Good f ps hs)
      | inr old ↦ rw old (filter_pids-All Good f ps hs)
    ]

-- A group that may be signalled: above 1, and not the tools' own.
abbrev pub IsForeign : {S : Type 0} → System S → ℤ → Type 0
IsForeign system t = (above_one t ≡ true) × (same_ℤ t system.own_group ≡ false)

module _ {S : Type 0} (system : System S) where
  targets-IsForeign :
      (rs : List ProcessRef)
      → hits_own_group system rs ≡ false
      → (g : ProcessRef → Bool)
      → All (λ r. (is_target r && g r) ≡ true → IsForeign system r.pgid) rs
  targets-IsForeign [] h g = tt
  targets-IsForeign (r ∷ rs) h g =
      let (mine, others) =
        ||_false (is_target r && same_ℤ r.pgid system.own_group) (hits_own_group system rs) h in
      (
        (λ e.
            let (target, x) = &&_elim (is_target r) (g r) e in
            (
              (&&_elim (above_one r.pid) (above_one r.pgid) target).1,
              apart (is_target r) (same_ℤ r.pgid system.own_group) target mine,
            )),
        targets-IsForeign rs others g,
      )
    where
      ||_false : (a b : Bool) → (a || b) ≡ false → (a ≡ false) × (b ≡ false)
      ||_false true b k = cc
      ||_false false b k = (refl, k)

      apart : (a b : Bool) → a ≡ true → (a && b) ≡ false → b ≡ false
      apart true b e k = k
      apart false b e k = cc

-- Terminating process groups signals only groups above 1 that are not the tools' own, whatever the
-- references say and however the termination ends; if one of them names the own group, it signals
-- none.
pub terminate_groups-Spared :
    {S : Type 0} (system : System S) (w : Watched system) (processes : List ProcessRef)
    (timeout : ℕ) (s : S)
    → Spared system w
        (IsForeign system)
        (w.log s)
        (terminate_process_groups system processes timeout s).1
      × (hits_own_group system processes ≡ true
          → (terminate_process_groups system processes timeout s).1 ≡ s)
unfolding terminate_process_groups
terminate_groups-Spared system w processes timeout s =
    elim (Bool-cases (hits_own_group system processes)) [
      | inl own ↦
          rw own
            (record { sent = []; logged = sym (append-nil (w.log s)); all_good = tt }, λ e. refl)
      | inr foreign ↦ rw foreign (
        terminate-Spared system w (IsForeign system) timeout (groups_left system processes)
            (first_groups system processes s) s
            (λ l u g. groups_of-All (IsForeign system) _ processes (
              targets-IsForeign system processes foreign
                (λ r. is_in r.pgid l && system.alive r.pid u)))
            (groups_of-All (IsForeign system) _ processes
              (targets-IsForeign system processes foreign (λ r. system.alive r.pid s))),
        λ e. absurd (never e),
      )
    ]
  where
    never : false ≡ true → ⊥
    never e = cc

alive_kept :
    (f : ℤ → Bool) (ps : List ℤ)
    → All (λ p. above_one p ≡ true) ps
    → All (λ p. f p ≡ true → above_one p ≡ true) ps
alive_kept f [] h = tt
alive_kept f (p ∷ ps) (h, hs) = ((λ e. h), alive_kept f ps hs)

chosen_above :
    (f : ℤ → Bool) (ps : List ℤ) → All (λ p. (above_one p && f p) ≡ true → above_one p ≡ true) ps
chosen_above f [] = tt
chosen_above f (p ∷ ps) = ((λ e. (&&_elim (above_one p) (f p) e).0), chosen_above f ps)

-- Terminating processes signals only identifiers above 1, however the termination ends: not 0, not
-- 1, and no process group.
terminate_pids-Spared :
    {S : Type 0} (system : System S) (w : Watched system) (pids : List ℤ) (timeout : ℕ) (s : S)
    → Spared system w (λ t. above_one t ≡ true) (w.log s) (terminate_pids system pids timeout s).1
unfolding terminate_pids
terminate_pids-Spared system w pids timeout s =
    terminate-Spared system w (λ t. above_one t ≡ true) timeout (pids_left system)
      (filter_pids (λ p. above_one p && system.alive p s) pids) s
      (λ l u g.
        filter_pids-All (λ t. above_one t ≡ true) (λ p. system.alive p u) l
          (alive_kept (λ p. system.alive p u) l g))
      (filter_pids-All (λ t. above_one t ≡ true) _ pids (chosen_above (λ p. system.alive p s) pids))
