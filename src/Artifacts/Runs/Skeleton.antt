-- ===== src/Artifacts/Runs/Skeleton.antt =====
-- What a run's folder that src/ptlab/artifacts.py created has been given.
use pinetime_dev_tools.Prelude.{
  ℕ, zero, suc, ◌+◌, ◌≤◌, ◌<◌, List, [], ◌∷◌, none, Bool, true, false, ◌≡◌, refl, subst, sym, ap,
  ◌∙◌, arith, String, if◌then◌else◌, All,
}
use pinetime_dev_tools.Prelude.Int.{ℤ}
use pinetime_dev_tools.Prelude.Result.{Result, ok, err, map_err}
use pinetime_dev_tools.Prelude.State.{Exec, pure, ◌>>◌, ◌>>=◌, bind_ran, pair_value}
use pinetime_dev_tools.Processes.{same_ℤ}
use pinetime_dev_tools.Hardware.{Outside}
use pinetime_dev_tools.Sim.{FilePath, ◌/+◌}
use pinetime_dev_tools.Workspace.{Workspace, last_part, repositories}
use pinetime_dev_tools.Artifacts.{text, Writer}
use pinetime_dev_tools.Artifacts.Runs.{
  RunPaths, run_paths, RepositoryState, RunError, outside, Host, in_writer, emits, make_run,
  create_run_paths, display_or, allocate_display, range, allocate_other, collect_repository_states,
  created_result, create_run_skeleton,
}

-- The numbers of a range are in its bounds.
range-All : (start n : ℕ) → All (λ k. (start ≤ k) × (k < start + n)) (range start n)
unfolding range
range-All start zero = tt
range-All start (suc n) =
    ((omega arith, omega arith), further (range (suc start) n) (range-All (suc start) n))
  where
    further :
        (ks : List ℕ)
        → All (λ k. (suc start ≤ k) × (k < suc start + n)) ks
        → All (λ k. (start ≤ k) × (k < start + suc n)) ks
    further [] h = tt
    further (k ∷ ks) ((a, b), hs) = ((omega arith, omega arith), further ks hs)

-- The calls were made one behind the other, and none of them raised.
abbrev pub AllDone : {W : Type 0} → List (Exec W Outside (Unit {0})) → W → W → Type 0
AllDone [] w v = w ≡ v
AllDone (call ∷ calls) w v = ((call w).0 ≡ ok tt) × AllDone calls (call w).1 v

module _ {W : Type 0} (host : Host W) where
  -- The calls that make the files of a run.
  abbrev pub run_calls : RunPaths → List (Exec W Outside (Unit {0}))
  run_calls paths =
      host.mkdir paths.root
      ∷ host.chmod paths.root
      ∷ host.mkdir paths.run
      ∷ host.mkdir paths.flash
      ∷ host.mkdir paths.shots
      ∷ host.mkdir paths.logs
      ∷ host.touch paths.stdout
      ∷ host.touch paths.stderr
      ∷ []

  -- A display that was seen to be inactive, with what else is true of all candidates.
  pub record Unused (P : ℕ → Type 0) (display : ℕ) : Type 0 where
    pub seen : W
    pub inactive : (host.is_active display seen).0 ≡ false
    pub candidate : P display

  allocate_display-Unused :
      (P : ℕ → Type 0) (candidates : List ℕ) (display : ℕ) (s t : Writer W)
      → All P candidates
      → allocate_display host candidates s ≡ (ok display, t)
      → Unused P display
  unfolding allocate_display
  allocate_display-Unused P [] display s t h e = cc
  allocate_display-Unused P (n ∷ rest) display s t (p, ps) e =
      go (host.is_active n s.world).0 _ refl e (allocate_display-Unused P rest display)
    where
      go :
          (b : Bool) (u : Writer W)
          → (host.is_active n s.world).0 ≡ b
          → display_or host n (allocate_display host rest) b u ≡ (ok display, t)
          → ((v w : Writer W)
              → All P rest
              → allocate_display host rest v ≡ (ok display, w)
              → Unused P display)
          → Unused P display
      go true u k j again = again u t ps j
      go false u k j again =
          subst (Unused P) (pair_value n display u t j)
            (record { seen = s.world; inactive = k; candidate = p })

  allocate_other-differ :
      (fuel : ℕ) (gatt_port first port : ℤ) (s t : Writer W)
      → allocate_other host fuel gatt_port first s ≡ (ok port, t)
      → same_ℤ port gatt_port ≡ false
  unfolding allocate_other
  allocate_other-differ zero gatt_port first port s t h = cc
  allocate_other-differ (suc fuel) gatt_port first port s t h =
      go (same_ℤ first gatt_port) refl h (allocate_other-differ fuel gatt_port)
    where
      go :
          (b : Bool)
          → same_ℤ first gatt_port ≡ b
          → (if b
              then (in_writer host host.port_allocator >>= allocate_other host fuel gatt_port) s
              else (ok first, s))
            ≡ (ok port, t)
          → ((x y : ℤ) (u v : Writer W)
              → allocate_other host fuel gatt_port x u ≡ (ok y, v)
              → same_ℤ y gatt_port ≡ false)
          → same_ℤ port gatt_port ≡ false
      go true e k again =
          let (x, u, j, rest) = bind_ran (in_writer host host.port_allocator) _ s k in
          again x port u t rest
      go false e k again = ap (λ z. same_ℤ z gatt_port) (sym (pair_value first port s t k)) ∙ e

  -- The result that was written, and what it says.
  pub record Created (workspace : Workspace) (runs_root : FilePath) (paths : RunPaths) (before : W)
      : Type 0 where
    pub name : String
    pub named : W
    pub made : W
    pub fresh : host.fresh_name before ≡ (name, named)
    pub files : AllDone (run_calls paths) named made
    pub laid_out : paths ≡ run_paths (runs_root /+ name)
    pub gatt_port : ℤ
    pub ble_control_port : ℤ
    pub differ : same_ℤ ble_control_port gatt_port ≡ false
    pub display : ℕ
    pub unused : Unused (λ n. (99 ≤ n) × (n < 99 + 31)) display
    pub states : List (String × RepositoryState)
    pub from : W
    pub written :
        (host.write_result
          (created_result workspace paths gatt_port ble_control_port display states)
          from).0
        ≡ ok tt

  in_writer-ok :
      {A : Type 0} (f : Exec W Outside A) (a : A) (s t : Writer W)
      → in_writer host f s ≡ (ok a, t)
      → ((f s.world).0 ≡ ok a) × ((f s.world).1 ≡ t.world)
  in_writer-ok {A} f a s t h =
      (go (f s.world).0 _ refl h, ap (λ (x : Result RunError A × Writer W). x.1.world) h)
    where
      go :
          (r : Result Outside A) (u : Writer W)
          → (f s.world).0 ≡ r
          → ◌≡◌ {A = Result RunError A × Writer W} (map_err outside r, u) (ok a, t)
          → (f s.world).0 ≡ ok a
      go (ok b) u e k = e ∙ ap ok (pair_value b a u t k)
      go (err x) u e k = cc

  abbrev do_all :
      List (Exec W Outside (Unit {0}))
      → Exec (Writer W) RunError RunPaths
      → Exec (Writer W) RunError RunPaths
  do_all [] last = last
  do_all (call ∷ calls) last = in_writer host call >> do_all calls last

  do_all-AllDone :
      (calls : List (Exec W Outside (Unit {0}))) (paths made : RunPaths) (s t : Writer W)
      → do_all calls (pure paths) s ≡ (ok made, t)
      → (made ≡ paths) × AllDone calls s.world t.world
  do_all-AllDone [] paths made s t h = (
    sym (pair_value paths made s t h),
    ap (λ (p : Result RunError RunPaths × Writer W). p.1.world) h,
  )
  do_all-AllDone (call ∷ calls) paths made s t h =
      let (x, u, ran, rest) = bind_ran (in_writer host call) _ s h in
      let (returned, moved) = in_writer-ok call x s u ran in
      let (same, done) = do_all-AllDone calls paths made u t rest in
      (same, (returned, subst (λ w. AllDone calls w t.world) (sym moved) done))

  make_run-AllDone :
      (paths made : RunPaths) (s t : Writer W)
      → make_run host paths s ≡ (ok made, t)
      → (made ≡ paths) × AllDone (run_calls paths) s.world t.world
  unfolding make_run
  make_run-AllDone paths made s t h = do_all-AllDone (run_calls paths) paths made s t h

  -- The same for what was called with another name of the paths.
  moved-ok :
      (f : RunPaths → Exec W Outside (Unit {0})) (p q : RunPaths) (s t : Writer W) {x : Unit {0}}
      → p ≡ q
      → in_writer host (f p) s ≡ (ok x, t)
      → (f q s.world).0 ≡ ok tt
  moved-ok f p q s t {x} e h = ap (λ r. (f r s.world).0) (sym e) ∙ (in_writer-ok (f p) x s t h).0

-- For a run that was created, the calls that make its folder under a fresh name, its four
-- subfolders and its two empty logs, and that restrict the folder, were made in this order and none
-- raised; two ports differ, and a display from 99 to 129 was seen to be inactive; a result that
-- says so was written.
pub create_run_skeleton-Created :
    {W : Type 0} (host : Host W) (fuel : ℕ) (workspace : Workspace) (runs_root : FilePath)
    (paths : RunPaths) (s t : Writer W)
    → create_run_skeleton host fuel workspace runs_root s ≡ (ok paths, t)
    → Created host workspace runs_root paths s.world
unfolding create_run_skeleton create_run_paths
create_run_skeleton-Created host fuel workspace runs_root paths s t h =
    let (made, s₁, h₁, k₁) = bind_ran (create_run_paths host runs_root none) _ s h in
    let (name, named) = host.fresh_name s.world in
    let (x₂, s₂, h₂, k₂) =
      bind_ran (emits host "run.created" (("run_id", text (last_part made.root)) ∷ [])) _ s₁ k₁ in
    let (gatt_port, s₃, h₃, k₃) = bind_ran (in_writer host host.port_allocator) _ s₂ k₂ in
    let (first, s₄, h₄, k₄) = bind_ran (in_writer host host.port_allocator) _ s₃ k₃ in
    let (port, s₅, h₅, k₅) = bind_ran (allocate_other host fuel gatt_port first) _ s₄ k₄ in
    let (display, s₆, h₆, k₆) = bind_ran (allocate_display host (range 99 31)) _ s₅ k₅ in
    let (states, s₇, h₇, k₇) =
      bind_ran (collect_repository_states host (repositories workspace)) _ s₆ k₆ in
    let (x₈, s₈, h₈, k₈) =
      bind_ran
        (in_writer host
          (host.write_result (created_result workspace made gatt_port port display states)))
        _ s₇ k₇ in
    let (x₉, s₉, h₉, k₉) =
      bind_ran (emits host "run.ready" (("status", text "created") ∷ [])) _ s₈ k₈ in
    let same = pair_value made paths s₉ t k₉ in
    let (laid, done) =
      make_run-AllDone host (run_paths (runs_root /+ name)) made (record s { world = named }) s₁
        h₁ in
    record {
      name = name;
      named = named;
      made = s₁.world;
      fresh = refl;
      files = subst (λ p. AllDone (run_calls host p) named s₁.world) (sym laid ∙ same) done;
      laid_out = sym same ∙ laid;
      gatt_port = gatt_port;
      ble_control_port = port;
      differ = allocate_other-differ host fuel gatt_port first port s₄ s₅ h₅;
      display = display;
      unused = allocate_display-Unused host _ (range 99 31) display s₅ s₆ (range-All 99 31) h₆;
      states = states;
      from = s₇.world;
      written =
          moved-ok host
            (λ p. host.write_result (created_result workspace p gatt_port port display states)) made
            paths s₇ s₈ same h₈;
    }
