-- ===== src/Prelude/State.antt =====
-- Methods that change an object and may raise. What was written before a raise stays written, so
-- the state comes back beside the error too.
use mathlib.Core.Path.{◌≡◌, refl, ap}
use pinetime_dev_tools.Prelude.Result.{Result, ok, err}

abbrev pub Exec {ℓ κ μ} : Type ℓ → Type κ → Type μ → Type (ℓ ⊔ κ ⊔ μ)
Exec S E A = S → Result E A × S

module _ {ℓ κ μ} {S : Type ℓ} {E : Type κ} {A : Type μ} where
  abbrev pub pure : A → Exec S E A
  pure a s = (ok a, s)

  abbrev pub raise : E → Exec S E A
  raise e s = (err e, s)

  abbrev pub lift : Result E A → Exec S E A
  lift r s = (r, s)

  abbrev pub gets : (S → A) → Exec S E A
  gets f s = (ok (f s), s)

module _ {ℓ κ} {S : Type ℓ} {E : Type κ} where
  abbrev pub modify : (S → S) → Exec S E (Unit {0})
  modify f s = (ok tt, f s)

module _ {ℓ κ μ ν} {S : Type ℓ} {E : Type κ} {A : Type μ} {B : Type ν} where
  abbrev pub continue : Result E A → (A → Exec S E B) → Exec S E B
  continue (ok a) f s = f a s
  continue (err e) f s = (err e, s)

  infixl 5 ◌>>=◌ ◌>>◌
  abbrev pub ◌>>=◌ : Exec S E A → (A → Exec S E B) → Exec S E B
  ◌>>=◌ m f s = continue (m s).0 f (m s).1

  abbrev pub ◌>>◌ : Exec S E A → Exec S E B → Exec S E B
  m >> n = m >>= λ _. n

-- Behind an action that returned, what is left to do is its continuation.
module _ {ℓ κ μ ν ξ} {S : Type ℓ} {E : Type κ} {A : Type μ} {B : Type ν} where
  pub after_ok :
      (P : Result E B × S → Type ξ) (r : Result E A) (f : A → Exec S E B) (s : S) {a : A}
      → r ≡ ok a
      → P (f a s)
      → P (continue r f s)
  after_ok P r f s e h = rw e h

-- A sequence that returned: its first action returned, and then the rest did.
module _ {ℓ κ μ ν} {S : Type ℓ} {E : Type κ} {A : Type μ} {B : Type ν} where
  pub bind_ran :
      (m : Exec S E A) (f : A → Exec S E B) (s : S) {b : B} {t : S}
      → (m >>= f) s ≡ (ok b, t)
      → (a : A) × (s' : S) × (m s ≡ (ok a, s')) × (f a s' ≡ (ok b, t))
  bind_ran m f s {b} {t} h = go (m s).0 (m s).1 refl h
    where
      go :
          (r : Result E A) (s' : S)
          → m s ≡ (r, s')
          → continue r f s' ≡ (ok b, t)
          → (a : A) × (s' : S) × (m s ≡ (ok a, s')) × (f a s' ≡ (ok b, t))
      go (ok a) s' e k = (a, s', e, k)
      go (err x) s' e k = cc

-- Nothing before an action that raises is undone, and nothing behind it is done.
module _ {ℓ κ μ ν} {S : Type ℓ} {E : Type κ} {A : Type μ} {B : Type ν} where
  pub bind_raised :
      (m : Exec S E A) (f : A → Exec S E B) (s : S) {e : E} {t : S}
      → m s ≡ (err e, t)
      → (m >>= f) s ≡ (err e, t)
  bind_raised m f s h = ap (λ (r, s'). continue r f s') h

  pub bind_returned :
      (m : Exec S E A) (f : A → Exec S E B) (s : S) {a : A} {t : S}
      → m s ≡ (ok a, t)
      → (m >>= f) s ≡ f a t
  bind_returned m f s h = ap (λ (r, s'). continue r f s') h

module _ {ℓ κ μ} {S : Type ℓ} {E : Type κ} {A : Type μ} where
  -- What an action that returned returned, and where it ended.
  pub pair_value : (a b : A) (s t : S) → ◌≡◌ {A = Result E A × S} (ok a, s) (ok b, t) → a ≡ b
  pair_value a b s t h = cc

  pub pair_result :
      (r : Result E A) (q : Result E A) (s t : S) → ◌≡◌ {A = Result E A × S} (r, s) (q, t) → r ≡ q
  pair_result r q s t h = cc
