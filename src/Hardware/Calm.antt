-- ===== src/Hardware/Calm.antt =====
-- Actions of src/ptlab/hardware.py that raise no KeyError.
use pinetime_dev_tools.Prelude.{Bool, true, false, ◌≢◌, ap, String, if◌then◌else◌}
use pinetime_dev_tools.Prelude.Result.{Result, ok, err, map_err}
use pinetime_dev_tools.Prelude.State.{Exec, continue, ◌>>=◌, pure, raise, lift}
use pinetime_dev_tools.Hardware.{
  Outside, HardwareError, ValueError, Failure, hardware, value, outside, key_error, calling,
}

-- An action that ends with no KeyError.
abbrev pub Calm : {W A : Type 0} → Exec W Failure A → Type 0
Calm {W} m = (k : String) (w : W) → (m w).0 ≢ err (key_error k)

module _ {W A : Type 0} where
  pub calling-Calm : (m : Exec W Outside A) → Calm (calling m)
  calling-Calm m k w = go (m w).0
    where
      go : (r : Result Outside A) → map_err outside r ≢ err (key_error k)
      go (ok a) = λ e. cc
      go (err x) = λ e. cc

  pub value-Calm : (r : Result ValueError A) → Calm (lift {S = W} (map_err value r))
  value-Calm (ok a) k w = λ e. cc
  value-Calm (err x) k w = λ e. cc

  pub hardware-Calm : (r : Result HardwareError A) → Calm (lift {S = W} (map_err hardware r))
  hardware-Calm (ok a) k w = λ e. cc
  hardware-Calm (err x) k w = λ e. cc

  pub pure-Calm : (a : A) → Calm (pure {S = W} {E = Failure} a)
  pure-Calm a k w = λ e. cc

  pub hardware_raised-Calm : (x : HardwareError) → Calm {A = A} (raise {S = W} (hardware x))
  hardware_raised-Calm x k w = λ e. cc

  pub if-Calm : (b : Bool) (m n : Exec W Failure A) → Calm m → Calm n → Calm (if b then m else n)
  if-Calm true m n hm hn = hm
  if-Calm false m n hm hn = hn

module _ {W A B : Type 0} where
  pub bind-Calm :
      (m : Exec W Failure A) (f : A → Exec W Failure B)
      → Calm m
      → ((a : A) → Calm (f a))
      → Calm (m >>= f)
  bind-Calm m f hm hf k w = go (m w).0 (m w).1 (hm k w)
    where
      go :
          (r : Result Failure A) (v : W)
          → r ≢ err (key_error k)
          → (continue r f v).0 ≢ err (key_error k)
      go (ok a) v n = hf a k v
      go (err x) v n = λ e. n (ap raised e)
        where
          raised : Result Failure B → Result Failure A
          raised (ok b) = err x
          raised (err y) = err y
