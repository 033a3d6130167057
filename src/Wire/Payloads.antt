-- ===== src/Wire/Payloads.antt =====
-- The status payloads that a watch sends, against the parsers.
use pinetime_dev_tools.Prelude.{
  ℕ, ◌^◌, ◌<◌, [], ◌∷◌, ◌++◌, Option, none, some, length, ◌≡◌, ◌≢◌, arith,
}
use pinetime_dev_tools.Prelude.Result.{ok, err}
use pinetime_dev_tools.Bytes.{Bytes, le_bytes}
use pinetime_dev_tools.Bytes.Layout.{le_value-le_bytes}
use pinetime_dev_tools.Wire.{
  digest_size, status_size, Digest, parse_digest, CompanionStatus, parse_companion_status,
}

abbrev streak_bytes : Option ℕ → Bytes
streak_bytes none = []
streak_bytes (some n) = le_bytes 2 n

-- The digest that a watch writes for a state: "<BBBI", and "<H" where it keeps a streak.
abbrev pub digest_bytes : Digest → Bytes
digest_bytes d = d.protocol ∷ d.capacity ∷ d.count ∷ (le_bytes 4 d.version ++ streak_bytes d.streak)

abbrev StreakFits : Option ℕ → Type 0
StreakFits none = Unit
StreakFits (some n) = n < 2 ^ 16

pub record DigestFits (d : Digest) : Type 0 where
  pub version_fits : d.version < 2 ^ 32
  pub streak_fits : StreakFits d.streak

parse_with :
    (p c n v : ℕ) (s : Option ℕ)
    → v < 2 ^ 32
    → StreakFits s
    → parse_digest (p ∷ c ∷ n ∷ (le_bytes 4 v ++ streak_bytes s))
      ≡ ok (record { protocol = p; capacity = c; count = n; version = v; streak = s })
unfolding parse_digest
parse_with p c n v none hv hs = ground (arith, le_value-le_bytes 4 v hv)
parse_with p c n v (some k) hv hs =
    ground (arith, le_value-le_bytes 4 v hv, le_value-le_bytes 2 k hs)

-- A digest of 7 or 9 bytes is read back whole, for every state whose version fits 32 bits and whose
-- streak, if any, fits 16.
pub parse_digest-digest_bytes : (d : Digest) → DigestFits d → parse_digest (digest_bytes d) ≡ ok d
parse_digest-digest_bytes d h =
    parse_with d.protocol d.capacity d.count d.version d.streak h.version_fits h.streak_fits

-- "<BBBBIIHHI"
abbrev pub status_bytes : CompanionStatus → Bytes
status_bytes s =
    s.protocol
    ∷ s.capacity
    ∷ s.bonded_count
    ∷ s.eviction_policy
    ∷ (le_bytes 4 s.reset_epoch
        ++ (le_bytes 4 s.eviction_count
            ++ (le_bytes 2 s.cccd_overflow_rejections
                ++ (le_bytes 2 s.invariant_violations ++ le_bytes 4 s.flags))))

pub record StatusFits (s : CompanionStatus) : Type 0 where
  pub epoch_fits : s.reset_epoch < 2 ^ 32
  pub evictions_fit : s.eviction_count < 2 ^ 32
  pub rejections_fit : s.cccd_overflow_rejections < 2 ^ 16
  pub violations_fit : s.invariant_violations < 2 ^ 16
  pub flags_fit : s.flags < 2 ^ 32

-- The nine fields of a companion status are read back from its 20 bytes.
pub parse_status-status_bytes :
    (s : CompanionStatus) → StatusFits s → parse_companion_status (status_bytes s) ≡ ok s
unfolding parse_companion_status
parse_status-status_bytes s h = ground (
  arith,
  le_value-le_bytes 4 s.reset_epoch h.epoch_fits,
  le_value-le_bytes 4 s.eviction_count h.evictions_fit,
  le_value-le_bytes 2 s.cccd_overflow_rejections h.rejections_fit,
  le_value-le_bytes 2 s.invariant_violations h.violations_fit,
  le_value-le_bytes 4 s.flags h.flags_fit,
)

-- Both parsers refuse exactly the payloads of another size, and the error carries that size.
pub sizes_refused :
    (payload : Bytes)
    → ((n : ℕ)
        → parse_digest payload ≡ err (digest_size n)
        → (n ≡ length payload) × (n ≢ 7) × (n ≢ 9))
      × (length payload ≢ 7
          → length payload ≢ 9
          → parse_digest payload ≡ err (digest_size (length payload)))
      × (length payload ≢ 20 → parse_companion_status payload ≡ err (status_size (length payload)))
unfolding parse_digest parse_companion_status
sizes_refused payload = (λ n h. ground arith, λ a b. ground arith, λ a. ground arith)
