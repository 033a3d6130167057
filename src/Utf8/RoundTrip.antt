-- ===== src/Utf8/RoundTrip.antt =====
-- Decoding reads back what was encoded.
use mathlib.Core.Option
use pinetime_dev_tools.Prelude.{
  ℕ, ◌+◌, ◌/◌, ◌<◌, ◌≤◌, [], ◌∷◌, ◌++◌, Option, none, some, false, ltb, leb, ◌&&◌, length,
  Bool-cases, inl, inr, ◌≡◌, refl, ap, ◌∙◌, arith,
}
use pinetime_dev_tools.Prelude.Texts.{Text}
use pinetime_dev_tools.Bytes.{Bytes}
use pinetime_dev_tools.Bytes.Struct.{join_bytes-eq-some}
use pinetime_dev_tools.Utf8.{
  encode_char, utf8_encode, decode_char, decode_from, utf8_decode, tail_byte, is_surrogate,
}

-- The bytes of a character are a leading byte that is decoded with the bytes behind it.
record Leads (c : ℕ) (bs : Bytes) : Type 0 where
  lead : ℕ
  tail : Bytes
  bytes_are : bs ≡ lead ∷ tail
  decodes : (rest : Bytes) → decode_char lead (tail ++ rest) ≡ some (c, length tail)

two_back :
    (c : ℕ) (rest : Bytes)
    → 0x80 ≤ c
    → c < 0x800
    → decode_char (0xc0 + c / 64) (tail_byte c ∷ rest) ≡ some (c, 1)
unfolding decode_char
two_back c rest lo hi = ground arith

three_back :
    (c : ℕ) (rest : Bytes)
    → 0x800 ≤ c
    → c < 0x10000
    → (leb 0xd800 c && leb c 0xdfff) ≡ false
    → decode_char (0xe0 + c / 4096) (tail_byte (c / 64) ∷ tail_byte c ∷ rest) ≡ some (c, 2)
unfolding decode_char
three_back c rest lo hi s = ground arith

four_back :
    (c : ℕ) (rest : Bytes)
    → 0x10000 ≤ c
    → c < 0x110000
    → decode_char
        (0xf0 + c / 262144)
        (tail_byte (c / 4096) ∷ tail_byte (c / 64) ∷ tail_byte c ∷ rest)
      ≡ some (c, 3)
unfolding decode_char
four_back c rest lo hi = ground arith

one_Leads : (c : ℕ) → c < 0x80 → Leads c (c ∷ [])
unfolding decode_char
one_Leads c h = record { lead = c; tail = []; bytes_are = refl; decodes = λ rest. ground arith }

-- The cases of `encode_char`.
two_Leads : (c : ℕ) → 0x80 ≤ c → c < 0x800 → Leads c ((0xc0 + c / 64) ∷ tail_byte c ∷ [])
two_Leads c lo hi = record {
  lead = 0xc0 + c / 64;
  tail = tail_byte c ∷ [];
  bytes_are = refl;
  decodes = λ rest. two_back c rest lo hi;
}

three_Leads :
    (c : ℕ)
    → 0x800 ≤ c
    → c < 0x10000
    → is_surrogate c ≡ false
    → Leads c ((0xe0 + c / 4096) ∷ tail_byte (c / 64) ∷ tail_byte c ∷ [])
three_Leads c lo hi s = record {
  lead = 0xe0 + c / 4096;
  tail = tail_byte (c / 64) ∷ tail_byte c ∷ [];
  bytes_are = refl;
  decodes = λ rest. three_back c rest lo hi s;
}

four_Leads :
    (c : ℕ)
    → 0x10000 ≤ c
    → c < 0x110000
    → Leads c ((0xf0 + c / 262144) ∷ tail_byte (c / 4096) ∷ tail_byte (c / 64) ∷ tail_byte c ∷ [])
four_Leads c lo hi = record {
  lead = 0xf0 + c / 262144;
  tail = tail_byte (c / 4096) ∷ tail_byte (c / 64) ∷ tail_byte c ∷ [];
  bytes_are = refl;
  decodes = λ rest. four_back c rest lo hi;
}

abbrev Encoded : ℕ → Option Bytes → Type 0
Encoded c none = Unit
Encoded c (some bs) = Leads c bs

encode_char-Encoded : (c : ℕ) → Encoded c (encode_char c)
unfolding encode_char
encode_char-Encoded c = elim (Bool-cases (ltb c 0x80)) [
  | inl one ↦ rw one (one_Leads c (ground arith))
  | inr h₁ ↦ rw h₁ (elim (Bool-cases (ltb c 0x800)) [
    | inl two ↦ rw two (two_Leads c (ground arith) (ground arith))
    | inr h₂ ↦ rw h₂ (elim (Bool-cases (is_surrogate c)) [
      | inl s ↦ rw s tt
      | inr h₃ ↦ rw h₃ (elim (Bool-cases (ltb c 0x10000)) [
        | inl three ↦ rw three (three_Leads c (ground arith) (ground arith) h₃)
        | inr h₄ ↦ rw h₄ (elim (Bool-cases (ltb c 0x110000)) [
          | inl four ↦ rw four (four_Leads c (ground arith) (ground arith))
          | inr h₅ ↦ rw h₅ tt
        ])
      ])
    ])
  ])
]

-- The continuation bytes are skipped.
decode_from-skip :
    (tail rest : Bytes) → decode_from (length tail) (tail ++ rest) ≡ decode_from 0 rest
unfolding decode_from
decode_from-skip [] rest = refl
decode_from-skip (b ∷ bs) rest = decode_from-skip bs rest

decode_from-lead :
    (b c n : ℕ) (bs : Bytes)
    → decode_char b bs ≡ some (c, n)
    → decode_from 0 (b ∷ bs) ≡ Option.map (◌∷◌ c) (decode_from n bs)
unfolding decode_from
decode_from-lead b c n bs e = ap back e
  where
    back : Option (ℕ × ℕ) → Option Text
    back o = elim o [ none ↦ none | some (k, size) ↦ Option.map (◌∷◌ k) (decode_from size bs) ]

decode-lead :
    (c : ℕ) (bs rest : Bytes)
    → Leads c bs
    → decode_from 0 (bs ++ rest) ≡ Option.map (◌∷◌ c) (decode_from 0 rest)
decode-lead c bs rest l =
    ap (λ t. decode_from 0 (t ++ rest)) l.bytes_are
    ∙ decode_from-lead l.lead c (length l.tail) (l.tail ++ rest) (l.decodes rest)
    ∙ ap (Option.map (◌∷◌ c)) (decode_from-skip l.tail rest)

-- What the strict encoder returns, the strict decoder reads back.
pub utf8_decode-encode : (s : Text) (bs : Bytes) → utf8_encode s ≡ some bs → utf8_decode bs ≡ some s
unfolding utf8_encode utf8_decode
utf8_decode-encode [] bs h = rw (← nil_is) refl
  where
    nil_is : [] ≡ bs
    nil_is = cc
utf8_decode-encode (c ∷ cs) bs h =
    let (xs, ys, hx, hy, e) = join_bytes-eq-some (encode_char c) (utf8_encode cs) h in
    rw e (
      decode-lead c xs ys (rw hx at (encode_char-Encoded c))
      ∙ ap (Option.map (◌∷◌ c)) (utf8_decode-encode cs ys hy))
