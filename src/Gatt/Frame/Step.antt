-- ===== src/Gatt/Frame/Step.antt =====
-- One round of the loop: what it leaves, and that later bytes do not change what it found.
use pinetime_dev_tools.Prelude.{
  ℕ, ◌+◌, ◌-◌, ◌≤◌, ◌<◌, [], ◌∷◌, ◌++◌, false, ltb, ◌==◌, length, take, drop, length-append,
  length-drop, length-take, take-append, drop-append, Bool-cases, inl, inr, ◌≡◌, refl, ap, ◌∙◌,
  arith,
}
use pinetime_dev_tools.Bytes.{Bytes, uint_at, le_value}
use pinetime_dev_tools.Gatt.Frame.{
  Frame, response, notification, Found, incomplete, oversized, frame, cut_sized, cut_frame,
  next_frame, notification_mark,
}

-- A field inside the buffer is read alike when bytes are added behind.
uint_at-append :
    (w o : ℕ) (bs ys : Bytes) → o + w ≤ length bs → uint_at w o (bs ++ ys) ≡ uint_at w o bs
uint_at-append w o bs ys h =
    ap (λ t. le_value (take w t)) (drop-append o bs ys (omega arith))
    ∙ ap le_value (take-append w (drop o bs) ys (omega (arith, length-drop o bs)))

-- Bytes behind what was found.
abbrev pub Later : Found → Bytes → Found → Type 0
Later incomplete ys g = Unit
Later (oversized n) ys g = g ≡ oversized n
Later (frame f rest) ys g = g ≡ frame f (rest ++ ys)

-- A frame leaves a buffer that is shorter, and its payload is within the limit.
abbrev pub payload : Frame → Bytes
payload (response s bs) = bs
payload (notification c bs) = bs

abbrev pub Shrinks : ℕ → Bytes → Found → Type 0
Shrinks maximum buffer incomplete = Unit
Shrinks maximum buffer (oversized n) = maximum < n
Shrinks maximum buffer (frame f rest) =
    (length rest < length buffer) × (length (payload f) ≤ maximum)

module _ (maximum header_size : ℕ) (make : Bytes → Frame) where
  still_long :
      (n : ℕ) (bs ys : Bytes) → ltb (length bs) n ≡ false → ltb (length (bs ++ ys)) n ≡ false
  still_long n bs ys e = ground (arith, length-append bs ys)

  cut_whole :
      (size : ℕ) (bs ys : Bytes)
      → ltb (length bs) (header_size + size) ≡ false
      → frame
          (make (take size (drop header_size (bs ++ ys))))
          (drop (header_size + size) (bs ++ ys))
        ≡ frame (make (take size (drop header_size bs))) (drop (header_size + size) bs ++ ys)
  cut_whole size bs ys long = cc (
    drop-append (header_size + size) bs ys (ground arith),
    drop-append header_size bs ys (ground arith),
    take-append size (drop header_size bs) ys (ground (arith, length-drop header_size bs)),
  )

  cut_sized-append :
      (size : ℕ) (bs ys : Bytes)
      → Later
          (cut_sized maximum header_size make size bs)
          ys
          (cut_sized maximum header_size make size (bs ++ ys))
  cut_sized-append size bs ys = elim (Bool-cases (ltb maximum size)) [
    | inl big ↦ rw big refl
    | inr small ↦ rw small (elim (Bool-cases (ltb (length bs) (header_size + size))) [
      | inl short ↦ rw short tt
      | inr long ↦ rw (long, still_long (header_size + size) bs ys long) (cut_whole size bs ys long)
    ])
  ]

  cut-append :
      (bs ys : Bytes)
      → 2 ≤ header_size
      → Later
          (cut_frame maximum header_size make bs)
          ys
          (cut_frame maximum header_size make (bs ++ ys))
  cut-append bs ys h = elim (Bool-cases (ltb (length bs) header_size)) [
    | inl short ↦ rw short tt
    | inr long ↦
        rw
          (
            long,
            uint_at-append 2 (header_size - 2) bs ys (ground arith),
            still_long header_size bs ys long,
          )
          (cut_sized-append (uint_at 2 (header_size - 2) bs) bs ys)
  ]

  cut-Shrinks :
      (bs : Bytes)
      → 2 ≤ header_size
      → ((p : Bytes) → payload (make p) ≡ p)
      → Shrinks maximum bs (cut_frame maximum header_size make bs)
  cut-Shrinks bs h e =
      let size = uint_at 2 (header_size - 2) bs in
      ground (
        arith,
        e (take size (drop header_size bs)),
        length-drop (header_size + size) bs,
        length-take size (drop header_size bs),
      )

pub next-Later :
    (maximum : ℕ) (bs ys : Bytes) → Later (next_frame maximum bs) ys (next_frame maximum (bs ++ ys))
unfolding next_frame
next-Later maximum [] ys = tt
next-Later maximum (b ∷ []) ys = elim (Bool-cases (b == notification_mark)) [
  | inl mark ↦ rw mark tt
  | inr other ↦ rw other tt
]
next-Later maximum (b ∷ c ∷ cs) ys = elim (Bool-cases (b == notification_mark)) [
  | inl mark ↦
      rw mark (
        cut-append maximum 4 (notification (uint_at 1 1 (b ∷ c ∷ cs))) (b ∷ c ∷ cs) ys
          (omega arith))
  | inr other ↦ rw other (cut-append maximum 3 (response b) (b ∷ c ∷ cs) ys (omega arith))
]

pub next-Shrinks : (maximum : ℕ) (bs : Bytes) → Shrinks maximum bs (next_frame maximum bs)
unfolding next_frame
next-Shrinks maximum [] = tt
next-Shrinks maximum (b ∷ bs) = elim (Bool-cases (b == notification_mark)) [
  | inl mark ↦ rw mark (
      cut-Shrinks maximum 4 (notification (uint_at 1 1 (b ∷ bs))) (b ∷ bs) (omega arith)
        (λ p. refl))
  | inr other ↦ rw other (cut-Shrinks maximum 3 (response b) (b ∷ bs) (omega arith) (λ p. refl))
]
