-- ===== src/Control/Lines/Stream.antt =====
-- What the line parser makes of a stream of lines, and what every call of it leaves.
use pinetime_dev_tools.Prelude.{
  ℕ, zero, suc, ◌+◌, ◌<◌, ◌≤◌, List, [], ◌∷◌, ◌++◌, Option, none, some, true, ltb, if◌then◌else◌,
  length, take, drop, take-append_self, length-append, length-drop, append_assoc, append-nil, All,
  All-append, Bool-cases, inl, inr, ◌≡◌, ◌≢◌, ◌⊎◌, sym, subst, refl, ap, ◌∙◌, arith,
}
use pinetime_dev_tools.Prelude.Result.{Result, ok, err}
use pinetime_dev_tools.Prelude.Texts.{Text}
use pinetime_dev_tools.Bytes.{Bytes}
use pinetime_dev_tools.Utf8.{utf8_decode, utf8_encode}
use pinetime_dev_tools.Utf8.RoundTrip.{utf8_decode-encode}
use pinetime_dev_tools.Control.Lines.{
  LineError, line_too_long, not_utf8, LineParser, find_newline, strip_return, add_line, LineOutcome,
  on_text, feed_loop, feed,
}
use pinetime_dev_tools.Control.Lines.Rounds.{
  find_newline-line, round, loop-round, strip_return-return, drop-line, find_newline-splits,
}

-- A line with the bytes in front of its line feed: they encode it, perhaps with a carriage return
-- behind, and are at most `maximum`.
abbrev pub IsLine : ℕ → Text × Bytes → Type 0
IsLine maximum (line, bs) =
    (body : Bytes) × (utf8_encode line ≡ some body)
    × (find_newline bs ≡ none)
    × (((bs ≡ body) × (strip_return body ≡ body)) ⊎ (bs ≡ body ++ b'\r' ∷ []))
    × (length bs ≤ maximum)

abbrev pub stream : List (Text × Bytes) → Bytes
stream [] = []
stream ((line, bs) ∷ ls) = bs ++ b'\n' ∷ stream ls

-- An empty line is left out.
abbrev pub unless_empty : Text → List Text
unless_empty [] = []
unless_empty (c ∷ cs) = (c ∷ cs) ∷ []

abbrev pub texts_of : List (Text × Bytes) → List Text
texts_of [] = []
texts_of ((line, bs) ∷ ls) = unless_empty line ++ texts_of ls

-- What may come behind a piece without a line feed: nothing, or, if the piece is longer than a line
-- may be, a line feed and more.
abbrev pub IsBehind : ℕ → Bytes → Bytes → Type 0
IsBehind maximum tail rest =
    (rest ≡ []) ⊎ ((more : Bytes) × (maximum < length tail) × (rest ≡ b'\n' ∷ more))

line_text :
    (maximum : ℕ) (line : Text) (bs : Bytes)
    → IsLine maximum (line, bs)
    → utf8_decode (strip_return bs) ≡ some line
line_text maximum line bs (body, encodes, one, inl (same, bare), fits) =
    ap (λ l. utf8_decode (strip_return l)) same
    ∙ ap utf8_decode bare
    ∙ utf8_decode-encode line body encodes
line_text maximum line bs (body, encodes, one, inr returned, fits) =
    ap (λ l. utf8_decode (strip_return l)) returned
    ∙ ap utf8_decode (strip_return-return body)
    ∙ utf8_decode-encode line body encodes

add_line-append : (acc : List Text) (line : Text) → add_line acc line ≡ acc ++ unless_empty line
add_line-append acc [] = sym (append-nil acc)
add_line-append acc (c ∷ cs) = refl

-- The round that takes a line off.
round-line :
    (maximum : ℕ) (line : Text) (bs rest : Bytes) (acc : List Text)
    (k : Bytes → List Text → LineOutcome)
    → IsLine maximum (line, bs)
    → round maximum (bs ++ b'\n' ∷ rest) acc (some (length bs)) k
      ≡ k rest (acc ++ unless_empty line)
round-line maximum line bs rest acc k h =
    let (body, encodes, one, ending, fits) = h in
    elim (Bool-cases (ltb maximum (length bs))) [
      | inl long ↦ absurd (ground arith)
      | inr short ↦
          rw (short, take-append_self bs (b'\n' ∷ rest), drop-line bs rest b'\n')
            (rw (line_text maximum line bs h) (ap (k rest) (add_line-append acc line)))
    ]

-- The lines are taken off, with fuel left for what is behind them.
loop-lines :
    (fuel maximum : ℕ) (ls : List (Text × Bytes)) (tail : Bytes) (acc : List Text)
    → length (stream ls ++ tail) < fuel
    → All (IsLine maximum) ls
    → (left : ℕ) × (length tail ≤ left)
      × (feed_loop fuel maximum (stream ls ++ tail) acc
          ≡ feed_loop (suc left) maximum tail (acc ++ texts_of ls))
loop-lines zero maximum ls tail acc less h = absurd (omega arith)
loop-lines (suc fuel) maximum [] tail acc less h =
    (fuel, omega arith, ap (feed_loop (suc fuel) maximum tail) (sym (append-nil acc)))
loop-lines (suc fuel) maximum ((line, bs) ∷ ls) tail acc less (h, hs) =
    let rest = stream ls ++ tail in
    let cut : (bs ++ b'\n' ∷ stream ls) ++ tail ≡ bs ++ b'\n' ∷ rest =
      append_assoc bs (b'\n' ∷ stream ls) tail in
    let shorter : length rest < fuel =
      omega (arith, ap length cut, length-append bs (b'\n' ∷ rest)) in
    let (left, enough, behind) =
      loop-lines fuel maximum ls tail (acc ++ unless_empty line) shorter hs in
    (
      left,
      enough,
      ap (λ t. feed_loop (suc fuel) maximum t acc) cut
          ∙ loop-round fuel maximum (bs ++ b'\n' ∷ rest) acc
          ∙ ap (λ o. round maximum (bs ++ b'\n' ∷ rest) acc o (feed_loop fuel maximum))
              (find_newline-line bs rest h.2)
          ∙ round-line maximum line bs rest acc (feed_loop fuel maximum) h
          ∙ behind
          ∙ ap (feed_loop (suc left) maximum tail)
              (append_assoc acc (unless_empty line) (texts_of ls)),
    )

-- How the loop ends on a piece without a line feed.
abbrev pub ended : ℕ → List Text → Bytes → LineOutcome
ended maximum lines tail =
    if ltb maximum (length tail) then (err line_too_long, []) else (ok lines, tail)

loop-tail :
    (fuel maximum : ℕ) (tail rest : Bytes) (lines : List Text)
    → find_newline tail ≡ none
    → IsBehind maximum tail rest
    → feed_loop (suc fuel) maximum (tail ++ rest) lines ≡ ended maximum lines tail
loop-tail fuel maximum tail rest lines none_left (inl nothing) =
    ap (λ r. feed_loop (suc fuel) maximum (tail ++ r) lines) nothing
    ∙ ap (λ l. feed_loop (suc fuel) maximum l lines) (append-nil tail)
    ∙ loop-round fuel maximum tail lines
    ∙ ap (λ o. round maximum tail lines o (feed_loop fuel maximum)) none_left
loop-tail fuel maximum tail rest lines none_left (inr (more, long, newline)) =
    let too_long : ltb maximum (length tail) ≡ true = ground arith in
    ap (λ r. feed_loop (suc fuel) maximum (tail ++ r) lines) newline
    ∙ loop-round fuel maximum (tail ++ b'\n' ∷ more) lines
    ∙ ap (λ o. round maximum (tail ++ b'\n' ∷ more) lines o (feed_loop fuel maximum))
        (find_newline-line tail more none_left)
    ∙ rw too_long refl

-- When the bytes that were left and those that come are lines that may be empty, each at most as
-- long as a line may be and ended by a line feed or a carriage return and a line feed, and then a
-- piece without a line feed: if the piece is not longer than a line may be and ends the bytes,
-- `feed` returns the lines that are not empty in their order and keeps the piece; if it is longer,
-- whether a line feed follows or nothing, `feed` raises for it and empties the buffer.
pub feed-lines :
    (ls : List (Text × Bytes)) (tail rest bs : Bytes) (p : LineParser)
    → All (IsLine p.maximum_line) ls
    → find_newline tail ≡ none
    → IsBehind p.maximum_line tail rest
    → p.buffer ++ bs ≡ stream ls ++ (tail ++ rest)
    → feed bs p ≡ (
        if ltb p.maximum_line (length tail)
        then (err line_too_long, record p { buffer = [] })
        else (ok (texts_of ls), record p { buffer = tail }))
unfolding feed
feed-lines ls tail rest bs p h none_left behind e =
    let whole = stream ls ++ (tail ++ rest) in
    let (left, enough, taken) =
      loop-lines (suc (length whole)) p.maximum_line ls (tail ++ rest) [] (omega arith) h in
    ap (λ t. settle (feed_loop (suc (length t)) p.maximum_line t [])) e
    ∙ ap settle (taken ∙ loop-tail left p.maximum_line tail rest (texts_of ls) none_left behind)
    ∙ settled
  where
    settle : LineOutcome → Result LineError (List Text) × LineParser
    settle o = (o.0, record p { buffer = o.1 })

    settled : settle (ended p.maximum_line (texts_of ls) tail) ≡ (
        if ltb p.maximum_line (length tail)
        then (err line_too_long, record p { buffer = [] })
        else (ok (texts_of ls), record p { buffer = tail }))
    settled = elim (Bool-cases (ltb p.maximum_line (length tail))) [
      | inl long ↦ rw long refl
      | inr short ↦ rw short refl
    ]

-- A line that was taken off the bytes, and whose own bytes are no UTF-8.
pub record Undecoded (maximum : ℕ) (whole left : Bytes) : Type 0 where
  pub front : Bytes
  pub line : Bytes
  pub cut : whole ≡ front ++ (line ++ b'\n' ∷ left)
  pub one : find_newline line ≡ none
  pub fits : length line ≤ maximum
  pub undecodable : utf8_decode (strip_return line) ≡ none

-- What a call of `feed` leaves of the bytes `whole` that it has: no line feed and no more than a
-- line may have, or with each error the bytes that it says.
abbrev pub Settled : ℕ → Bytes → LineOutcome → Type 0
Settled maximum whole (ok lines, left) =
    (find_newline left ≡ none) × (length left ≤ maximum) × All (λ line. line ≢ []) lines
Settled maximum whole (err line_too_long, left) = left ≡ []
Settled maximum whole (err not_utf8, left) = Undecoded maximum whole left

add_line-given :
    (acc : List Text) (line : Text) → All (λ l. l ≢ []) acc → All (λ l. l ≢ []) (add_line acc line)
add_line-given acc [] h = h
add_line-given acc (c ∷ cs) h = All-append (λ l. l ≢ []) acc ((c ∷ cs) ∷ []) h ((λ e. cc), tt)

loop-Settled :
    (fuel maximum : ℕ) (front b : Bytes) (acc : List Text)
    → length b < fuel
    → All (λ l. l ≢ []) acc
    → Settled maximum (front ++ b) (feed_loop fuel maximum b acc)
loop-Settled zero maximum front b acc less h = absurd (omega arith)
loop-Settled (suc fuel) maximum front b acc less h = rw loop-round (
    go (find_newline b) refl (λ line gone left cut shorter.
      subst (λ whole. Settled maximum whole (feed_loop fuel maximum left (add_line acc line)))
        (append_assoc front gone left ∙ ap (λ l. front ++ l) (sym cut))
        (loop-Settled fuel maximum (front ++ gone) left (add_line acc line) shorter
          (add_line-given acc line h))))
  where
    on_line :
        (o : Option Text) (line left : Bytes)
        → utf8_decode (strip_return line) ≡ o
        → b ≡ line ++ b'\n' ∷ left
        → find_newline line ≡ none
        → length line ≤ maximum
        → ((text : Text)
            → Settled maximum (front ++ b) (feed_loop fuel maximum left (add_line acc text)))
        → Settled maximum
            (front ++ b)
            (on_text o left (λ text. feed_loop fuel maximum left (add_line acc text)))
    on_line none line left e cut one fits again = record {
      front = front;
      line = line;
      cut = ap (λ l. front ++ l) cut;
      one = one;
      fits = fits;
      undecodable = e;
    }
    on_line (some text) line left e cut one fits again = again text

    go :
        (o : Option ℕ)
        → find_newline b ≡ o
        → ((line : Text) (gone left : Bytes)
            → b ≡ gone ++ left
            → length left < fuel
            → Settled maximum (front ++ b) (feed_loop fuel maximum left (add_line acc line)))
        → Settled maximum (front ++ b) (round maximum b acc o (feed_loop fuel maximum))
    go none e again = elim (Bool-cases (ltb maximum (length b))) [
      | inl long ↦ rw long refl
      | inr short ↦ rw short (e, ground arith, h)
    ]
    go (some n) e again =
        let (split, one, short_line, less_than) = find_newline-splits b n e in
        let line = take n b in
        let left = drop (n + 1) b in
        let behind : suc n ≡ n + 1 = omega arith in
        let cut : b ≡ line ++ b'\n' ∷ left = split ∙ ap (λ k. line ++ b'\n' ∷ drop k b) behind in
        let pieces : b ≡ (line ++ b'\n' ∷ []) ++ left =
          cut ∙ sym (append_assoc line (b'\n' ∷ []) left) in
        elim (Bool-cases (ltb maximum n)) [
          | inl long ↦ rw long refl
          | inr short ↦ rw short (
              on_line (utf8_decode (strip_return line)) line left refl cut one (ground arith)
                (λ text.
                  again text (line ++ b'\n' ∷ []) left pieces
                    (omega (arith, length-drop (n + 1) b))))
        ]

-- After `feed`, the buffer holds no line feed and at most as many bytes as a line may have, and no
-- line that was returned is empty; or a line was too long, and the buffer is empty; or a line that
-- is not too long is not UTF-8, and the buffer holds just the bytes that came behind its line feed.
pub feed-Settled :
    (bs : Bytes) (p : LineParser)
    → Settled p.maximum_line (p.buffer ++ bs) ((feed bs p).0, (feed bs p).1.buffer)
unfolding feed
feed-Settled bs p =
    loop-Settled (suc (length (p.buffer ++ bs))) p.maximum_line [] (p.buffer ++ bs) [] (omega arith)
      tt
