-- ===== src/Control/Response/Printed.antt =====
-- A response line that is put together out of words is taken apart into them again.
use pinetime_dev_tools.Prelude.{
  ℕ, List, [], ◌∷◌, ◌++◌, map, Option, none, some, Bool, true, false, ◌||◌, ◌==◌, if◌then◌else◌,
  any, All, All-append, append_assoc, append-nil, ◌≡◌, refl, sym, ap, ap₂, ◌∙◌, arith,
}
use pinetime_dev_tools.Prelude.Result.{Result, ok, err}
use pinetime_dev_tools.Prelude.Texts.{Text}
use pinetime_dev_tools.Control.Response.{
  ResponseError, is_space, add_word, split_from, split_words, split_pair, Values, has_key, is_empty,
  invalid_field, parse_fields, join_words, ok_word, err_word, parse_words, parse_control_line,
}

-- A character that is no white space.
abbrev pub IsInk : ℕ → Type 0
IsInk c = is_space c ≡ false

-- A word: not empty, and without white space.
abbrev pub IsWord : Text → Type 0
IsWord [] = ⊥
IsWord (c ∷ cs) = IsInk c × All IsInk cs

module _ (rest : Text) where
  split_from-ink :
      (word more : Text)
      → All IsInk more
      → split_from word (more ++ rest) ≡ split_from (word ++ more) rest
  unfolding split_from
  split_from-ink word [] h = ap (λ w. split_from w rest) (sym (append-nil word))
  split_from-ink word (c ∷ cs) (h, hs) =
      step
      ∙ split_from-ink (word ++ c ∷ []) cs hs
      ∙ ap (λ w. split_from w rest) (append_assoc word (c ∷ []) cs)
    where
      step : split_from word (c ∷ (cs ++ rest)) ≡ split_from (word ++ c ∷ []) (cs ++ rest)
      step = rw h refl

add_word-IsWord : (w : Text) (ws : List Text) → IsWord w → add_word w ws ≡ w ∷ ws
add_word-IsWord [] ws h = absurd h
add_word-IsWord (c ∷ cs) ws h = refl

word-IsInk : (w : Text) → IsWord w → All IsInk w
word-IsInk [] h = absurd h
word-IsInk (c ∷ cs) h = h

-- Words that are joined by single spaces are split into the same words.
split-join : (ws : List Text) → All IsWord ws → split_words (join_words ws) ≡ ws
unfolding join_words split_from
split-join [] h = refl
split-join (w ∷ []) (h, hs) =
    ap (split_from []) (sym (append-nil w))
    ∙ split_from-ink [] [] w (word-IsInk w h)
    ∙ add_word-IsWord w [] h
split-join (w ∷ v ∷ vs) (h, hs) =
    split_from-ink (b' ' ∷ join_words (v ∷ vs)) [] w (word-IsInk w h)
    ∙ add_word-IsWord w (split_from [] (join_words (v ∷ vs))) h
    ∙ ap (◌∷◌ w) (split-join (v ∷ vs) hs)

abbrev pub IsPlain : Text → Type 0
IsPlain w = All (λ c. (c == b'=') ≡ false) w

abbrev pub pair_text : Text × Text → Text
pair_text (key, value) = key ++ b'=' ∷ value

split_pair-none : (w : Text) → IsPlain w → split_pair w ≡ none
unfolding split_pair
split_pair-none [] h = refl
split_pair-none (c ∷ cs) (h, hs) = rw (h, split_pair-none cs hs) refl

split_pair-pair : (k v : Text) → IsPlain k → split_pair (k ++ b'=' ∷ v) ≡ some (k, v)
unfolding split_pair
split_pair-pair [] v h = refl
split_pair-pair (c ∷ cs) v (h, hs) = rw (h, split_pair-pair cs v hs) refl

abbrev pub IsMessageWord : Text → Type 0
IsMessageWord w = IsWord w × IsPlain w

-- A key is a word without "=", and a value has no white space.
abbrev pub IsPair : Text × Text → Type 0
IsPair (key, value) = IsMessageWord key × All IsInk value

-- No key is among those before it.
abbrev pub AreNew : Values → Values → Type 0
AreNew before [] = Unit
AreNew before ((key, value) ∷ values) =
    (has_key key before ≡ false) × AreNew (before ++ (key, value) ∷ []) values

-- One round of the loop over the fields.
abbrev field_step :
    Option (Text × Text)
    → Text
    → List Text
    → List Text
    → Values
    → Result ResponseError (List Text × Values)
field_step o field fields message values = elim o [
  | none ↦ parse_fields fields (message ++ field ∷ []) values
  | some (key, value) ↦
      let rest = parse_fields fields message (values ++ (key, value) ∷ []) in
      if is_empty key || has_key key values then err invalid_field else rest
]

fields-message :
    (m fs message : List Text) (values : Values)
    → All IsMessageWord m
    → parse_fields (m ++ fs) message values ≡ parse_fields fs (message ++ m) values
unfolding parse_fields
fields-message [] fs message values h =
    ap (λ t. parse_fields fs t values) (sym (append-nil message))
fields-message (w ∷ ws) fs message values ((h, p), hs) =
    step
    ∙ fields-message ws fs (message ++ w ∷ []) values hs
    ∙ ap (λ t. parse_fields fs t values) (append_assoc message (w ∷ []) ws)
  where
    step :
        parse_fields (w ∷ (ws ++ fs)) message values
        ≡ parse_fields (ws ++ fs) (message ++ w ∷ []) values
    step = ap (λ o. field_step o w (ws ++ fs) message values) (split_pair-none w p)

fields-values :
    (vs : Values) (message : List Text) (before : Values)
    → All IsPair vs
    → AreNew before vs
    → parse_fields (map pair_text vs) message before ≡ ok (message, before ++ vs)
unfolding parse_fields
fields-values [] message before h n = ap (λ t. ok (message, t)) (sym (append-nil before))
fields-values (([], v) ∷ vs) message before (((h, p), i), hs) (n, ns) = absurd h
fields-values ((c ∷ cs, v) ∷ vs) message before (((h, p), i), hs) (n, ns) =
    step
    ∙ fields-values vs message (before ++ (c ∷ cs, v) ∷ []) hs ns
    ∙ ap (λ t. ok (message, t)) (append_assoc before ((c ∷ cs, v) ∷ []) vs)
  where
    step :
        parse_fields (map pair_text ((c ∷ cs, v) ∷ vs)) message before
        ≡ parse_fields (map pair_text vs) message (before ++ (c ∷ cs, v) ∷ [])
    step =
        ap (λ o. field_step o (pair_text (c ∷ cs, v)) (map pair_text vs) message before)
          (split_pair-pair (c ∷ cs) v p)
        ∙ rw n refl

pair-IsWord : (kv : Text × Text) → IsPair kv → IsWord (pair_text kv)
pair-IsWord ([], v) ((h, p), i) = absurd h
pair-IsWord (c ∷ cs, v) (((h, hs), p), i) = (h, All-append IsInk cs (b'=' ∷ v) hs (refl, i))

words_of-message : (m : List Text) → All IsMessageWord m → All IsWord m
words_of-message [] h = tt
words_of-message (w ∷ ws) ((h, p), hs) = (h, words_of-message ws hs)

words_of-pairs : (vs : Values) → All IsPair vs → All IsWord (map pair_text vs)
words_of-pairs [] h = tt
words_of-pairs (kv ∷ vs) (h, hs) = (pair-IsWord kv h, words_of-pairs vs hs)

-- Neither a line feed nor a carriage return.
abbrev IsUnbroken : ℕ → Type 0
IsUnbroken c = (c == b'\n' || c == b'\r') ≡ false

ink-IsUnbroken : (w : Text) → All IsInk w → All IsUnbroken w
ink-IsUnbroken [] h = tt
ink-IsUnbroken (c ∷ cs) (h, hs) = (ground arith, ink-IsUnbroken cs hs)

join-IsUnbroken : (ws : List Text) → All IsWord ws → All IsUnbroken (join_words ws)
unfolding join_words
join-IsUnbroken [] h = tt
join-IsUnbroken (w ∷ []) (h, hs) = ink-IsUnbroken w (word-IsInk w h)
join-IsUnbroken (w ∷ v ∷ vs) (h, hs) =
    All-append IsUnbroken w (b' ' ∷ join_words (v ∷ vs)) (ink-IsUnbroken w (word-IsInk w h))
      (refl, join-IsUnbroken (v ∷ vs) hs)

any_break : (t : Text) → All IsUnbroken t → any (λ c. c == b'\n' || c == b'\r') t ≡ false
any_break [] h = refl
any_break (c ∷ cs) (h, hs) = ap₂ ◌||◌ h (any_break cs hs)

abbrev pub prefix_of : Bool → Text
prefix_of true = ok_word
prefix_of false = err_word

prefix-IsWord : (b : Bool) → IsWord (prefix_of b)
prefix-IsWord true = (refl, (refl, tt))
prefix-IsWord false = (refl, (refl, (refl, tt)))

join-prefix : (b : Bool) (ws : List Text) → is_empty (join_words (prefix_of b ∷ ws)) ≡ false
unfolding join_words
join-prefix true [] = refl
join-prefix true (w ∷ ws) = refl
join-prefix false [] = refl
join-prefix false (w ∷ ws) = refl

-- The words of a reply, whose fields are read.
read_words :
    (b : Bool) (ws m : List Text) (vs : Values)
    → parse_fields ws [] [] ≡ ok (m, vs)
    → parse_words (prefix_of b ∷ ws)
      ≡ ok (record { is_ok = b; message = join_words m; values = vs })
read_words true ws m vs h = rw h refl
read_words false ws m vs h = rw h refl

-- A line of the prefix, of message words, and of fields key=value, separated by single spaces, is
-- parsed into just these: whether the prefix was OK, the message, and the fields in their order.
-- The words hold no white space and the message words and keys no "=", no word and no key is
-- empty, and no key comes twice.
pub parse_control_line-printed :
    (b : Bool) (m : List Text) (vs : Values)
    → All IsMessageWord m
    → All IsPair vs
    → AreNew [] vs
    → parse_control_line (join_words (prefix_of b ∷ (m ++ map pair_text vs)))
      ≡ ok (record { is_ok = b; message = join_words m; values = vs })
unfolding parse_control_line
parse_control_line-printed b m vs hm hv n =
    let ws = m ++ map pair_text vs in
    let words : All IsWord (prefix_of b ∷ ws) = (
      prefix-IsWord b,
      All-append IsWord m (map pair_text vs) (words_of-message m hm) (words_of-pairs vs hv),
    ) in
    let fields = fields-message m (map pair_text vs) [] [] hm ∙ fields-values vs m [] hv n in
    rw (any_break (join_words (prefix_of b ∷ ws)) (join-IsUnbroken (prefix_of b ∷ ws) words))
      (rw (split-join (prefix_of b ∷ ws) words, join-prefix b ws) (read_words b ws m vs fields))
