-- ===== src/Control/Response.antt =====
-- `parse_control_line` and `coerce_control_values` of src/ptlab/control.py. Text is the list of its
-- code points. `str.split()` cuts at Unicode's white space, of which the code points are listed.
pub mod Printed
use mathlib.Core.Option
use pinetime_dev_tools.Prelude.{
  ℕ, zero, suc, ◌+◌, ◌*◌, ◌-◌, List, [], ◌∷◌, ◌++◌, map, Option, none, some, Bool, true, false, not,
  ◌&&◌, ◌||◌, leb, ◌==◌, if◌then◌else◌, any,
}
use pinetime_dev_tools.Prelude.Int.{ℤ, pos, negsuc}
use pinetime_dev_tools.Prelude.Result.{Result, ok, err, ◌>>=◌}
use pinetime_dev_tools.Prelude.Texts.{Text, codes}

-- The ControlProtocolErrors, and the IndexError of a line that holds only white space.
pub data ResponseError : Type 0 where
  invalid_line no_fields lacks_prefix invalid_field : ResponseError

abbrev pub is_space : ℕ → Bool
is_space c =
    (leb 0x09 c && leb c 0x0d)
    || (leb 0x1c c && leb c 0x20)
    || c == 0x85
    || c == 0xa0
    || c == 0x1680
    || (leb 0x2000 c && leb c 0x200a)
    || c == 0x2028
    || c == 0x2029
    || c == 0x202f
    || c == 0x205f
    || c == 0x3000

abbrev is_break : ℕ → Bool
is_break c = c == b'\n' || c == b'\r'

abbrev pub same_text : Text → Text → Bool
same_text [] [] = true
same_text [] (d ∷ ds) = false
same_text (c ∷ cs) [] = false
same_text (c ∷ cs) (d ∷ ds) = c == d && same_text cs ds

-- A word that was collected, unless it is empty.
abbrev pub add_word : Text → List Text → List Text
add_word [] ws = ws
add_word (c ∷ cs) ws = (c ∷ cs) ∷ ws

-- `word` is what was collected of the word that the position is in.
unfoldable pub split_from : Text → Text → List Text
split_from word [] = add_word word []
split_from word (c ∷ cs) =
    if is_space c then add_word word (split_from [] cs) else split_from (word ++ c ∷ []) cs

-- line.split()
abbrev pub split_words : Text → List Text
split_words line = split_from [] line

-- field.split("=", 1), where there is an "=".
unfoldable pub split_pair : Text → Option (Text × Text)
split_pair [] = none
split_pair (c ∷ cs) =
    if c == b'='
    then some ([], cs)
    else Option.map (λ (key, value). (c ∷ key, value)) (split_pair cs)

abbrev pub Values : Type 0
Values = List (Text × Text)

abbrev pub has_key : Text → Values → Bool
has_key key values = any (λ (k, v). same_text k key) values

abbrev pub is_empty : Text → Bool
is_empty [] = true
is_empty (c ∷ cs) = false

-- The loop over fields[1:].
unfoldable pub parse_fields :
    List Text → List Text → Values → Result ResponseError (List Text × Values)
unfolding split_pair
parse_fields [] message values = ok (message, values)
parse_fields (field ∷ fields) message values = elim (split_pair field) [
  | none ↦ parse_fields fields (message ++ field ∷ []) values
  | some (key, value) ↦
      let rest = parse_fields fields message (values ++ (key, value) ∷ []) in
      if is_empty key || has_key key values then err invalid_field else rest
]

abbrev space : ℕ
space = b' '

-- " ".join(message)
unfoldable pub join_words : List Text → Text
join_words [] = []
join_words (w ∷ []) = w
join_words (w ∷ v ∷ vs) = w ++ space ∷ join_words (v ∷ vs)

abbrev pub ok_word : Text
ok_word = b'O' ∷ b'K' ∷ []

abbrev pub err_word : Text
err_word = b'E' ∷ b'R' ∷ b'R' ∷ []

pub record Reply : Type 0 where
  pub is_ok : Bool
  pub message : Text
  pub values : Values

abbrev pub parse_words : List Text → Result ResponseError Reply
parse_words [] = err no_fields
parse_words (prefix ∷ fields) =
    if same_text prefix ok_word || same_text prefix err_word
    then (parse_fields fields [] [] >>= λ (message, values). ok (record {
      is_ok = same_text prefix ok_word;
      message = join_words message;
      values = values;
    }))
    else err lacks_prefix

unfoldable pub parse_control_line : Text → Result ResponseError Reply
unfolding parse_fields split_from split_pair join_words
parse_control_line line =
    if is_empty line || any is_break line then err invalid_line else parse_words (split_words line)

pub data Value : Type 0 where
  number : ℤ → Value
  text : Text → Value
  texts : List Text → Value

-- value.split(",")
unfoldable pub split_commas : Text → Text → List Text
split_commas item [] = item ∷ []
split_commas item (c ∷ cs) =
    if c == b',' then item ∷ split_commas [] cs else split_commas (item ++ c ∷ []) cs

abbrev retained : Text
retained = codes "retained"

-- The values hold no white space. `digit` is Unicode's table of the decimal digits.
module _ (digit : ℕ → Option ℕ) where
  -- The digits behind a first one, of which `n` is the value so far: an underscore may stand
  -- between two digits.
  unfoldable pub digits_from : ℕ → Text → Option ℕ
  digits_from n [] = some n
  digits_from n (c ∷ []) = Option.map (λ d. n * 10 + d) (digit c)
  digits_from n (c ∷ d ∷ cs) = elim (digit c) [
    | some v ↦ digits_from (n * 10 + v) (d ∷ cs)
    | none ↦
        let rest = Option.bind (digit d) (λ v. digits_from (n * 10 + v) cs) in
        if c == b'_' then rest else none
  ]

  unfoldable pub parse_digits : Text → Option ℕ
  unfolding digits_from
  parse_digits [] = none
  parse_digits (c ∷ cs) = Option.bind (digit c) (λ n. digits_from n cs)

  abbrev negated : ℕ → ℤ
  negated zero = pos zero
  negated (suc n) = negsuc n

  -- int(value, 10); `none` is its ValueError.
  abbrev pub parse_int : Text → Option ℤ
  parse_int [] = none
  parse_int (c ∷ cs) =
      if c == b'-'
      then Option.map negated (parse_digits cs)
      else if c == b'+'
      then Option.map pos (parse_digits cs)
      else Option.map pos (parse_digits (c ∷ cs))

  abbrev number_or_text : Text → Option ℤ → Value
  number_or_text value none = text value
  number_or_text value (some z) = number z

  abbrev retained_of : Text → Value
  retained_of [] = texts []
  retained_of (c ∷ cs) = texts (split_commas [] (c ∷ cs))

  abbrev pub coerce_value : Text × Text → Text × Value
  coerce_value (key, value) = (
    key,
    if same_text key retained then retained_of value else number_or_text value (parse_int value),
  )

  abbrev pub coerce_control_values : Values → List (Text × Value)
  coerce_control_values values = map coerce_value values
