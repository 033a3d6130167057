-- ===== src/Wire/Task.antt =====
-- The task record: its layout, and the assertion that guards it.
use pinetime_dev_tools.Prelude.{
  ℕ, ◌-◌, ◌≤◌, [], ◌∷◌, ◌++◌, map, Option, none, some, length, replicate, take, drop, not, ltb,
  ◌==◌, Bool, true, false, length-append, length-replicate, append_assoc, append-nil, ◌≡◌, ◌≢◌,
  refl, sym, ap, ◌∙◌, arith,
}
use pinetime_dev_tools.Prelude.Int.{pos, between}
use pinetime_dev_tools.Prelude.Result.{Result, ok, err, require, ◌>>=◌, ◌>>◌}
use pinetime_dev_tools.Bytes.{Bytes, pack, unpack}
use pinetime_dev_tools.Bytes.Layout.{drop_behind, take_front}
use pinetime_dev_tools.Bytes.Struct.{unpack-pack, length-pack}
use pinetime_dev_tools.Utf8.{utf8_encode}
use pinetime_dev_tools.Wire.{
  WireError, identifier_range, order_range, not_utf8, title_too_long, struct_error, layout_drifted,
  TaskFields, from_option, task_head, task_last, task_bytes, encode_task_record,
}
use pinetime_dev_tools.Wire.Layout.{fits_of}

abbrev padded : Bytes → Bytes
padded title = title ++ replicate (24 - length title) 0

length-padded : (title : Bytes) → length title ≤ 23 → length (padded title) ≡ 24
length-padded title h = omega (
  arith,
  length-append title (replicate (24 - length title) 0),
  length-replicate {A = ℕ} (24 - length title) 0,
)

length-task_bytes :
    (f : TaskFields) (title head last : Bytes)
    → length title ≤ 23
    → pack (task_head f) ≡ some head
    → pack (task_last f) ≡ some last
    → length (head ++ (padded title ++ last)) ≡ 31
length-task_bytes f title head last fits ph pl = omega (
  arith,
  length-append head (padded title ++ last),
  length-append (padded title) last,
  length-padded title fits,
  length-pack (task_head f) ph,
  length-pack (task_last f) pl,
)

pub record TaskReads (f : TaskFields) (r : Bytes) : Type 0 where
  pub title : Bytes
  pub title_is : utf8_encode f.title ≡ some title
  pub title_fits : length title ≤ 23
  pub size : length r ≡ 31
  pub head_back : map pos (unpack (2 ∷ 1 ∷ []) r) ≡ f.identifier ∷ f.order ∷ []
  pub title_back : take 24 (drop 3 r) ≡ title ++ replicate (24 - length title) 0
  pub modified_back : map pos (unpack (4 ∷ []) (drop 27 r)) ≡ f.last_modified ∷ []

module _ (f : TaskFields) (title head last : Bytes) (ut : utf8_encode f.title ≡ some title)
    (fits : length title ≤ 23) (ph : pack (task_head f) ≡ some head)
    (pl : pack (task_last f) ≡ some last) where
  abbrev whole : Bytes
  whole = head ++ (padded title ++ last)

  title_bytes_back : take 24 (drop 3 whole) ≡ padded title
  title_bytes_back =
      ap (take 24) (drop_behind 3 head (padded title ++ last) (length-pack (task_head f) ph))
      ∙ take_front 24 (padded title) last (length-padded title fits)

  behind_title : drop 27 whole ≡ last
  behind_title =
      ap (drop 27) (sym (append_assoc head (padded title) last))
      ∙ drop_behind 27 (head ++ padded title) last (
          omega (
            arith,
            length-append head (padded title),
            length-pack (task_head f) ph,
            length-padded title fits,
          ))

  whole-TaskReads : TaskReads f whole
  whole-TaskReads = record {
    title = title;
    title_is = ut;
    title_fits = fits;
    size = length-task_bytes f title head last fits ph pl;
    head_back = unpack-pack (task_head f) (padded title ++ last) ph;
    title_back = title_bytes_back;
    modified_back = rw behind_title (rw append-nil at (unpack-pack (task_last f) [] pl));
  }

-- What `task_bytes` returns, or the error that `struct` raised.
abbrev pub TaskOutcome : TaskFields → Result WireError Bytes → Type 0
TaskOutcome f (ok r) = TaskReads f r
TaskOutcome f (err e) = e ≢ layout_drifted

task_bytes-TaskOutcome :
    (f : TaskFields) (title : Bytes)
    → utf8_encode f.title ≡ some title
    → length title ≤ 23
    → TaskOutcome f (task_bytes f title)
unfolding task_bytes
task_bytes-TaskOutcome f title ut fits = go (pack (task_head f)) (pack (task_last f)) refl refl
  where
    go :
        (head last : Option Bytes)
        → pack (task_head f) ≡ head
        → pack (task_last f) ≡ last
        → TaskOutcome f (do
          h ← from_option struct_error head
          l ← from_option struct_error last
          let bs = h ++ (padded title ++ l)
          require (length bs == 31) layout_drifted
          ok bs)
    go none last p q = cc
    go (some head) none p q = cc
    go (some head) (some last) p q =
        rw (length-task_bytes f title head last fits p q)
          (whole-TaskReads f title head last ut fits p q)

module _ (f : TaskFields) where
  after_require :
      (b : Bool) (e : WireError) (k : Result WireError Bytes)
      → e ≢ layout_drifted
      → (b ≡ true → TaskOutcome f k)
      → TaskOutcome f (require b e >> k)
  after_require true e k ne h = h refl
  after_require false e k ne h = ne

  after_option :
      (o : Option Bytes) (k : Bytes → Result WireError Bytes)
      → ((bs : Bytes) → o ≡ some bs → TaskOutcome f (k bs))
      → TaskOutcome f (from_option not_utf8 o >>= k)
  after_option none k h = cc
  after_option (some bs) k h = h bs refl

-- The task encoder never raises its AssertionError. Whenever it returns, the record is 31 bytes
-- long; the identifier and the order are read back from offset 0, the title with zeros up to 24
-- bytes from 3, and the time of the last change from 27.
pub encode_task-TaskOutcome : (f : TaskFields) → TaskOutcome f (encode_task_record f)
unfolding encode_task_record
encode_task-TaskOutcome f =
    after_require f (between 0 0xffff f.identifier) identifier_range _ (cc) λ _.
      after_require f (between 0 0xff f.order) order_range _ (cc) λ _.
        after_option f (utf8_encode f.title) _ λ title ut.
          after_require f (not (ltb 23 (length title))) title_too_long _ (cc)
            λ fits. task_bytes-TaskOutcome f title ut (fits_of (length title) fits)
