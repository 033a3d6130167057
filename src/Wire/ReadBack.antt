-- ===== src/Wire/ReadBack.antt =====
-- What a reader of a record finds at the offsets of the format.
use pinetime_dev_tools.Prelude.{
  ℕ, ◌-◌, ◌≤◌, [], ◌∷◌, ◌++◌, map, Option, none, some, length, replicate, take, drop, length-append,
  length-replicate, append_assoc, append-nil, ◌≡◌, sym, ap, subst, ◌∙◌, arith,
}
use pinetime_dev_tools.Prelude.Int.{pos}
use pinetime_dev_tools.Prelude.Result.{ok}
use pinetime_dev_tools.Bytes.{Bytes, unpack}
use pinetime_dev_tools.Bytes.Layout.{drop_behind, take_front}
use pinetime_dev_tools.Bytes.Struct.{unpack-pack, length-pack}
use pinetime_dev_tools.Utf8.{utf8_encode}
use pinetime_dev_tools.Wire.{
  Date, ScheduleFields, flag, schedule_header, date_fields, encode_schedule_record,
}
use pinetime_dev_tools.Wire.Layout.{EndBytes, ScheduleParts, front, encode-ScheduleParts}

-- The end date, or zeros.
abbrev pub EndReads : Option Date → Bytes → Type 0
EndReads none bs = bs ≡ replicate 4 0
EndReads (some d) bs = map pos (unpack (2 ∷ 1 ∷ 1 ∷ []) bs) ≡ d.year ∷ d.month ∷ d.day ∷ []

pub record ScheduleReads (f : ScheduleFields) (r : Bytes) : Type 0 where
  pub title : Bytes
  pub title_is : utf8_encode f.title ≡ some title
  pub title_fits : length title ≤ 23
  pub size : length r ≡ 43
  pub header_back :
      map pos (unpack (2 ∷ 1 ∷ 1 ∷ 1 ∷ 2 ∷ 1 ∷ 1 ∷ 1 ∷ 1 ∷ []) r)
      ≡ f.identifier
        ∷ f.rule_kind
        ∷ f.hour
        ∷ f.minute
        ∷ f.anchor.year
        ∷ f.anchor.month
        ∷ f.anchor.day
        ∷ f.parameter
        ∷ flag f.enabled
        ∷ []
  pub title_back : take 24 (drop 11 r) ≡ title ++ replicate (24 - length title) 0
  pub modified_back : map pos (unpack (4 ∷ []) (drop 35 r)) ≡ f.last_modified ∷ []
  pub end_back : EndReads f.end_date (drop 39 r)

length-EndBytes : (d : Option Date) (bs : Bytes) → EndBytes d bs → length bs ≡ 4
length-EndBytes none bs h = rw h
length-EndBytes (some d) bs h = length-pack (date_fields d) h

EndBytes-EndReads : (d : Option Date) (bs : Bytes) → EndBytes d bs → EndReads d bs
EndBytes-EndReads none bs h = h
EndBytes-EndReads (some d) bs h =
    subst (λ t. map pos (unpack (2 ∷ 1 ∷ 1 ∷ []) t) ≡ d.year ∷ d.month ∷ d.day ∷ []) (append-nil bs)
      (unpack-pack (date_fields d) [] h)

module _ (f : ScheduleFields) (r : Bytes) (p : ScheduleParts f r) where
  open p use {header, title, modified, end_bytes}

  abbrev padded : Bytes
  padded = title ++ replicate (24 - length title) 0

  abbrev last : Bytes
  last = modified ++ end_bytes

  length-header : length header ≡ 11
  length-header = length-pack (schedule_header f) p.header_is

  length-modified : length modified ≡ 4
  length-modified = length-pack ((4, f.last_modified) ∷ []) p.modified_is

  length-padded : length padded ≡ 24
  length-padded = omega (
    arith,
    p.title_fits,
    length-append title (replicate (24 - length title) 0),
    length-replicate {A = ℕ} (24 - length title) 0,
  )

  length-front : length (front header title) ≡ 35
  length-front = omega (arith, length-append header padded, length-header, length-padded)

  header_first : r ≡ header ++ (padded ++ last)
  header_first = p.joined ∙ append_assoc header padded last

  length-record : length r ≡ 43
  length-record =
      ap length p.joined
      ∙ omega (
        arith,
        length-append (front header title) last,
        length-front,
        length-append modified end_bytes,
        length-modified,
        length-EndBytes f.end_date end_bytes p.end_is,
      )

  behind_front : drop 35 r ≡ last
  behind_front = ap (drop 35) p.joined ∙ drop_behind 35 (front header title) last length-front

  behind_modified : drop 39 r ≡ end_bytes
  behind_modified =
      ap (drop 39) (p.joined ∙ sym (append_assoc (front header title) modified end_bytes))
      ∙ drop_behind 39 (front header title ++ modified) end_bytes (
          omega (arith, length-append (front header title) modified, length-front, length-modified))

  title_bytes_back : take 24 (drop 11 r) ≡ padded
  title_bytes_back =
      ap (λ t. take 24 (drop 11 t)) header_first
      ∙ ap (take 24) (drop_behind 11 header (padded ++ last) length-header)
      ∙ take_front 24 padded last length-padded

  ScheduleParts-ScheduleReads : ScheduleReads f r
  ScheduleParts-ScheduleReads = record {
    title = title;
    title_is = p.title_is;
    title_fits = p.title_fits;
    size = length-record;
    header_back = rw header_first (unpack-pack (schedule_header f) (padded ++ last) p.header_is);
    title_back = title_bytes_back;
    modified_back =
        rw behind_front (unpack-pack ((4, f.last_modified) ∷ []) end_bytes p.modified_is);
    end_back = rw behind_modified (EndBytes-EndReads f.end_date end_bytes p.end_is);
  }

-- Whenever the schedule encoder returns, the record is 43 bytes long; the nine header fields are
-- read back from offset 0, the title with zeros up to 24 bytes from 11, the time of the last change
-- from 35, and from 39 the end date, or four zeros where there is none.
pub encode_schedule-ScheduleReads :
    (f : ScheduleFields) (r : Bytes) → encode_schedule_record f ≡ ok r → ScheduleReads f r
encode_schedule-ScheduleReads f r h = ScheduleParts-ScheduleReads f r (encode-ScheduleParts f h)
