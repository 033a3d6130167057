-- ===== src/Wire/Layout.antt =====
-- Where each field of an encoded record stands.
use pinetime_dev_tools.Prelude.{
  ℕ, ◌+◌, ◌-◌, ◌≤◌, List, [], ◌∷◌, ◌++◌, Option, none, some, not, true, ltb, length, replicate,
  length-append, length-replicate, replicate-append, append_assoc, append-nil, ◌≡◌, refl, subst,
  sym, ap, ◌&&◌, ◌∙◌, arith,
}
use pinetime_dev_tools.Prelude.Int.{ℤ, between}
use pinetime_dev_tools.Prelude.Result.{ok, require, bind-eq-ok, require-eq-ok}
use pinetime_dev_tools.Bytes.{Bytes, pack, overwrite}
use pinetime_dev_tools.Bytes.Layout.{overwrite_at}
use pinetime_dev_tools.Bytes.Struct.{length-pack}
use pinetime_dev_tools.Utf8.{utf8_encode}
use pinetime_dev_tools.Wire.{
  WireError, identifier_range, rule_kind_range, time_invalid, parameter_range, not_utf8,
  title_too_long, Date, ScheduleFields, from_option, schedule_header, date_fields, pack_into,
  pack_end, pack_schedule, encode_schedule_record,
}

abbrev zeros : ℕ → Bytes
zeros n = replicate n 0

abbrev pub EndBytes : Option Date → Bytes → Type 0
EndBytes none bs = bs ≡ zeros 4
EndBytes (some d) bs = pack (date_fields d) ≡ some bs

-- The header and the padded title.
abbrev pub front : Bytes → Bytes → Bytes
front header title = header ++ (title ++ zeros (24 - length title))

-- The bytes that the encoder writes, before they are put together.
pub record ScheduleParts (f : ScheduleFields) (r : Bytes) : Type 0 where
  pub header : Bytes
  pub title : Bytes
  pub modified : Bytes
  pub end_bytes : Bytes
  pub header_is : pack (schedule_header f) ≡ some header
  pub title_is : utf8_encode f.title ≡ some title
  pub title_fits : length title ≤ 23
  pub modified_is : pack ((4, f.last_modified) ∷ []) ≡ some modified
  pub end_is : EndBytes f.end_date end_bytes
  pub joined : r ≡ front header title ++ (modified ++ end_bytes)

pub from_option-eq-ok {ℓ} :
    {A : Type ℓ} (e : WireError) (o : Option A) {a : A} → from_option e o ≡ ok a → o ≡ some a
from_option-eq-ok e (some a) h = cc
from_option-eq-ok e none h = cc

pack_into-eq-ok :
    (fields : List (ℕ × ℤ)) (target : Bytes) (offset : ℕ) {r : Bytes}
    → pack_into fields target offset ≡ ok r
    → (bs : Bytes) × (pack fields ≡ some bs) × (r ≡ overwrite offset bs target)
pack_into-eq-ok fields target offset h =
    let (bs, p, q) = bind-eq-ok (from_option WireError.struct_error (pack fields)) _ h in
    (bs, from_option-eq-ok WireError.struct_error (pack fields) p, cc)

length-zeros : (n : ℕ) → length (zeros n) ≡ n
length-zeros n = length-replicate {A = ℕ} n 0

zeros-append : (k n : ℕ) → zeros k ++ zeros n ≡ zeros (k + n)
zeros-append k n = replicate-append {A = ℕ} k n 0

-- The 32 bytes behind the header, cut where the title, its padding and the two last fields stand.
behind_header : (n : ℕ) → n ≤ 23 → zeros 32 ≡ zeros n ++ (zeros (24 - n) ++ (zeros 4 ++ zeros 4))
behind_header n h =
    ap zeros total_is
    ∙ sym (zeros-append n (24 - n + 8))
    ∙ ap (λ t. zeros n ++ t) (sym (zeros-append (24 - n) 8))
  where
    total_is : 32 ≡ n + (24 - n + 8)
    total_is = omega arith

module _ (header title modified : Bytes) (eh : length header ≡ 11) (et : length title ≤ 23)
    (em : length modified ≡ 4) where
  headed : overwrite 0 header (zeros 43) ≡ header ++ zeros 32
  headed = overwrite_at 0 [] header (zeros 11) (zeros 32) refl eh

  titled : overwrite 11 title (header ++ zeros 32) ≡ front header title ++ (zeros 4 ++ zeros 4)
  titled =
      ap (λ t. overwrite 11 title (header ++ t)) (behind_header (length title) et)
      ∙ overwrite_at 11 header title (zeros (length title)) _ eh (sym (length-zeros (length title)))
      ∙ regroup
    where
      regroup :
          header ++ (title ++ (zeros (24 - length title) ++ (zeros 4 ++ zeros 4)))
          ≡ front header title ++ (zeros 4 ++ zeros 4)
      regroup = simp append_assoc

  length-front : length (front header title) ≡ 35
  length-front = omega (
    arith,
    length-append header (title ++ zeros (24 - length title)),
    length-append title (zeros (24 - length title)),
    length-zeros (24 - length title),
  )

  modified_written :
      overwrite 35 modified (front header title ++ (zeros 4 ++ zeros 4))
      ≡ front header title ++ (modified ++ zeros 4)
  modified_written =
      overwrite_at 35 (front header title) modified (zeros 4) (zeros 4) length-front em

  end_written :
      (bs : Bytes)
      → length bs ≡ 4
      → overwrite 39 bs (front header title ++ (modified ++ zeros 4))
        ≡ front header title ++ (modified ++ bs)
  end_written bs e =
      ap (overwrite 39 bs) regroup
      ∙ overwrite_at 39 (front header title ++ modified) bs (zeros 4) [] length_both e
      ∙ back
    where
      regroup :
          front header title ++ (modified ++ zeros 4)
          ≡ (front header title ++ modified) ++ (zeros 4 ++ [])
      regroup = simp append_assoc

      back : (front header title ++ modified) ++ (bs ++ []) ≡ front header title ++ (modified ++ bs)
      back = simp (append_assoc, append-nil)

      length_both : length (front header title ++ modified) ≡ 39
      length_both = omega (arith, length-append (front header title) modified, length-front)

pub fits_of : (n : ℕ) → not (ltb 23 n) ≡ true → n ≤ 23
fits_of n h = ground arith

end_parts :
    (header title modified : Bytes)
    → length header ≡ 11
    → length title ≤ 23
    → length modified ≡ 4
    → (end_date : Option Date) {r : Bytes}
    → pack_end end_date (front header title ++ (modified ++ zeros 4)) ≡ ok r
    → (bs : Bytes) × EndBytes end_date bs × (r ≡ front header title ++ (modified ++ bs))
end_parts header title modified eh et em none h = (zeros 4, refl, cc)
end_parts header title modified eh et em (some d) h =
    let (bs, p, q) = pack_into-eq-ok (date_fields d) _ 39 h in
    (bs, p, q ∙ end_written header title modified eh et em bs (length-pack (date_fields d) p))

pack_schedule-ScheduleParts :
    (f : ScheduleFields) (title : Bytes) {r : Bytes}
    → utf8_encode f.title ≡ some title
    → length title ≤ 23
    → pack_schedule f title ≡ ok r
    → ScheduleParts f r
unfolding pack_schedule
pack_schedule-ScheduleParts f title {r} ut lt h =
    let (hb, hh, h₁) = bind-eq-ok (pack_into (schedule_header f) (zeros 43) 0) _ h in
    let (mb, hm, h₂) =
      bind-eq-ok (pack_into ((4, f.last_modified) ∷ []) (overwrite 11 title hb) 35) _ h₁ in
    let (header, ph, eh) = pack_into-eq-ok (schedule_header f) (zeros 43) 0 hh in
    let (modified, pm, em) =
      pack_into-eq-ok ((4, f.last_modified) ∷ []) (overwrite 11 title hb) 35 hm in
    let lh = length-pack (schedule_header f) ph in
    let lm = length-pack ((4, f.last_modified) ∷ []) pm in
    let at_title : overwrite 11 title hb ≡ front header title ++ (zeros 4 ++ zeros 4) =
      ap (overwrite 11 title) (eh ∙ headed header title modified lh lt lm)
      ∙ titled header title modified lh lt lm in
    let at_modified : mb ≡ front header title ++ (modified ++ zeros 4) =
      em ∙ ap (overwrite 35 modified) at_title ∙ modified_written header title modified lh lt lm in
    let (bs, pe, ee) =
      end_parts header title modified lh lt lm f.end_date
        (subst (λ t. pack_end f.end_date t ≡ ok r) at_modified h₂) in
    record {
      header = header;
      title = title;
      modified = modified;
      end_bytes = bs;
      header_is = ph;
      title_is = ut;
      title_fits = lt;
      modified_is = pm;
      end_is = pe;
      joined = ee;
    }

pub encode-ScheduleParts :
    (f : ScheduleFields) {r : Bytes} → encode_schedule_record f ≡ ok r → ScheduleParts f r
unfolding encode_schedule_record
encode-ScheduleParts f h =
    let (_, _, h₁) = bind-eq-ok (require (between 0 0xffff f.identifier) identifier_range) _ h in
    let (_, _, h₂) = bind-eq-ok (require (between 0 3 f.rule_kind) rule_kind_range) _ h₁ in
    let (_, _, h₃) =
      bind-eq-ok (require (between 0 23 f.hour && between 0 59 f.minute) time_invalid) _ h₂ in
    let (_, _, h₄) = bind-eq-ok (require (between 0 0xff f.parameter) parameter_range) _ h₃ in
    let (title, ht, h₅) = bind-eq-ok (from_option not_utf8 (utf8_encode f.title)) _ h₄ in
    let (_, fits, h₆) = bind-eq-ok (require (not (ltb 23 (length title))) title_too_long) _ h₅ in
    pack_schedule-ScheduleParts f title (from_option-eq-ok not_utf8 (utf8_encode f.title) ht)
      (fits_of (length title) (require-eq-ok (not (ltb 23 (length title))) title_too_long fits)) h₆
