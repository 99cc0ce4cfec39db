-- ===== src/Hub/Rest/Queries.antt =====
-- What reaches the tables of a query of the dashboard.
use mathlib.Core.Path.{subst}
use sentinalysis.Base.{
  Bool, Bool-cases, List, Option, codes, false, if◌then◌else◌, true, ℕ, Text, arith, inl, inr, none,
  refl, some, sym, ◌%◌, ◌&&◌, ◌≡◌, ◌≤◌,
}
use sentinalysis.Base.Int.{leb_ℤ, pos, ℤ, ◌≤ℤ◌}
use sentinalysis.Base.Results.{Result, err, ok, ◌>>=◌}
use sentinalysis.Hub.Validate.{
  Reason, app_name, event_type, limit, max_limit, max_offset, min_limit, offset,
}
use sentinalysis.Hub.Auth.Key.{Matcher}
use sentinalysis.Hub.Range.{
  MetricRange, bucket_seconds, buckets, d30, d7, h1, h24, h6, interval, max_rows, name_of,
  parse_range, parse_range_iff, span_seconds,
}
use sentinalysis.Hub.Auth.Permission.{Principal, holds, read_dashboard}
use sentinalysis.Hub.Rest.Auth.{answered, failed}
use sentinalysis.Hub.Rest.Rows.{AppEventRow, EventsResponse, Formats, events_response}
use sentinalysis.Hub.Rest.Read.{
  ListEvents, as_response, map_ok, listed, get_app_events, BadQuery, unknown_range, bad_value,
  EventFilter, EventsQuery, as_bad_value, checked_filter, events_filter, filter_for, or_default,
  range_text,
}
use sentinalysis.Hub.Ingest.Check.{if_some}

-- The filter of an accepted query.
pub record IsBounded (is_match : Matcher) (query : EventsQuery) (f : EventFilter) : Type 0 where
  pub range : MetricRange
  pub of_range : parse_range (range_text query.range) ≡ some range
  pub fixed_text : f.interval ≡ interval range
  pub limit_low : pos 1 ≤ℤ f.limit
  pub limit_high : f.limit ≤ℤ pos 200
  pub offset_low : pos 0 ≤ℤ f.offset
  pub offset_high : f.offset ≤ℤ pos 100000

limit-bounds : (n m : ℤ) → limit n ≡ ok m → (pos 1 ≤ℤ m) × (m ≤ℤ pos 200)
unfolding limit
limit-bounds n m h = elim (Bool-cases (leb_ℤ min_limit n && leb_ℤ n max_limit)) [
  | inl e ↦
      let same : n ≡ m = ground arith in
      subst (λ k. (pos 1 ≤ℤ k) × (k ≤ℤ pos 200)) same (ground arith, ground arith)
  | inr e ↦ absurd (ground arith)
]

offset-bounds : (n m : ℤ) → offset n ≡ ok m → (pos 0 ≤ℤ m) × (m ≤ℤ pos 100000)
unfolding offset
offset-bounds n m h = elim (Bool-cases (leb_ℤ (pos 0) n && leb_ℤ n max_offset)) [
  | inl e ↦
      let same : n ≡ m = ground arith in
      subst (λ k. (pos 0 ≤ℤ k) × (k ≤ℤ pos 100000)) same (ground arith, ground arith)
  | inr e ↦ absurd (ground arith)
]

-- What holds of an accepted filter.
abbrev OnFilter : {E : Type 0} → (EventFilter → Type 0) → Result E EventFilter → Type 0
OnFilter P (ok f) = P f
OnFilter P (err e) = Unit

bounds-checked_filter :
    (is_match : Matcher) (query : EventsQuery) (range : MetricRange) (f : EventFilter)
    (limit_answer offset_answer : Result Reason ℤ) (app_answer type_answer : Result Reason Unit)
    → parse_range (range_text query.range) ≡ some range
    → limit (or_default (pos 50) query.limit) ≡ limit_answer
    → offset (or_default (pos 0) query.offset) ≡ offset_answer
    → (do
      limit_ok ← limit_answer
      offset_ok ← offset_answer
      app_ok ← app_answer
      type_ok ← type_answer
      ok record {
        app_name = query.app;
        event_type = query.event_type;
        interval = interval range;
        limit = limit_ok;
        offset = offset_ok;
      })
      ≡ ok f
    → IsBounded is_match query f
bounds-checked_filter m q range f (ok l) (ok o) (ok a) (ok t) p hl ho done =
    let lb = limit-bounds (or_default (pos 50) q.limit) l hl in
    let ob = offset-bounds (or_default (pos 0) q.offset) o ho in
    subst (OnFilter (IsBounded m q)) done (record {
      range = range;
      of_range = p;
      fixed_text = refl;
      limit_low = lb.0;
      limit_high = lb.1;
      offset_low = ob.0;
      offset_high = ob.1;
    })
bounds-checked_filter m q range f (err e) o a t p hl ho done = absurd (cc)
bounds-checked_filter m q range f (ok l) (err e) a t p hl ho done = absurd (cc)
bounds-checked_filter m q range f (ok l) (ok o) (err e) t p hl ho done = absurd (cc)
bounds-checked_filter m q range f (ok l) (ok o) (ok a) (err e) p hl ho done = absurd (cc)

checked_filter-IsBounded :
    (is_match : Matcher) (query : EventsQuery) (range : MetricRange)
    (checked : Result Reason EventFilter)
    → parse_range (range_text query.range) ≡ some range
    → checked_filter is_match query range ≡ checked
    → OnFilter (IsBounded is_match query) checked
unfolding checked_filter
checked_filter-IsBounded m q range (err e) p h = tt
checked_filter-IsBounded m q range (ok f) p h =
    bounds-checked_filter m q range f (limit (or_default (pos 50) q.limit))
      (offset (or_default (pos 0) q.offset)) (if_some (app_name m) q.app)
      (if_some (λ value. event_type m value none) q.event_type) p refl refl h

as_bad_value-IsBounded :
    (is_match : Matcher) (query : EventsQuery) (checked : Result Reason EventFilter)
    → OnFilter (IsBounded is_match query) checked
    → OnFilter (IsBounded is_match query) (as_bad_value checked)
as_bad_value-IsBounded m q (ok f) h = h
as_bad_value-IsBounded m q (err e) h = tt

filter_for-IsBounded :
    (is_match : Matcher) (query : EventsQuery) (range : Option MetricRange)
    → parse_range (range_text query.range) ≡ range
    → OnFilter (IsBounded is_match query) (filter_for is_match query range)
filter_for-IsBounded m q none p = tt
filter_for-IsBounded m q (some range) p =
    as_bad_value-IsBounded m q (checked_filter m q range)
      (checked_filter-IsBounded m q range (checked_filter m q range) p refl)

pub events_filter-IsBounded :
    (is_match : Matcher) (query : EventsQuery) (f : EventFilter)
    → events_filter is_match query ≡ ok f
    → IsBounded is_match query f
unfolding events_filter
events_filter-IsBounded m q f h =
    subst (OnFilter (IsBounded m q)) h
      (filter_for-IsBounded m q (parse_range (range_text q.range)) refl)

-- What an answer without an error means.
pub record Listed {J : Type 0} (is_match : Matcher) (formats : Formats) (list : ListEvents J)
    (p : Principal) (query : EventsQuery) (body : EventsResponse J) : Type 0 where
  pub permitted : holds p read_dashboard ≡ true
  pub filter : EventFilter
  pub accepted : events_filter is_match query ≡ ok filter
  pub bounded : IsBounded is_match query filter
  pub page : List (AppEventRow J) × ℤ
  pub from_table : list filter ≡ ok page
  pub as_page : body ≡ events_response formats page

module _ {J : Type 0} (is_match : Matcher) (formats : Formats) (show_reason : Reason → Text)
    (list : ListEvents J) (p : Principal) (query : EventsQuery) where
  page-Listed :
      (filter : EventFilter) (page : Result Text (List (AppEventRow J) × ℤ)) (code : ℕ)
      (body : EventsResponse J)
      → holds p read_dashboard ≡ true
      → events_filter is_match query ≡ ok filter
      → list filter ≡ page
      → as_response (map_ok (events_response formats) page) ≡ answered code body
      → Listed is_match formats list p query body
  page-Listed filter (err e) code body h a t done = absurd (cc)
  page-Listed filter (ok page) code body h a t done =
      let same : events_response formats page ≡ body = cc in
      record {
        permitted = h;
        filter = filter;
        accepted = a;
        bounded = events_filter-IsBounded is_match query filter a;
        page = page;
        from_table = t;
        as_page = sym same;
      }

  listed-Listed :
      (filter : Result BadQuery EventFilter) (code : ℕ) (body : EventsResponse J)
      → holds p read_dashboard ≡ true
      → events_filter is_match query ≡ filter
      → listed formats show_reason list filter ≡ answered code body
      → Listed is_match formats list p query body
  listed-Listed (err unknown_range) code body h a done = absurd (cc)
  listed-Listed (err (bad_value reason)) code body h a done = absurd (cc)
  listed-Listed (ok filter) code body h a done = page-Listed filter _ code body h a refl done

  permitted-Listed :
      (permitted : Bool) (code : ℕ) (body : EventsResponse J)
      → holds p read_dashboard ≡ permitted
      → (if permitted
          then listed formats show_reason list (events_filter is_match query)
          else failed 403 (codes "key lacks read:dashboard"))
        ≡ answered code body
      → Listed is_match formats list p query body
  permitted-Listed true code body h done = listed-Listed _ code body h refl done
  permitted-Listed false code body h done = absurd (cc)

  -- If `get_app_events` answers without an error, the caller may read the dashboard, and the body
  -- is the page that the table returned for a filter with one of the five fixed intervals, a limit
  -- from 1 to 200 and an offset from 0 to 100000.
  pub get_app_events-Listed :
      (code : ℕ) (body : EventsResponse J)
      → get_app_events is_match formats show_reason list p query ≡ answered code body
      → Listed is_match formats list p query body
  unfolding get_app_events
  get_app_events-Listed code body done =
      permitted-Listed (holds p read_dashboard) code body refl done

Fits : Text → MetricRange → Type 0
Fits value range =
    (buckets value range ≤ max_rows range) × (span_seconds value % bucket_seconds range ≡ 0)

name_of-Fits : (range : MetricRange) → Fits (name_of range) range
unfolding Fits bucket_seconds max_rows name_of
name_of-Fits h1 = (omega arith, refl)
name_of-Fits h6 = (omega arith, refl)
name_of-Fits h24 = (omega arith, refl)
name_of-Fits d7 = (omega arith, refl)
name_of-Fits d30 = (omega arith, refl)

-- For each of the five ranges, the buckets that it spans are no more than the rows that its query
-- may return, and its span is a whole number of buckets.
pub buckets-max_rows :
    (value : Text) (range : MetricRange)
    → parse_range value ≡ some range
    → (buckets value range ≤ max_rows range) × (span_seconds value % bucket_seconds range ≡ 0)
unfolding Fits
buckets-max_rows value range h =
    subst (λ v. Fits v range) (sym ((parse_range_iff value range).0 h)) (name_of-Fits range)
