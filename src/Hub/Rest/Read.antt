-- ===== src/Hub/Rest/Read.antt =====
-- src/hub/rest/read.rs: the queries of the dashboard. The tables are parameters over their state.
use sentinalysis.Base.{List, Option, Text, codes, map, if◌then◌else◌, none, some, ℕ}
use sentinalysis.Base.Int.{pos, ℤ}
use sentinalysis.Base.Results.{Result, err, ok, ◌>>=◌}
use sentinalysis.Hub.Validate.{Reason, app_name, event_type, limit, offset}
use sentinalysis.Hub.Auth.Key.{Matcher}
use sentinalysis.Hub.Auth.Permission.{Principal, holds, read_dashboard}
use sentinalysis.Hub.Range.{MetricRange, bucket_seconds, interval, max_rows, parse_range}
use sentinalysis.Hub.Ingest.Check.{if_some}
use sentinalysis.Hub.Rest.Auth.{HttpResponse, answered, failed}
use sentinalysis.Hub.Rest.Rows.{
  AgentDto, AgentStatus, AppEventRow, BucketedMetric, EventsResponse, Formats, MetricPointDto,
  agent_dto, events_response, metric_point_dto,
}

-- `require_dashboard`, in front of a handler.
unfoldable pub require_dashboard : {B : Type 0} → Principal → HttpResponse B → HttpResponse B
require_dashboard p response =
    if holds p read_dashboard then response else failed 403 (codes "key lacks read:dashboard")

-- A range of the query, one day without one.
abbrev pub range_text : Option Text → Text
range_text none = codes "24h"
range_text (some value) = value

abbrev pub bad_range : {B : Type 0} → HttpResponse B
bad_range = failed 400 (codes "range must be one of 1h, 6h, 24h, 7d, 30d")

abbrev pub as_response : {B : Type 0} → Result Text B → HttpResponse B
as_response (ok body) = answered 200 body
as_response (err e) = failed 500 (codes "storage failure")

pub record MetricsQuery : Type 0 where
  pub range : Option Text
  pub host : Option Text

-- The arguments of `bucketed_series`.
pub record SeriesQuery : Type 0 where
  pub interval : Text
  pub bucket_seconds : ℕ
  pub max_rows : ℕ
  pub host : Option Text

unfoldable pub series_query : Option Text → MetricRange → SeriesQuery
unfolding interval bucket_seconds max_rows
series_query host range = record {
  interval = interval range;
  bucket_seconds = bucket_seconds range;
  max_rows = max_rows range;
  host = host;
}

abbrev pub map_ok : {A B : Type 0} → (A → B) → Result Text A → Result Text B
map_ok f (ok a) = ok (f a)
map_ok f (err e) = err e

unfoldable pub get_metrics :
    Formats
    → (SeriesQuery → Result Text (List BucketedMetric))
    → Principal
    → MetricsQuery
    → HttpResponse (List MetricPointDto)
unfolding require_dashboard parse_range series_query metric_point_dto
get_metrics formats bucketed_series p query =
    require_dashboard p (elim (parse_range (range_text query.range)) [
      | none ↦ bad_range
      | some range ↦ as_response (
          map_ok (map (metric_point_dto formats)) (bucketed_series (series_query query.host range)))
    ])

pub record EventsQuery : Type 0 where
  pub app : Option Text
  pub event_type : Option Text
  pub range : Option Text
  pub limit : Option ℤ
  pub offset : Option ℤ

-- src/db/repositories/app_event_repo.rs
pub record EventFilter : Type 0 where
  pub app_name : Option Text
  pub event_type : Option Text
  pub interval : Text
  pub limit : ℤ
  pub offset : ℤ

abbrev pub or_default : ℤ → Option ℤ → ℤ
or_default n none = n
or_default n (some m) = m

-- The checks behind the range, in the order of the handler.
unfoldable pub checked_filter : Matcher → EventsQuery → MetricRange → Result Reason EventFilter
unfolding limit offset app_name event_type interval
checked_filter is_match query range = do
  limit_ok ← limit (or_default (pos 50) query.limit)
  offset_ok ← offset (or_default (pos 0) query.offset)
  app_ok ← if_some (app_name is_match) query.app
  type_ok ← if_some (λ value. event_type is_match value none) query.event_type
  ok record {
    app_name = query.app;
    event_type = query.event_type;
    interval = interval range;
    limit = limit_ok;
    offset = offset_ok;
  }

-- What a refused query is answered: the reason, or that the range is not one of the five.
pub data BadQuery : Type 0 where
  unknown_range : BadQuery
  bad_value : Reason → BadQuery

abbrev pub as_bad_value : Result Reason EventFilter → Result BadQuery EventFilter
as_bad_value (ok filter) = ok filter
as_bad_value (err reason) = err (bad_value reason)

abbrev pub filter_for : Matcher → EventsQuery → Option MetricRange → Result BadQuery EventFilter
filter_for is_match query none = err unknown_range
filter_for is_match query (some range) = as_bad_value (checked_filter is_match query range)

unfoldable pub events_filter : Matcher → EventsQuery → Result BadQuery EventFilter
unfolding parse_range checked_filter
events_filter is_match query = filter_for is_match query (parse_range (range_text query.range))

-- The table's answer: a page of rows, and the count of all.
abbrev pub ListEvents : Type 0 → Type 0
ListEvents J = EventFilter → Result Text (List (AppEventRow J) × ℤ)

-- `show_reason` formats a reason.
abbrev pub listed :
    {J : Type 0}
    → Formats
    → (Reason → Text)
    → ListEvents J
    → Result BadQuery EventFilter
    → HttpResponse (EventsResponse J)
listed formats show_reason list (err unknown_range) = bad_range
listed formats show_reason list (err (bad_value reason)) = failed 400 (show_reason reason)
listed formats show_reason list (ok filter) =
    as_response (map_ok (events_response formats) (list filter))

unfoldable pub get_app_events :
    {J : Type 0}
    → Matcher
    → Formats
    → (Reason → Text)
    → ListEvents J
    → Principal
    → EventsQuery
    → HttpResponse (EventsResponse J)
unfolding require_dashboard events_filter events_response
get_app_events is_match formats show_reason list p query =
    require_dashboard p (listed formats show_reason list (events_filter is_match query))

abbrev pub online_window_secs : ℕ
online_window_secs = 90

unfoldable pub get_servers :
    Formats → (ℕ → Result Text (List AgentStatus)) → Principal → HttpResponse (List AgentDto)
unfolding require_dashboard agent_dto
get_servers formats list_with_status p =
    require_dashboard p
      (as_response (map_ok (map (agent_dto formats)) (list_with_status online_window_secs)))
