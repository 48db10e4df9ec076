-- ===== src/App/Count.antt =====
-- web/src/App.js: the number that the page shows.
use dawn_patrol.Prelude.{
  String, codes, false, Option, List, ◌≡◌, inl, inr, refl, ◌∙◌, ap, length, if◌then◌else◌, Result,
  ok, throw, Result-cases, Bool-cases,
}
use dawn_patrol.ParseInt.{number, parse_int}
use dawn_patrol.ParseInt.Decimal.{parse_int-print_decimal}
use dawn_patrol.App.{Response, start, fetch_events, settled, mounted, render_events}

-- The events that came with a response that is ok, or else those of the properties.
abbrev pub latest : {E : Type 0} → Option (List E) → Result String (Response E) → List E
latest props (throw e) = (start props).events
latest props (ok r) = elim r.json [
  | throw e ↦ (start props).events
  | ok events ↦ if r.response_ok then events else (start props).events
]

response_lem :
    {E : Type 0} (r : Response E) (props : Option (List E))
    → (settled (start props) (fetch_events (λ url. ok r) (start props))).events
      ≡ latest props (ok r)
unfolding fetch_events
response_lem r props = elim (Bool-cases r.response_ok) [
  | inr bad ↦ elim (Result-cases r.json) [
    | inl (es, read) ↦ rw (bad, read) (rw bad refl)
    | inr (e, unread) ↦ rw (bad, unread) refl
  ]
  | inl good ↦ elim (Result-cases r.json) [
    | inl (es, read) ↦ rw (good, read) (rw good refl)
    | inr (e, unread) ↦ rw (good, unread) refl
  ]
]

mounted_lem :
    {E : Type 0} (fetch : String → Result String (Response E)) (props : Option (List E))
    → (mounted fetch props).events ≡ latest props (fetch "/index.json")
unfolding mounted fetch_events
mounted_lem fetch props = elim (Result-cases (fetch "/index.json")) [
  | inr (e, failed) ↦ rw failed refl
  | inl (r, came) ↦ rw came (response_lem r props)
]

-- Once the request has ended, the number that parseInt reads from the text of the page is that of
-- the events of the response from /index.json, if it is ok and its body is JSON, and else that of
-- the events that the page began with.
pub parse_int-render_events :
    {E : Type 0} (fetch : String → Result String (Response E)) (props : Option (List E))
    (text : String)
    → codes text ≡ render_events (mounted fetch props)
    → parse_int text ≡ number false (length (latest props (fetch "/index.json")))
unfolding render_events
parse_int-render_events fetch props text h =
    parse_int-print_decimal text (length (mounted fetch props).events) (codes " events") h refl
    ∙ ap (λ es. number false (length es)) (mounted_lem fetch props)
