-- ===== src/App.antt =====
-- web/src/App.js and web/src/Events.js: the page that counts the events. The events are of any
-- type, since the page only counts them.
pub mod Count
use dawn_patrol.Prelude.{
  ℕ, String, codes, Bool, not, Option, none, some, List, [], ◌∷◌, ◌++◌, length, if◌then◌else◌,
  Result, ok, throw, ◌>>=◌,
}
use dawn_patrol.ParseInt.Decimal.{print_decimal}

-- A response of `fetch`; `json` is what reading the body as JSON gives.
pub record Response (E : Type 0) : Type 0 where
  pub response_ok : Bool
  pub status_text : String
  pub json : Result String (List E)

pub record State (E : Type 0) : Type 0 where
  pub events : List E

module _ {E : Type 0} where
  -- The constructor: `props.events || []`.
  abbrev pub start : Option (List E) → State E
  start none = record { events = [] }
  start (some events) = record { events = events }

  -- The first reaction of `fetchEvents`.
  abbrev read_response : Response E → Result String (List E)
  read_response r = if not r.response_ok then throw r.status_text else r.json

  -- `fetchEvents`: the promise's end, with the state; `fetch` says how a request ends.
  unfoldable pub fetch_events :
      (String → Result String (Response E)) → State E → Result String (State E)
  fetch_events fetch s = do
    r ← fetch "/index.json"
    events ← read_response r
    ok (record s { events = events })

  -- The state behind it: a promise that rejects leaves it as it is.
  abbrev pub settled : State E → Result String (State E) → State E
  settled s (ok t) = t
  settled s (throw e) = s

  -- The component from its constructor on, with `componentDidMount`.
  unfoldable pub mounted : (String → Result String (Response E)) → Option (List E) → State E
  unfolding fetch_events
  mounted fetch props = settled (start props) (fetch_events fetch (start props))

  -- The text of the `Events` paragraph.
  unfoldable pub render_events : State E → List ℕ
  render_events s = print_decimal (length s.events) (codes " events")
