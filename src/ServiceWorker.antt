-- ===== src/ServiceWorker.antt =====
-- web/src/serviceWorker.js: the registration of the service worker, as a machine that is driven
-- by the browser's events. A pending promise or handler is a flag of the state; that
-- of the `load` event, which a browser sends once, is dropped when it comes.
pub mod Localhost
pub mod Callbacks
pub mod Registration
pub mod Reload
use dawn_patrol.Prelude.{
  ℕ, String, ◌<>◌, Bool, true, false, not, ◌&&◌, ◌||◌, Option, none, some, List, [], ◌∷◌, ◌++◌,
  ◌==◌, nat_eq, is_text, if◌then◌else◌,
}
use dawn_patrol.Regex.{Regex, seq, alt, chr, range, opt, lit, any_of, anything, test}

-- `25[0-5]|2[0-4][0-9]|[01]?[0-9][0-9]?`
abbrev pub octet : Regex
octet = any_of (
    seq (lit "25") (range b'0' b'5')
    ∷ seq (chr b'2') (seq (range b'0' b'4') (range b'0' b'9'))
    ∷ seq (opt (range b'0' b'1')) (seq (range b'0' b'9') (opt (range b'0' b'9')))
    ∷ [])

-- `\.` and an octet.
abbrev pub dotted : Regex
dotted = seq (chr b'.') octet

-- `/^127(?:\.(?:…)){3}$/`
abbrev pub loopback : Regex
loopback = seq (lit "127") (seq dotted (seq dotted dotted))

-- `isLocalhost`.
unfoldable pub is_localhost : String → Bool
unfolding test
is_localhost hostname = hostname == "localhost" || (hostname == "[::1]" || test loopback hostname)

-- What the page and its build give.
pub record Page : Type 0 where
  -- `window.location.hostname` and `.origin`
  pub hostname : String
  pub origin : String
  -- `process.env.NODE_ENV` and `.PUBLIC_URL`
  pub node_env : String
  pub public_url : String
  -- `new URL(process.env.PUBLIC_URL, window.location.href).origin`
  pub public_origin : String
  -- `'serviceWorker' in navigator`
  pub supported : Bool

-- `config`: which of its two callbacks it has.
pub record Config : Type 0 where
  pub has_on_update : Bool
  pub has_on_success : Bool

pub data Effect : Type 0 where
  log : String → Effect
  log_error : Effect
  fetch register : String → Effect
  unregister_worker reload on_update on_success : Effect

pub record State : Type 0 where
  -- the listener of the `load` event
  pub armed : Bool
  -- the pending promises of `fetch`, `register` and `registration.unregister`
  pub fetching : Bool
  pub registering : Bool
  pub unregistering : Bool
  -- the reactions to `navigator.serviceWorker.ready`: the log, the reload, and `unregister`
  pub ready_log : Bool
  pub ready_reload : Bool
  pub ready_unregister : Bool
  -- `onupdatefound` and `onstatechange`
  pub watching : Bool
  pub installing : Bool
  pub effects : List Effect

abbrev pub idle : State
idle = record {
  armed = false;
  fetching = false;
  registering = false;
  unregistering = false;
  ready_log = false;
  ready_reload = false;
  ready_unregister = false;
  watching = false;
  installing = false;
  effects = [];
}

-- `register(config)`: the listener is set in production, where service workers are supported and
-- PUBLIC_URL is on the page's origin.
unfoldable pub register_page : Page → State
register_page page =
    if page.node_env == "production" && page.supported
    then if not (page.public_origin == page.origin) then idle else record idle { armed = true }
    else idle

-- `unregister()`.
unfoldable pub unregister_page : Page → State
unregister_page page = if page.supported then record idle { ready_unregister = true } else idle

-- A response: the status, and the header `content-type`, if there is one.
pub record Response : Type 0 where
  pub status : ℕ
  pub content_type : Option String

-- What the browser reports.
pub data Event : Type 0 where
  loaded : Event
  fetched : Response → Event
  fetch_failed registered register_failed : Event
  -- whether `registration.installing` is there
  update_found : Bool → Event
  -- the worker's state, and whether `navigator.serviceWorker.controller` is there
  state_changed : String → Bool → Event
  ready ready_failed unregistered : Event

-- `swUrl`.
abbrev pub sw_url : Page → String
sw_url page = page.public_url <> "/service-worker.js"

-- `contentType != null && contentType.indexOf('javascript') === -1`.
abbrev not_javascript : Option String → Bool
not_javascript none = false
not_javascript (some t) = not (test (seq anything (seq (lit "javascript") anything)) t)

-- No service worker was found.
unfoldable pub is_missing : Response → Bool
is_missing r = nat_eq r.status 404 || not_javascript r.content_type

abbrev emit : State → Effect → State
emit s e = record s { effects = s.effects ++ (e ∷ []) }

abbrev emit_if : Bool → State → Effect → State
emit_if b s e = if b then emit s e else s

-- `registerValidSW(swUrl, config)`.
abbrev register_valid_sw : Page → State → State
register_valid_sw page s = emit (record s { registering = true }) (register (sw_url page))

abbrev update_text : String
update_text =
    "New content is available and will be used when all tabs for this page are closed. See https://bit.ly/CRA-PWA."

abbrev cached_text : String
cached_text = "Content is cached for offline use."

abbrev offline_text : String
offline_text = "No internet connection found. App is running in offline mode."

abbrev cache_first_text : String
cache_first_text =
    "This web app is being served cache-first by a service worker. To learn more, visit https://bit.ly/CRA-PWA"

-- `config && config.onUpdate`, and so for `onSuccess`.
abbrev pub calls_update : Option Config → Bool
calls_update none = false
calls_update (some c) = c.has_on_update

abbrev pub calls_success : Option Config → Bool
calls_success none = false
calls_success (some c) = c.has_on_success

-- The body of `onstatechange`.
worker_changed : Option Config → State → String → Bool → State
worker_changed config s state controlled =
    if state == "installed"
    then if controlled
      then emit_if (calls_update config) (emit s (log update_text)) on_update
      else emit_if (calls_success config) (emit s (log cached_text)) on_success
    else s

-- The reactions to `ready`, in the order in which they were set.
react_log : State → State
react_log s =
    if s.ready_log then emit (record s { ready_log = false }) (log cache_first_text) else s

react_reload : State → State
react_reload s =
    if s.ready_reload
    then emit (record s { ready_reload = false; unregistering = true }) unregister_worker
    else s

react_unregister : State → State
react_unregister s =
    if s.ready_unregister then emit (record s { ready_unregister = false }) unregister_worker else s

unfoldable pub step : Page → Option Config → State → Event → State
unfolding worker_changed react_log react_reload react_unregister is_missing
step page config s loaded =
    if s.armed
    then if is_localhost page.hostname
      then emit (record s { armed = false; fetching = true; ready_log = true })
          (fetch (sw_url page))
      else register_valid_sw page (record s { armed = false })
    else s
step page config s (fetched r) =
    if s.fetching
    then if is_missing r
      then record s { fetching = false; ready_reload = true }
      else register_valid_sw page (record s { fetching = false })
    else s
step page config s fetch_failed =
    if s.fetching then emit (record s { fetching = false }) (log offline_text) else s
step page config s registered =
    if s.registering then record s { registering = false; watching = true } else s
step page config s register_failed =
    if s.registering then emit (record s { registering = false }) log_error else s
step page config s (update_found installing) =
    if s.watching && installing then record s { installing = true } else s
step page config s (state_changed state controlled) =
    if s.installing then worker_changed config s state controlled else s
step page config s ready = react_unregister (react_reload (react_log s))
step page config s ready_failed =
    if s.ready_unregister then emit (record s { ready_unregister = false }) log_error else s
step page config s unregistered =
    if s.unregistering then emit (record s { unregistering = false }) reload else s

unfoldable pub run : Page → Option Config → State → List Event → State
run page config s [] = s
run page config s (e ∷ es) = run page config (step page config s e) es
