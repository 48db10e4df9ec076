-- ===== src/Server/Answers.antt =====
-- What the instrumented handlers of the API answer.
use dawn_patrol.Prelude.{String, Option, none, some, [], ◌∷◌, ◌≡◌, refl, Result, ok, throw}
use dawn_patrol.Api.Instrumentation.{tell, started, ended}
use dawn_patrol.Server.{
  Request, Response, Context, Panic, an_error, a_text, Handler, Packages, with_status,
  new_instrumented_handler,
}
use dawn_patrol.Server.Routes.{IsPackages}

module _ {S : Type 0} where
  -- The transaction around a handler.
  abbrev pub begun : Option String → Handler S → Context S → Context S
  begun none h c = c
  begun (some app) h c = record c { world = tell (started h.type_name ∷ []) c.world }

  abbrev pub finished : Option String → Context S → Context S
  finished none d = d
  finished (some app) d = record d { world = tell (ended ∷ []) d.world }

  -- What becomes of a handler's end: a panic with an error is answered by the status 500, and one
  -- with a text goes on.
  abbrev pub Settles :
      Result Panic (Unit {0}) × Context S → Result Panic (Unit {0}) × Context S → Type 0
  Settles (ok tt, d) (result, out) =
      (result ≡ ok tt) × (out.world.database ≡ d.world.database) × (out.response ≡ d.response)
  Settles (throw (an_error e), d) (result, out) =
      (result ≡ ok tt)
      × (out.world.database ≡ d.world.database)
      × (out.response ≡ with_status 500 d.response)
  Settles (throw (a_text e), d) (result, out) =
      ((message : String) × (result ≡ throw (an_error message)))
      × (out.world.database ≡ d.world.database)
      × (out.response ≡ d.response)

module _ {S : Type 0} (p : Packages S) (h : IsPackages p) where
  settle :
      (app : Option String) (handler : Handler S) (r : Request) (c : Context S)
      (m : Result Panic (Unit {0}) × Context S)
      → handler.serve_http r (begun app handler c) ≡ m
      → Settles m ((new_instrumented_handler p.recovery app handler).serve_http r c)
  unfolding new_instrumented_handler
  settle none handler r c (ok tt, d) e =
      rw (h.returned handler.serve_http r c d e) (refl, refl, refl)
  settle (some app) handler r c (ok tt, d) e =
      rw (h.returned handler.serve_http r (begun (some app) handler c) d e) (refl, refl, refl)
  settle none handler r c (throw (an_error x), d) e =
      rw (h.recovered handler.serve_http r c d x e) (refl, refl, refl)
  settle (some app) handler r c (throw (an_error x), d) e =
      rw (h.recovered handler.serve_http r (begun (some app) handler c) d x e) (refl, refl, refl)
  settle none handler r c (throw (a_text x), d) e =
      let (message, same) = h.panicked handler.serve_http r c d x e in
      rw same ((message, refl), refl, refl)
  settle (some app) handler r c (throw (a_text x), d) e =
      let (message, same) = h.panicked handler.serve_http r (begun (some app) handler c) d x e in
      rw same ((message, refl), refl, refl)

  -- The handler's end, for a handler that is known to end in a way.
  pub handler-Settles :
      (app : Option String) (handler : Handler S) (r : Request) (c : Context S)
      → Settles
          (handler.serve_http r (begun app handler c))
          ((new_instrumented_handler p.recovery app handler).serve_http r c)
  handler-Settles app handler r c = settle app handler r c _ refl

module _ {S : Type 0} where
  pub Settles-ok :
      (m out : Result Panic (Unit {0}) × Context S)
      → Settles m out
      → m.0 ≡ ok tt
      → (out.0 ≡ ok tt)
        × (out.1.world.database ≡ m.1.world.database)
        × (out.1.response ≡ m.1.response)
  Settles-ok (ok tt, d) out s e = s
  Settles-ok (throw x, d) out s e = cc

  pub Settles-error :
      (m out : Result Panic (Unit {0}) × Context S) (message : String)
      → Settles m out
      → m.0 ≡ throw (an_error message)
      → (out.0 ≡ ok tt)
        × (out.1.world.database ≡ m.1.world.database)
        × (out.1.response ≡ with_status 500 m.1.response)
  Settles-error (ok tt, d) out message s e = cc
  Settles-error (throw (an_error x), d) out message s e = s
  Settles-error (throw (a_text x), d) out message s e = cc

  pub Settles-text :
      (m out : Result Panic (Unit {0}) × Context S) (message : String)
      → Settles m out
      → m.0 ≡ throw (a_text message)
      → ((about : String) × (out.0 ≡ throw (an_error about)))
        × (out.1.world.database ≡ m.1.world.database)
        × (out.1.response ≡ m.1.response)
  Settles-text (ok tt, d) out message s e = cc
  Settles-text (throw (an_error x), d) out message s e = cc
  Settles-text (throw (a_text x), d) out message s e = s

-- A response before anything is written.
abbrev pub fresh : Response
fresh = record { status = none; content_type = none; body = [] }

module _ {S : Type 0} (p : Packages S) (h : IsPackages p) where
  world_kept :
      (app : Option String) (handler : Handler S) (r : Request) (c : Context S)
      (m : Result Panic (Unit {0}) × Context S)
      → handler.serve_http r (begun app handler c) ≡ m
      → ((new_instrumented_handler p.recovery app handler).serve_http r c).1.world
        ≡ (finished app m.1).world
  unfolding new_instrumented_handler
  world_kept none handler r c (ok tt, d) e = rw (h.returned handler.serve_http r c d e) refl
  world_kept (some app) handler r c (ok tt, d) e =
      rw (h.returned handler.serve_http r (begun (some app) handler c) d e) refl
  world_kept none handler r c (throw (an_error x), d) e =
      rw (h.recovered handler.serve_http r c d x e) refl
  world_kept (some app) handler r c (throw (an_error x), d) e =
      rw (h.recovered handler.serve_http r (begun (some app) handler c) d x e) refl
  world_kept none handler r c (throw (a_text x), d) e =
      rw ((h.panicked handler.serve_http r c d x e).1) refl
  world_kept (some app) handler r c (throw (a_text x), d) e =
      rw ((h.panicked handler.serve_http r (begun (some app) handler c) d x e).1) refl

  -- The world behind a handler, however it ends.
  pub handler-world :
      (app : Option String) (handler : Handler S) (r : Request) (c : Context S)
      → ((new_instrumented_handler p.recovery app handler).serve_http r c).1.world
        ≡ (finished app (handler.serve_http r (begun app handler c)).1).world
  handler-world app handler r c = world_kept app handler r c _ refl
