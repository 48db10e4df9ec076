-- ===== src/Server/Routes.antt =====
-- What is documented of goji and raven, and what the server does with a request.
use dawn_patrol.Prelude.{
  String, codes, ◌==◌, ◌&&◌, ◌||◌, Bool, true, false, List, [], ◌∷◌, ◌++◌, ◌≡◌, refl, arith, Result,
  ok, throw, ap, ◌∙◌, eq_iff,
}
use dawn_patrol.Server.{
  Request, Response, Context, Action, Panic, an_error, a_text, Handler, Pattern, get, post,
  Packages, with_status, with_body, MuxConfig, new_mux, new_instrumented_handler, root, test_panic,
  copy_handler, status,
}

-- The requests that a pattern is for.
abbrev pub covers : Pattern → Request → Bool
covers (get address) r = (r.verb == "GET" || r.verb == "HEAD") && r.path == address
covers (post address) r = r.verb == "POST" && r.path == address

abbrev pub not_found : Response → Response
not_found r = with_body (codes "404 page not found\n") (with_status 404 r)

abbrev address_of : Pattern → String
address_of (get p) = p
address_of (post p) = p

-- A request for one path is not for another.
other_path :
    (q o : Pattern) (r : Request)
    → (address_of q == address_of o) ≡ false
    → covers q r ≡ true
    → covers o r ≡ false
other_path (get p) (get u) r n h = ground (arith, eq_iff r.path p, eq_iff r.path u, eq_iff p u)
other_path (get p) (post u) r n h = ground (arith, eq_iff r.path p, eq_iff r.path u, eq_iff p u)
other_path (post p) (get u) r n h = ground (arith, eq_iff r.path p, eq_iff r.path u, eq_iff p u)
other_path (post p) (post u) r n h = ground (arith, eq_iff r.path p, eq_iff r.path u, eq_iff p u)

-- goji serves a request by the first route for it, and else by `http.NotFound`. raven's
-- RecoveryHandler answers a panic with an error by the status 500; a panic with another value goes
-- on as a panic about that value's type, since the package takes it for an error.
pub record IsPackages {S : Type 0} (p : Packages S) : Type 0 where
  pub hit :
      (q : Pattern) (h : Handler S) (rest : List (Pattern × Handler S)) (r : Request)
      → covers q r ≡ true
      → p.goji ((q, h) ∷ rest) r ≡ h.serve_http r
  pub miss :
      (q : Pattern) (h : Handler S) (rest : List (Pattern × Handler S)) (r : Request)
      → covers q r ≡ false
      → p.goji ((q, h) ∷ rest) r ≡ p.goji rest r
  pub no_route :
      (r : Request) (c : Context S)
      → p.goji [] r c ≡ (ok tt, record c { response = not_found c.response })
  pub returned :
      (serve : Request → Action S (Unit {0})) (r : Request) (c d : Context S)
      → serve r c ≡ (ok tt, d)
      → p.recovery serve r c ≡ (ok tt, d)
  pub recovered :
      (serve : Request → Action S (Unit {0})) (r : Request) (c d : Context S) (e : String)
      → serve r c ≡ (throw (an_error e), d)
      → p.recovery serve r c ≡ (ok tt, record d { response = with_status 500 d.response })
  pub panicked :
      (serve : Request → Action S (Unit {0})) (r : Request) (c d : Context S) (e : String)
      → serve r c ≡ (throw (a_text e), d)
      → (message : String) × (p.recovery serve r c ≡ (throw (an_error message), d))

abbrev pub index_path : Pattern
index_path = get "/index.json"

abbrev pub panic_path : Pattern
panic_path = get "/panic"

abbrev pub copy_path : Pattern
copy_path = post "/rails/copy"

abbrev pub status_path : Pattern
status_path = get "/status"

abbrev pub logging : {S : Type 0} → Request → Context S → Context S
logging r c = record c { logged = c.logged ++ ((r.verb, r.url) ∷ []) }

module _ {S : Type 0} (p : Packages S) (h : IsPackages p) (cfg : MuxConfig S) (r : Request)
    (c : Context S) where
  abbrev instrumented : Handler S → Result Panic (Unit {0}) × Context S
  instrumented handler =
      (new_instrumented_handler p.recovery cfg.new_relic_app handler).serve_http r (logging r c)

  pub mux-index :
      covers index_path r ≡ true
      → new_mux p cfg r c ≡ instrumented (root p.marshal cfg.association_service cfg.event_service)
  unfolding new_mux
  mux-index e = ap (λ f. f (logging r c)) (h.hit index_path _ _ r e)

  pub mux-panic : covers panic_path r ≡ true → new_mux p cfg r c ≡ instrumented test_panic
  unfolding new_mux
  mux-panic e =
      ap (λ f. f (logging r c))
        (h.miss index_path _ _ r (other_path panic_path index_path r refl e)
          ∙ h.hit panic_path _ _ r e)

  pub mux-copy :
      covers copy_path r ≡ true
      → new_mux p cfg r c ≡ instrumented (copy_handler cfg.racing_association_service)
  unfolding new_mux
  mux-copy e =
      ap (λ f. f (logging r c))
        (h.miss index_path _ _ r (other_path copy_path index_path r refl e)
          ∙ h.miss panic_path _ _ r (other_path copy_path panic_path r refl e)
          ∙ h.hit copy_path _ _ r e)

  pub mux-status : covers status_path r ≡ true → new_mux p cfg r c ≡ instrumented status
  unfolding new_mux
  mux-status e =
      ap (λ f. f (logging r c))
        (h.miss index_path _ _ r (other_path status_path index_path r refl e)
          ∙ h.miss panic_path _ _ r (other_path status_path panic_path r refl e)
          ∙ h.miss copy_path _ _ r (other_path status_path copy_path r refl e)
          ∙ h.hit status_path _ _ r e)

  -- No route is for the request.
  abbrev pub Unrouted : Type 0
  Unrouted =
      (covers index_path r ≡ false)
      × (covers panic_path r ≡ false)
      × (covers copy_path r ≡ false)
      × (covers status_path r ≡ false)

  pub mux-unrouted :
      Unrouted
      → new_mux p cfg r c ≡ (ok tt, record (logging r c) { response = not_found c.response })
  unfolding new_mux
  mux-unrouted (i, q, k, s) =
      ap (λ f. f (logging r c))
        (h.miss index_path _ _ r i
          ∙ h.miss panic_path _ _ r q
          ∙ h.miss copy_path _ _ r k
          ∙ h.miss status_path _ _ r s)
      ∙ h.no_route r (logging r c)
