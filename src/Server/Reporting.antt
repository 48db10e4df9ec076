-- ===== src/Server/Reporting.antt =====
-- A server that reports to New Relic, compared with one that does not.
use dawn_patrol.Prelude.{
  String, codes, none, some, ◌≡◌, sym, ap, ◌∙◌, inl, inr, Result, ok, throw, ok-inj,
}
use dawn_patrol.Printf.{fprintf}
use dawn_patrol.Api.{Association}
use dawn_patrol.Api.Associations.{Store}
use dawn_patrol.Api.Events.{EventTable}
use dawn_patrol.Api.Copy.{Sources}
use dawn_patrol.Api.Rails.{Rails, read_sources}
use dawn_patrol.Server.{Request, Context, Packages, Panic, api}
use dawn_patrol.Server.Routes.{IsPackages}
use dawn_patrol.Server.Answers.{fresh}
use dawn_patrol.Server.Index.{AnswersIndex, Unanswerable, api-AnswersIndex}
use dawn_patrol.Server.Copying.{AnswersCopy, CopyEnds, api-AnswersCopy}
use dawn_patrol.Server.Panics.{
  Route, index, panic, copying, status_check, nowhere, Takes, route_of, api-panic, api-status,
  api-unrouted,
}

module _ {S : Type 0} (p : Packages S) (store : Store S) (table : EventTable S)
    (rails : Rails) where
  -- The database and the response are the same.
  abbrev Alike : (o u : Result Panic (Unit {0}) × Context S) → Type 0
  Alike o u = (o.1.world.database ≡ u.1.world.database) × (o.1.response ≡ u.1.response)

  index_sent :
      (r : Request) (s : S) (a b : Association) (json other : String)
      → store.first_by_host r.host s ≡ ok a
      → store.first_by_host r.host s ≡ ok b
      → p.marshal (table.find_events a.id s) ≡ ok json
      → p.marshal (table.find_events b.id s) ≡ ok other
      → json ≡ other
  index_sent r s a b json other f g m n =
      let same : a ≡ b = ok-inj (sym f ∙ g) in
      ok-inj (sym m ∙ ap (λ (x : Association). p.marshal (table.find_events x.id s)) same ∙ n)

  not_both :
      (r : Request) (s : S) (a : Association) (json e : String)
      → store.first_by_host r.host s ≡ ok a
      → p.marshal (table.find_events a.id s) ≡ ok json
      → Unanswerable p store table rails r s e
      → ⊥
  not_both r s a json e f m (inl unfound) = cc
  not_both r s a json e f m (inr (b, g, refused)) =
      let same : a ≡ b = ok-inj (sym f ∙ g) in
      let both =
        sym m ∙ ap (λ (x : Association). p.marshal (table.find_events x.id s)) same ∙ refused in
      cc

  index-Alike :
      (r : Request) (s : S) (o u : Result Panic (Unit {0}) × Context S)
      → AnswersIndex p store table rails r s o
      → AnswersIndex p store table rails r s u
      → Alike o u
  index-Alike r s o u (_, kept, inl (a, json, f, m, sent)) (_, kept', inl (b, other, g, n, sent')) =
      let same = index_sent r s a b json other f g m n in
      (
        kept ∙ sym kept',
        sent
            ∙ ap
                (λ t. record {
                  status = some 200;
                  content_type = some "application/json";
                  body = fprintf (codes t);
                })
                same
            ∙ sym sent',
      )
  index-Alike r s o u (_, kept, inl (a, json, f, m, sent)) (_, kept', inr (e, why, _)) =
      absurd (not_both r s a json e f m why)
  index-Alike r s o u (_, kept, inr (e, why, _)) (_, kept', inl (a, json, f, m, sent)) =
      absurd (not_both r s a json e f m why)
  index-Alike r s o u (_, kept, inr (e, why, sent)) (_, kept', inr (d, _, sent')) =
      (kept ∙ sym kept', sent ∙ sym sent')

  ends-Alike :
      (x : Result String Sources) (r : Request) (s : S) (o u : Result Panic (Unit {0}) × Context S)
      → CopyEnds store table rails x r s o
      → CopyEnds store table rails x r s u
      → Alike o u
  ends-Alike (throw m) r s o u (_, kept, sent) (_, kept', sent') =
      (kept ∙ sym kept', sent ∙ sym sent')
  ends-Alike (ok sources) r s o u (_, kept, sent) (_, kept', sent') =
      (kept ∙ sym kept', sent ∙ sym sent')

  copy-Alike :
      (r : Request) (s : S) (o u : Result Panic (Unit {0}) × Context S)
      → AnswersCopy store table rails r s o
      → AnswersCopy store table rails r s u
      → Alike o u
  copy-Alike r s o u (inl (_, _, kept, sent)) (inl (_, _, kept', sent')) =
      (kept ∙ sym kept', sent ∙ sym sent')
  copy-Alike r s o u (inl (unnamed, _, _, _)) (inr (named, _)) = absurd (named unnamed)
  copy-Alike r s o u (inr (named, _)) (inl (unnamed, _, _, _)) = absurd (named unnamed)
  copy-Alike r s o u (inr (_, ends)) (inr (_, ends')) =
      ends-Alike (read_sources rails r.association) r s o u ends ends'

  -- If goji and raven do what they are known to do, a server with New Relic and one without it
  -- leave the same database and give the same response, whatever the request.
  pub api-without_app :
      IsPackages p
      → (name : String) (r : Request) (c : Context S) → c.response ≡ fresh
      → Alike (api p (some name) store table rails r c) (api p none store table rails r c)
  api-without_app h name r c new = go (route_of r).0 (route_of r).1
    where
      go :
          (x : Route)
          → Takes x r
          → Alike (api p (some name) store table rails r c) (api p none store table rails r c)
      go index e =
          index-Alike r c.world.database (api p (some name) store table rails r c)
            (api p none store table rails r c)
            (api-AnswersIndex p store table rails h (some name) r c e new)
            (api-AnswersIndex p store table rails h none r c e new)
      go copying e =
          copy-Alike r c.world.database (api p (some name) store table rails r c)
            (api p none store table rails r c)
            (api-AnswersCopy store table rails p h (some name) r c e new)
            (api-AnswersCopy store table rails p h none r c e new)
      go panic e =
          let (_, kept, sent) = api-panic p store table rails h (some name) r c new e in
          let (_, kept', sent') = api-panic p store table rails h none r c new e in
          (kept ∙ sym kept', sent ∙ sym sent')
      go status_check e =
          let (_, kept, sent) = api-status p store table rails h (some name) r c new e in
          let (_, kept', sent') = api-status p store table rails h none r c new e in
          (kept ∙ sym kept', sent ∙ sym sent')
      go nowhere e =
          let (_, kept, sent) = api-unrouted p store table rails h (some name) r c new e in
          let (_, kept', sent') = api-unrouted p store table rails h none r c new e in
          (kept ∙ sym kept', sent ∙ sym sent')
