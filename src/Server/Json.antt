-- ===== src/Server/Json.antt =====
-- The body of the answer for /index.json: the JSON is the format of fmt.Fprintf.
use dawn_patrol.Prelude.{
  ℕ, String, codes, true, Option, some, List, [], ◌∷◌, ◌++◌, ◌≡◌, ◌≢◌, sym, ap, ◌∙◌, inl, inr,
  arith, ok, ok-inj,
}
use dawn_patrol.Printf.{fprintf, is_plain, is_letter, fprintf-plain, fprintf-letter}
use dawn_patrol.Api.{Association}
use dawn_patrol.Api.Associations.{Store}
use dawn_patrol.Api.Events.{EventTable}
use dawn_patrol.Api.Rails.{Rails}
use dawn_patrol.Server.{Request, Response, Context, Packages, api}
use dawn_patrol.Server.Routes.{IsPackages, covers, index_path}
use dawn_patrol.Server.Answers.{fresh}
use dawn_patrol.Server.Copied.{api-Sent}

-- What stands behind a common start and one common item.
cut : (s : List ℕ) (x a b : ℕ) (t u : List ℕ) → s ++ (x ∷ a ∷ t) ≡ s ++ (x ∷ b ∷ u) → a ≡ b
cut [] x a b t u e = cc
cut (y ∷ s) x a b t u e =
    let rest : s ++ (x ∷ a ∷ t) ≡ s ++ (x ∷ b ∷ u) = cc in cut s x a b t u rest

not_bang : (c : ℕ) → is_letter c ≡ true → b'!' ≢ c
not_bang c h e = ground arith

-- A percent sign before a letter does not come through.
fprintf-ne :
    (s : List ℕ) (c : ℕ) (t : List ℕ)
    → is_plain s ≡ true
    → is_letter c ≡ true
    → fprintf (s ++ (b'%' ∷ c ∷ t)) ≢ s ++ (b'%' ∷ c ∷ t)
fprintf-ne s c t h k e = not_bang c k (
    cut s b'%' b'!' c (c ∷ (codes "(MISSING)" ++ fprintf t)) t (sym (fprintf-letter s c t h k) ∙ e))

module _ {S : Type 0} (p : Packages S) (store : Store S) (table : EventTable S) (rails : Rails)
    (h : IsPackages p) (app : Option String) (r : Request) (c : Context S) (a : Association)
    (json : String) where
  sent_json :
      covers index_path r ≡ true
      → c.response ≡ fresh
      → store.first_by_host r.host c.world.database ≡ ok a
      → p.marshal (table.find_events a.id c.world.database) ≡ ok json
      → (api p app store table rails r c).1.response ≡ record {
        status = some 200;
        content_type = some "application/json";
        body = fprintf (codes json);
      }
  sent_json e new found marshalled = elim (api-Sent p store table rails h app r c a e new found) [
    | inl (other, marshalled', sent) ↦
        sent
        ∙ ap
            (λ t. record {
              status = some 200;
              content_type = some "application/json";
              body = fprintf (codes t);
            })
            (ok-inj (sym marshalled' ∙ marshalled))
    | inr (m, refused, sent) ↦ cc (sym marshalled ∙ refused)
  ]

  -- If goji and raven do what they are known to do, an association is found for the host, and its
  -- events are marshalled to a JSON text with no percent sign, a GET or HEAD request for
  -- /index.json is answered with the status 200 and this text as JSON.
  pub api-json :
      covers index_path r ≡ true
      → c.response ≡ fresh
      → store.first_by_host r.host c.world.database ≡ ok a
      → p.marshal (table.find_events a.id c.world.database) ≡ ok json
      → is_plain (codes json) ≡ true
      → (api p app store table rails r c).1.response
        ≡ record { status = some 200; content_type = some "application/json"; body = codes json }
  api-json e new found marshalled plain =
      sent_json e new found marshalled
      ∙ ap (λ t. record { status = some 200; content_type = some "application/json"; body = t })
          (fprintf-plain (codes json) plain)

  -- If goji and raven do what they are known to do, an association is found for the host, and its
  -- events are marshalled to a JSON text whose first percent sign stands before a letter, the body
  -- of the answer for /index.json is another text.
  pub api-garbled :
      (s : List ℕ) (l : ℕ) (t : List ℕ)
      → covers index_path r ≡ true
      → c.response ≡ fresh
      → store.first_by_host r.host c.world.database ≡ ok a
      → p.marshal (table.find_events a.id c.world.database) ≡ ok json
      → codes json ≡ s ++ (b'%' ∷ l ∷ t)
      → is_plain s ≡ true
      → is_letter l ≡ true
      → (api p app store table rails r c).1.response.body ≢ codes json
  api-garbled s l t e new found marshalled text plain letter same = fprintf-ne s l t plain letter (
      sym (ap fprintf text)
      ∙ sym (ap (λ (x : Response). x.body) (sent_json e new found marshalled))
      ∙ same
      ∙ text)
