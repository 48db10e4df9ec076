-- ===== src/Server/Transactions.antt =====
-- What New Relic is told of a request: transactions, and the services that open them.
pub mod Balance
use dawn_patrol.Prelude.{
  ℕ, zero, suc, ◌+◌, String, Bool, true, false, Option, none, some, List, [], ◌∷◌, ◌++◌, ◌≡◌, refl,
  sym, ap, subst, ◌∙◌, inl, inr, arith, Result, ok, throw, Result-cases, Bool-cases,
}
use mathlib.Core.List.{append-nil, append_assoc}
use dawn_patrol.Api.{Association, Event}
use dawn_patrol.Api.Services.{AssociationService, EventService}
use dawn_patrol.Api.Associations.{Store}
use dawn_patrol.Api.Events.{EventTable}
use dawn_patrol.Api.Copy.{Sources, copy, create_converted, convert_all, new_association}
use dawn_patrol.Api.Rails.{Rails, read_sources, copy_rails}
use dawn_patrol.Server.{api_config}
use dawn_patrol.Api.Instrumentation.{
  World, Entry, tell, started, named, attribute, ended, traced,
  new_instrumented_association_service, new_instrumented_event_service,
}

-- With so many transactions open, the entries end each of them and each that they start.
unfoldable pub closes : ℕ → List Entry → Bool
closes zero [] = true
closes (suc open_now) [] = false
closes open_now (started t ∷ es) = closes (suc open_now) es
closes open_now (named n ∷ es) = closes open_now es
closes open_now (attribute k v ∷ es) = closes open_now es
closes zero (ended ∷ es) = false
closes (suc open_now) (ended ∷ es) = closes open_now es

closes-append :
    (a d n : ℕ) (es fs : List Entry)
    → n ≡ a + d
    → closes a es ≡ true
    → closes n (es ++ fs) ≡ closes d fs
unfolding closes
closes-append zero d n [] fs e h = ap (λ k. closes k fs) (omega arith)
closes-append (suc a) d n [] fs e h = cc
closes-append zero d n (started t ∷ es) fs e h = closes-append 1 d (suc n) es fs (omega arith) h
closes-append (suc a) d n (started t ∷ es) fs e h =
    closes-append (suc (suc a)) d (suc n) es fs (omega arith) h
closes-append zero d n (named x ∷ es) fs e h = closes-append zero d n es fs e h
closes-append (suc a) d n (named x ∷ es) fs e h = closes-append (suc a) d n es fs e h
closes-append zero d n (attribute k v ∷ es) fs e h = closes-append zero d n es fs e h
closes-append (suc a) d n (attribute k v ∷ es) fs e h = closes-append (suc a) d n es fs e h
closes-append zero d n (ended ∷ es) fs e h = cc
closes-append (suc a) d zero (ended ∷ es) fs e h = absurd (omega arith)
closes-append (suc a) d (suc n) (ended ∷ es) fs e h = closes-append a d n es fs (omega arith) h

-- What is told between two points ends every transaction that it starts.
abbrev pub Closes : List Entry → List Entry → Type 0
Closes before after = (es : List Entry) × (after ≡ before ++ es) × (closes 0 es ≡ true)

pub Closes-refl : (l : List Entry) → Closes l l
unfolding closes
Closes-refl l = ([], sym (append-nil l), refl)

pub Closes-trans : (l m n : List Entry) → Closes l m → Closes m n → Closes l n
Closes-trans l m n (es, e, c) (fs, f, d) = (
  es ++ fs,
  f ∙ ap (λ x. x ++ fs) e ∙ append_assoc l es fs,
  closes-append 0 0 0 es fs (omega arith) c ∙ d,
)

-- Entries that start or end nothing.
abbrev pub Notes : List Entry → Type 0
Notes notes = (n : ℕ) (fs : List Entry) → closes n (notes ++ fs) ≡ closes n fs

-- The start of one transaction, what is told within it, and its end.
pub Closes-around :
    (l m : List Entry) (t : String) (notes : List Entry)
    → Notes notes
    → Closes (l ++ (started t ∷ notes)) m
    → Closes l (m ++ (ended ∷ []))
unfolding closes
Closes-around l m t notes skip (es, e, c) = (
  (started t ∷ notes) ++ (es ++ (ended ∷ [])),
  ap (λ x. x ++ (ended ∷ [])) e
      ∙ append_assoc (l ++ (started t ∷ notes)) es (ended ∷ [])
      ∙ append_assoc l (started t ∷ notes) (es ++ (ended ∷ [])),
  skip 1 (es ++ (ended ∷ [])) ∙ closes-append 0 1 1 es (ended ∷ []) (omega arith) c,
)

named-Notes : (n : String) → Notes (named n ∷ [])
unfolding closes
named-Notes n zero fs = refl
named-Notes n (suc k) fs = refl

asked-Notes : (n key value : String) → Notes (named n ∷ attribute key value ∷ [])
unfolding closes
asked-Notes n key value zero fs = refl
asked-Notes n key value (suc k) fs = refl

pub none-Notes : Notes []
none-Notes n fs = refl

-- One call of a service.
Closes-call :
    (l : List Entry) (t : String) (notes : List Entry)
    → Notes notes
    → Closes l ((l ++ (started t ∷ notes)) ++ (ended ∷ []))
Closes-call l t notes skip =
    Closes-around l (l ++ (started t ∷ notes)) t notes skip (Closes-refl (l ++ (started t ∷ notes)))

module _ {S : Type 0} where
  abbrev pub Closed : World S → World S → Type 0
  Closed w v = Closes w.transactions v.transactions

  -- What the handlers ask of the services.
  pub record IsClosed (associations : AssociationService (World S))
      (events : EventService (World S)) : Type 0 where
    pub by_host : (host : String) (w : World S) → Closed w (associations.first_by_host host w).1
    pub created : (a : Association) (w : World S) → Closed w (associations.first_or_create a w).1
    pub found : (a : Association) (w : World S) → Closed w (events.find a w).1
    pub inserted : (es : List Event) (w : World S) → Closed w (events.create es w).1

module _ {S : Type 0} (store : Store S) (table : EventTable S) (rails : Rails) where
  pub api_config-IsClosed :
      (app : Option String)
      → IsClosed
          (api_config app store table rails).association_service
          (api_config app store table rails).event_service
  unfolding api_config traced new_instrumented_association_service new_instrumented_event_service
  api_config-IsClosed none = record {
    by_host = λ host w. Closes-refl w.transactions;
    created = λ a w. Closes-refl w.transactions;
    found = λ a w. Closes-refl w.transactions;
    inserted = λ es w. Closes-refl w.transactions;
  }
  api_config-IsClosed (some app) = record {
    by_host = λ host w. Closes-call w.transactions _ _ (named-Notes _);
    created = λ a w. Closes-call w.transactions _ _ (named-Notes _);
    found = λ a w. Closes-call w.transactions _ _ (asked-Notes _ _ _);
    inserted = λ es w. Closes-call w.transactions _ _ (named-Notes _);
  }
