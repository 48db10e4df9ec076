-- ===== src/Start/Settings.antt =====
-- web/scripts/start.js, the port and the protocol.
use dawn_patrol.Prelude.{
  ℕ, ◌<◌, String, codes, true, false, Option, none, some, List, ◌≡◌, ◌≢◌, ◌↔◌, arith, is_text,
  Result, ok, eq_iff, sym, ◌∙◌, Bool-cases, inl, inr,
}
use dawn_patrol.Prelude.Object.{lookup}
use dawn_patrol.Platform.{Platform}
use dawn_patrol.Env.{Env}
use dawn_patrol.ParseInt.{number}
use dawn_patrol.ParseInt.Decimal.{print_decimal, EndsDigits, parse_int-print_decimal}
use dawn_patrol.Https.Laws.{asks_cases, loads-IsUsable}
use dawn_patrol.Https.{HttpsError, Crypto, Https, plain, get_https_config}
use dawn_patrol.Start.{default_port, protocol}

-- If PORT is a positive number in decimal, with anything behind it but a further digit, it is the
-- default port.
pub default_port-print_decimal :
    (env : Env) (text : String) (n : ℕ) (out : List ℕ)
    → lookup "PORT" env ≡ some text
    → codes text ≡ print_decimal n out
    → EndsDigits out
    → 0 < n
    → default_port env ≡ number false n
unfolding default_port
default_port-print_decimal env text n out set printed ends positive =
    let reads = parse_int-print_decimal text n out printed ends in ground arith

some-is_text : (o : Option String) → o ≡ some "true" → is_text o "true" ≡ true
some-is_text none h = cc
some-is_text (some s) h = ground (arith, eq_iff s "true")

protocol_of_https :
    (env : Env) → is_text (lookup "HTTPS" env) "true" ≡ true → protocol env ≡ "https"
unfolding protocol
protocol_of_https env h = rw h

http-ne : ◌≢◌ {A = String} "http" "https"
http-ne = ground (arith, eq_iff "http" "https")

plain_protocol :
    (c : Crypto) (env : Env) (h : Https c)
    → ◌≡◌ {A = Result HttpsError (Https c)}
        (ok (plain (is_text (lookup "HTTPS" env) "true")))
        (ok h)
    → (protocol env ≡ "https") ↔ (h ≢ plain false)
unfolding protocol
plain_protocol c env h same = elim (Bool-cases (is_text (lookup "HTTPS" env) "true")) [
  | inl secure ↦ (λ _ q. cc, λ _. rw secure)
  | inr insecure ↦ (λ q. absurd (http-ne (rw insecure at q)), λ n. absurd (n (cc)))
]

-- If the HTTPS configuration is read without an error, the URLs have the protocol https exactly
-- if the server has an HTTPS configuration that is not `false`.
pub protocol-https_iff :
    (c : Crypto) (p : Platform) (app_path : String) (env : Env) (h : Https c)
    → get_https_config c p app_path env ≡ ok h
    → (protocol env ≡ "https") ↔ (h ≢ plain false)
protocol-https_iff c p app_path env h e = elim (asks_cases c p app_path env) [
  | inl ((secure, _, _), same) ↦
      let (cert, key, built, usable) = loads-IsUsable c p _ _ (sym same ∙ e) in
      (λ _ p. cc built, λ _. protocol_of_https env (some-is_text (lookup "HTTPS" env) secure))
  | inr (_, same) ↦ plain_protocol c env h (sym same ∙ e)
]
