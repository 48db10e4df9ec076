-- ===== src/Https/Laws.antt =====
-- web/config/getHttpsConfig.js: when the certificate is used, and what goes wrong first.
use dawn_patrol.Prelude.{
  String, Bool, true, Option, none, some, ◌≡◌, ◌↔◌, ◌⊎◌, inl, inr, sym, ap, ◌∙◌, ◌&&◌, eq_refl,
  arith, eq_iff, truthy?, is_text, or_text, Result, ok, throw, Bool-cases, >>=-eq-ok,
}
use mathlib.Core.Path.{subst₂}
use dawn_patrol.Prelude.Object.{lookup}
use dawn_patrol.Platform.{Platform}
use dawn_patrol.Env.{Env}
use dawn_patrol.Https.{
  HttpsError, invalid_certificate, invalid_key, unreadable_file, Crypto, Https, plain, certified,
  rethrow, validate_key_and_certs, read_env_file, load_certified, get_https_config,
}

module _ (c : Crypto) (p : Platform) where
  -- Two files that exist and are read, whose certificate encrypts the sample and whose key
  -- decrypts the result.
  pub record IsUsable (crt_file key_file : String) (cert key : c.Buffer) : Type 0 where
    pub encrypted : c.Buffer
    pub decrypted : c.Buffer
    pub crt_exists : p.exists crt_file ≡ true
    pub key_exists : p.exists key_file ≡ true
    pub crt_read : c.read_file crt_file ≡ ok cert
    pub key_read : c.read_file key_file ≡ ok key
    pub crt_valid : c.public_encrypt cert c.sample ≡ ok encrypted
    pub key_valid : c.private_decrypt key encrypted ≡ ok decrypted

  usable_loads :
      (crt_file key_file : String) (cert key : c.Buffer)
      → IsUsable crt_file key_file cert key
      → load_certified c p crt_file key_file ≡ ok (certified cert key)
  unfolding load_certified read_env_file validate_key_and_certs
  usable_loads crt_file key_file cert key u =
      simp (u.crt_exists, u.key_exists, u.crt_read, u.key_read, u.crt_valid, u.key_valid)

  rethrow-eq-ok :
      (e : String → HttpsError) (r : Result String c.Buffer) {b : c.Buffer}
      → rethrow e r ≡ ok b
      → r ≡ ok b
  rethrow-eq-ok e (ok a) h = cc
  rethrow-eq-ok e (throw reason) h = cc

  read_env_file-ok :
      (file type : String) {b : c.Buffer}
      → read_env_file c p file type ≡ ok b
      → (p.exists file ≡ true) × (c.read_file file ≡ ok b)
  unfolding read_env_file
  read_env_file-ok file type h = elim (Bool-cases (p.exists file)) [
    | inl e ↦ (e, rethrow-eq-ok unreadable_file (c.read_file file) (rw e at h))
    | inr e ↦ absurd (ground arith)
  ]

  validate-ok :
      (cert key : c.Buffer) (key_file crt_file : String)
      → validate_key_and_certs c cert key key_file crt_file ≡ ok tt
      → (e d : c.Buffer) × (c.public_encrypt cert c.sample ≡ ok e)
        × (c.private_decrypt key e ≡ ok d)
  unfolding validate_key_and_certs
  validate-ok cert key key_file crt_file h =
      let (e, encrypts, rest) = >>=-eq-ok _ _ h in
      let (d, decrypts, done) = >>=-eq-ok _ _ rest in
      (
        e,
        d,
        rethrow-eq-ok (invalid_certificate crt_file) _ encrypts,
        rethrow-eq-ok (invalid_key key_file) _ decrypts,
      )

  pub loads-IsUsable :
      (crt_file key_file : String) {h : Https c}
      → load_certified c p crt_file key_file ≡ ok h
      → (cert key : c.Buffer) × (h ≡ certified cert key) × IsUsable crt_file key_file cert key
  unfolding load_certified
  loads-IsUsable crt_file key_file h =
      let (cert, cert_is, rest) = >>=-eq-ok _ _ h in
      let (key, key_is, rest') = >>=-eq-ok _ _ rest in
      let (unit, valid, done) = >>=-eq-ok _ _ rest' in
      let (e, d, encrypts, decrypts) = validate-ok cert key key_file crt_file valid in
      let (crt_exists, crt_read) = read_env_file-ok crt_file "SSL_CRT_FILE" cert_is in
      let (key_exists, key_read) = read_env_file-ok key_file "SSL_KEY_FILE" key_is in
      (
        cert,
        key,
        cc,
        record {
          encrypted = e;
          decrypted = d;
          crt_exists = crt_exists;
          key_exists = key_exists;
          crt_read = crt_read;
          key_read = key_read;
          crt_valid = encrypts;
          key_valid = decrypts;
        },
      )

  certified_inj :
      (a b a' b' : c.Buffer)
      → ◌≡◌ {A = Https c} (certified a b) (certified a' b')
      → (a ≡ a') × (b ≡ b')
  certified_inj a b a' b' h = (cc, cc)

  transport-IsUsable :
      (crt_file key_file : String) {a b a' b' : c.Buffer}
      → ◌≡◌ {A = Https c} (certified a b) (certified a' b')
      → IsUsable crt_file key_file a' b'
      → IsUsable crt_file key_file a b
  transport-IsUsable crt_file key_file {a} {b} {a'} {b'} h u =
      let (same, same') = certified_inj a b a' b' h in
      subst₂ (λ x y. IsUsable crt_file key_file x y) (sym same) (sym same') u

  plain_inj :
      (a b : Bool) → ◌≡◌ {A = Result HttpsError (Https c)} (ok (plain a)) (ok (plain b)) → a ≡ b
  plain_inj a b h = cc

  is_text_iff : (o : Option String) (t : String) → (is_text o t ≡ true) ↔ (o ≡ some t)
  is_text_iff none t = (λ h. cc, λ h. cc)
  is_text_iff (some s) t = ground (arith, eq_iff s t)

  -- All three variables are set.
  abbrev pub AsksForFiles : Env → Type 0
  AsksForFiles env =
      (lookup "HTTPS" env ≡ some "true")
      × (truthy? (lookup "SSL_CRT_FILE" env) ≡ true)
      × (truthy? (lookup "SSL_KEY_FILE" env) ≡ true)

  -- The file that a variable names.
  abbrev pub file_of : String → String → Env → String
  file_of app_path name env = p.resolve app_path (or_text (lookup name env) "")

  pub asks_cases :
      (app_path : String) (env : Env)
      → (AsksForFiles env
          × (get_https_config c p app_path env
              ≡ load_certified c p
                  (file_of app_path "SSL_CRT_FILE" env)
                  (file_of app_path "SSL_KEY_FILE" env)))
        ⊎ ((¬ AsksForFiles env)
            × (get_https_config c p app_path env
                ≡ ok (plain (is_text (lookup "HTTPS" env) "true"))))
  unfolding get_https_config
  asks_cases app_path env =
      elim (Bool-cases (
        is_text (lookup "HTTPS" env) "true"
        && (truthy? (lookup "SSL_CRT_FILE" env) && truthy? (lookup "SSL_KEY_FILE" env)))) [
          | inl e ↦ inl (
            (ground (arith, is_text_iff (lookup "HTTPS" env) "true"), ground arith, ground arith),
            rw e,
          )
          | inr e ↦ inr ((λ asked. ground (arith, asked.0, asked.1, asked.2, eq_refl "true")), rw e)
        ]

  -- The server gets this certificate and key exactly if HTTPS is "true", both files are named,
  -- exist and are read, and the key decrypts what the certificate encrypts.
  pub get_https_config-certified_iff :
      (app_path : String) (env : Env) (cert key : c.Buffer)
      → (get_https_config c p app_path env ≡ ok (certified cert key)) ↔ (
          AsksForFiles env
          × IsUsable
              (file_of app_path "SSL_CRT_FILE" env)
              (file_of app_path "SSL_KEY_FILE" env)
              cert
              key)
  get_https_config-certified_iff app_path env cert key = elim (asks_cases app_path env) [
    | inl (asked, same) ↦ (
      λ h.
          let (cert', key', built, usable) = loads-IsUsable _ _ (sym same ∙ h) in
          (asked, transport-IsUsable _ _ built usable),
      λ h. same ∙ usable_loads _ _ cert key h.1,
    )
    | inr (unasked, same) ↦ (λ h. cc (sym same ∙ h), λ h. absurd (unasked h.0))
  ]

  -- It gets a plain answer exactly if one of the three is not set; the answer is whether HTTPS is
  -- "true".
  pub get_https_config-plain_iff :
      (app_path : String) (env : Env) (b : Bool)
      → (get_https_config c p app_path env ≡ ok (plain b))
        ↔ ((¬ AsksForFiles env) × (b ≡ is_text (lookup "HTTPS" env) "true"))
  get_https_config-plain_iff app_path env b = elim (asks_cases app_path env) [
    | inl (asked, same) ↦ (
      λ h. let (cert, key, built, usable) = loads-IsUsable _ _ (sym same ∙ h) in cc built,
      λ h. absurd (h.0 asked),
    )
    | inr (unasked, same) ↦
        (λ h. (unasked, plain_inj _ _ (sym h ∙ same)), λ h. same ∙ ap (λ x. ok (plain x)) (sym h.1))
  ]
