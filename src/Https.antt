-- ===== src/Https.antt =====
-- web/config/getHttpsConfig.js: the certificate and key of the development server.
pub mod Laws
use dawn_patrol.Prelude.{
  String, Bool, true, false, not, Option, none, some, truthy?, is_text, if◌then◌else◌, ◌&&◌,
  or_text, Result, ok, throw, ◌>>=◌,
}
use dawn_patrol.Prelude.Object.{lookup}
use dawn_patrol.Platform.{Platform}
use dawn_patrol.Env.{Env}

-- Each error with what its message names.
pub data HttpsError : Type 0 where
  invalid_certificate : (crt_file reason : String) → HttpsError
  invalid_key : (key_file reason : String) → HttpsError
  missing_file : (type file : String) → HttpsError
  unreadable_file : (reason : String) → HttpsError

-- Node's `crypto` and `fs.readFileSync`, which throw with a message. `sample` is
-- `Buffer.from('test')`.
pub record Crypto : Type 1 where
  pub Buffer : Type 0
  pub sample : Buffer
  pub read_file : String → Result String Buffer
  pub public_encrypt : Buffer → Buffer → Result String Buffer
  pub private_decrypt : Buffer → Buffer → Result String Buffer

-- `catch (err) { throw new Error(…) }`.
abbrev pub rethrow {ℓ} :
    {A : Type ℓ} → (String → HttpsError) → Result String A → Result HttpsError A
rethrow e (ok a) = ok a
rethrow e (throw reason) = throw (e reason)

module _ (c : Crypto) where
  -- `true`, `false`, or the certificate and key.
  pub data Https : Type 0 where
    plain : Bool → Https
    certified : (cert key : c.Buffer) → Https

  unfoldable pub validate_key_and_certs :
      (cert key : c.Buffer) (key_file crt_file : String) → Result HttpsError (Unit {0})
  validate_key_and_certs cert key key_file crt_file = do
    encrypted ← rethrow (invalid_certificate crt_file) (c.public_encrypt cert c.sample)
    decrypted ← rethrow (invalid_key key_file) (c.private_decrypt key encrypted)
    ok tt

  unfoldable pub read_env_file : Platform → (file type : String) → Result HttpsError c.Buffer
  read_env_file p file type =
      if not (p.exists file)
      then throw (missing_file type file)
      else rethrow unreadable_file (c.read_file file)

  -- The branch where all three variables are set.
  unfoldable pub load_certified : Platform → (crt_file key_file : String) → Result HttpsError Https
  load_certified p crt_file key_file = do
    cert ← read_env_file p crt_file "SSL_CRT_FILE"
    key ← read_env_file p key_file "SSL_KEY_FILE"
    done ← validate_key_and_certs cert key key_file crt_file
    ok (certified cert key)

  unfoldable pub get_https_config : Platform → String → Env → Result HttpsError Https
  get_https_config p app_path env =
      let is_https = is_text (lookup "HTTPS" env) "true" in
      let crt = lookup "SSL_CRT_FILE" env in
      let key = lookup "SSL_KEY_FILE" env in
      if is_https && (truthy? crt && truthy? key)
      then load_certified p (p.resolve app_path (or_text crt ""))
          (p.resolve app_path (or_text key ""))
      else ok (plain is_https)
