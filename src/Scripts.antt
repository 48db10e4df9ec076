-- ===== src/Scripts.antt =====
-- What the three scripts of web/scripts do first: they set the mode in `process.env`, and then
-- load web/config/env.js.
pub mod Laws
pub mod TestMode
use dawn_patrol.Prelude.{String, Result}
use dawn_patrol.Prelude.Object.{insert}
use dawn_patrol.Platform.{Platform}
use dawn_patrol.Env.{Env, EnvError, read_env}

-- The first lines of build.js and start.js; the mode is "production" or "development".
unfoldable pub set_mode : String → Env → Env
set_mode mode env = insert "NODE_ENV" mode (insert "BABEL_ENV" mode env)

-- Those of test.js.
unfoldable pub set_test_mode : Env → Env
set_test_mode env = insert "PUBLIC_URL" "" (set_mode "test" env)

-- `require('../config/env')` behind them.
unfoldable pub load_mode :
    Platform → (String → Env → Env) → String → String → String → Env → Result EnvError Env
load_mode p load dotenv app_directory mode env =
    read_env p load dotenv app_directory (set_mode mode env)

unfoldable pub load_test_mode :
    Platform → (String → Env → Env) → String → String → Env → Result EnvError Env
load_test_mode p load dotenv app_directory env =
    read_env p load dotenv app_directory (set_test_mode env)
