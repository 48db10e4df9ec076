-- ===== src/Platform.antt =====
-- What the scripts take from Node.js: the `path` and `fs` modules, as parameters of the model.
use dawn_patrol.Prelude.{String, Char, Bool}

pub record Platform : Type 0 where
  -- `path.delimiter`
  pub delimiter : Char
  -- `path.isAbsolute`
  pub is_absolute : String → Bool
  -- `path.resolve(base, file)`
  pub resolve : String → String → String
  -- `path.relative(from, to)`
  pub relative : String → String → String
  -- `fs.existsSync`
  pub exists : String → Bool
