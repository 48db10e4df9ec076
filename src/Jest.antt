-- ===== src/Jest.antt =====
-- web/config/jest/fileTransform.js, web/config/jest/cssTransform.js and web/config/pnpTs.js: what
-- the tests and the type checker get in place of files. JSON.stringify on strings is `quote`, and
-- camelcase and ts-pnp are parameters.
pub mod Transforms
use dawn_patrol.Prelude.{String, ◌<>◌, List, [], ◌∷◌, join, if◌then◌else◌}
use dawn_patrol.Regex.{Regex, seq, anything, lit, test}

-- `process` and `getCacheKey` of cssTransform.js.
unfoldable pub process_css : String
process_css = "module.exports = {};"

unfoldable pub cache_key_css : String
cache_key_css = "cssTransform"

-- What fileTransform.js calls: `path.basename`, `path.parse(…).name`, JSON.stringify and camelcase
-- with `pascalCase`.
pub record Names : Type 0 where
  pub basename : String → String
  pub stem : String → String
  pub quote : String → String
  pub pascal_case : String → String

-- `/\.svg$/`.
abbrev pub svg_regex : Regex
svg_regex = seq anything (lit ".svg")

-- The module for a picture: a component with the file's name for its children.
unfoldable pub svg_module : (component_name asset_filename : String) → String
svg_module component_name asset_filename = join "\n" (
    "const React = require('react');"
    ∷ "      module.exports = {"
    ∷ "        __esModule: true,"
    ∷ ("        default: " <> (asset_filename <> ","))
    ∷ ("        ReactComponent: React.forwardRef(function " <> (component_name <> "(props, ref) {"))
    ∷ "          return {"
    ∷ "            $$typeof: Symbol.for('react.element'),"
    ∷ "            type: 'svg',"
    ∷ "            ref: ref,"
    ∷ "            key: null,"
    ∷ "            props: Object.assign({}, props, {"
    ∷ ("              children: " <> asset_filename)
    ∷ "            })"
    ∷ "          };"
    ∷ "        }),"
    ∷ "      };"
    ∷ [])

-- `process` of fileTransform.js.
unfoldable pub process_file : Names → (src filename : String) → String
unfolding svg_module
process_file names src filename =
    if test svg_regex filename
    then svg_module ("Svg" <> names.pascal_case (names.stem filename))
        (names.quote (names.basename filename))
    else "module.exports = " <> (names.quote (names.basename filename) <> ";")

-- The functions of `typescript` that pnpTs.js passes on, over the types of ts-pnp.
pub record Typescript (F : Type 0) : Type 0 where
  pub resolve_module_name : F
  pub resolve_type_reference_directive : F

module _ {F O H R : Type 0} (ts_pnp : String → String → O → H → F → R) where
  -- The two exports of pnpTs.js; `ts_pnp` is `resolveModuleName` of ts-pnp.
  unfoldable pub resolve_module_name : Typescript F → String → String → O → H → R
  resolve_module_name typescript module_name containing_file options host =
      ts_pnp module_name containing_file options host typescript.resolve_module_name

  unfoldable pub resolve_type_reference_directive : Typescript F → String → String → O → H → R
  resolve_type_reference_directive typescript module_name containing_file options host =
      ts_pnp module_name containing_file options host typescript.resolve_type_reference_directive
