-- ===== src/Jest/Transforms.antt =====
-- Which files the tests get a component for.
use dawn_patrol.Prelude.{String, codes, ◌<>◌, ◌≡◌, refl, if◌then◌else◌}
use dawn_patrol.Regex.Suffix.{is_suffix, test-suffix}
use dawn_patrol.Jest.{Names, svg_module, process_file}

-- A file whose name ends in .svg gives a component, and any other file its quoted base name.
pub process_file-is_suffix :
    (names : Names) (src filename : String)
    → process_file names src filename ≡ (
        if is_suffix (codes ".svg") (codes filename)
        then svg_module
            ("Svg" <> names.pascal_case (names.stem filename))
            (names.quote (names.basename filename))
        else "module.exports = " <> (names.quote (names.basename filename) <> ";"))
unfolding process_file
process_file-is_suffix names src filename = rw (test-suffix (codes ".svg") filename) refl
