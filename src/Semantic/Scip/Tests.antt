-- ===== src/Semantic/Scip/Tests.antt =====
-- A symbol with an escaped space in its package name, and the theorems of
-- scanner/src/aegify/semantic/scip_symbol.py at it.
use aegify.Base.{◌≡◌, refl, some, none, [], ◌∷◌, ◌++◌, codes, Codes}
use aegify.Semantic.Scip.Symbols.{
  ScipPackageCoordinate, ScipSymbol, space, canonical, parse_scip_symbol,
}
use aegify.Semantic.Scip.Printed.{parse_scip_symbol-canonical}
use aegify.Semantic.Scip.Parsed.{printed, parse_scip_symbol-printed}

abbrev package_of : ScipPackageCoordinate
package_of = record {
  scheme = codes "scip-java";
  manager = codes "maven";
  name = codes "org/my lib";
  version = codes "1.2";
}

abbrev descriptors : Codes
descriptors = codes "Foo#bar()."

abbrev symbol : ScipSymbol
symbol = record {
  raw = canonical package_of ++ space ∷ descriptors;
  scheme = codes "scip-java";
  package' = some package_of;
  descriptors = descriptors;
  local_id = [];
}

canonical_text : canonical package_of ≡ codes "scip-java maven org/my  lib 1.2"
unfolding canonical
canonical_text = refl

local_parsed :
    parse_scip_symbol (codes "local 7")
    ≡ some (record {
      raw = codes "local 7";
      scheme = codes "local";
      package' = none;
      descriptors = [];
      local_id = codes "7";
    })
unfolding parse_scip_symbol
local_parsed = refl

parse_scip_symbol-canonical_example :
    parse_scip_symbol (canonical package_of ++ space ∷ descriptors) ≡ some symbol
parse_scip_symbol-canonical_example =
    parse_scip_symbol-canonical package_of descriptors
      (refl, refl, (refl, refl), (refl, refl), (refl, refl)) (refl, refl)

parse_scip_symbol-printed_example :
    (printed symbol ≡ canonical package_of ++ space ∷ descriptors)
    × (symbol.raw ≡ canonical package_of ++ space ∷ descriptors)
parse_scip_symbol-printed_example =
    parse_scip_symbol-printed (canonical package_of ++ space ∷ descriptors) symbol (
      parse_scip_symbol-canonical package_of descriptors
        (refl, refl, (refl, refl), (refl, refl), (refl, refl)) (refl, refl))
