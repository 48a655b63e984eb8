-- ===== src/Base/Texts.antt =====
-- Texts, character by character.
use Prim.Native.String.{String, [], ◌∷◌}
use Prim.Native.Char.{Char, code}
use cruiser.Base.Tests.{if◌then◌else◌, eqb}

abbrev dash_to_underscore : Char → Char
dash_to_underscore c = if eqb (code c) b'-' then "_" else c

-- `strings.ReplaceAll(s, "-", "_")`
unfoldable pub replace_dashes : String → String
replace_dashes [] = []
replace_dashes (c ∷ s) = dash_to_underscore c ∷ replace_dashes s
