-- ===== src/Prelude/Texts.antt =====
-- Joining two texts.
use Prim.Native.String.{String, ◌++◌}

abbrev pub concat : String → String → String
concat s t = s ++ t
