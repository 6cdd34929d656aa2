-- ===== src/Prelude/Texts.antt =====
-- Texts put together.
use Prim.Native.String.{String}

infixr 60 ◌+++◌
abbrev pub ◌+++◌ : String → String → String
String.[] +++ t = t
(String.◌∷◌ c s) +++ t = String.◌∷◌ c (s +++ t)
