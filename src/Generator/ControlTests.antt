-- ===== src/Generator/ControlTests.antt =====
-- src/generator.c: the theorems on statements, with small parts.
use jacc.Common.{◌+◌, [], ◌∷◌, Bytes}
use jacc.Generator.Settings.{Settings}
use jacc.Generator.ExprTests.{g}

-- The digits of the numbers below 10.
abbrev digits : Settings
digits = record g { decimal = λ n. (48 + n) ∷ [] }

abbrev test_part : Bytes
test_part = b'c' ∷ []

abbrev first_part : Bytes
first_part = b's' ∷ []

abbrev second_part : Bytes
second_part = b't' ∷ []
