-- ===== src/Symtable/Keys.antt =====
-- src/symtable.c: the hash of a name, and equality of the second key.
use jacc.Common.{
  ℕ, ◌+◌, ◌-◌, Bool, true, false, [], ◌∷◌, Bytes, ltb, if◌then◌else◌, add_int, mul_int, neg_int,
  int_mod, is_negative, ◌≡◌, refl,
}

pub data SymbolClass : Type 0 where
  name tag label : SymbolClass

unfoldable pub class_eq : SymbolClass → SymbolClass → Bool
class_eq name name = true
class_eq tag tag = true
class_eq label label = true
class_eq _ _ = false

pub class_eq_refl : (a : SymbolClass) → class_eq a a ≡ true
unfolding class_eq
class_eq_refl name = refl
class_eq_refl tag = refl
class_eq_refl label = refl

pub class_eq_sound : (a b : SymbolClass) → class_eq a b ≡ true → a ≡ b
unfolding class_eq
class_eq_sound name name h = refl
class_eq_sound tag tag h = refl
class_eq_sound label label h = refl
class_eq_sound name tag h = cc
class_eq_sound name label h = cc
class_eq_sound tag name h = cc
class_eq_sound tag label h = cc
class_eq_sound label name h = cc
class_eq_sound label tag h = cc

-- A `char` is signed: the int that a byte promotes to.
unfoldable pub char_int : ℕ → ℕ
char_int c = if ltb c 128 then c else int_mod + c - 256

-- CHAR_MIN, that is -128
abbrev pub char_min : ℕ
char_min = int_mod - 128

unfoldable pub hash_loop : ℕ → Bytes → ℕ
unfolding char_int
hash_loop hash [] = hash
hash_loop hash (c ∷ key) = hash_loop (add_int (add_int (mul_int hash 31) (char_int c)) char_min) key

-- `abs(hash)`; the negative INT_MIN has no positive counterpart and stays.
unfoldable pub compute_hash : Bytes → ℕ
unfolding hash_loop
compute_hash key = let hash = hash_loop 17 key in if is_negative hash then neg_int hash else hash
