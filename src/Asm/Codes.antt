-- ===== src/Asm/Codes.antt =====
-- registers.def and src/generator.h: registers, operand types and sizes as the numbers that C gives
-- the constants, and the equality tests of the source on them.
use jacc.Common.{ℕ, List, [], ◌∷◌, get_elem?, some, ◌≡◌, refl, Bool, true, ◌==◌, ==_iff}
use jacc.Asm.{Register, OperandType, OperandSize}

unfoldable pub reg_code : Register → ℕ
reg_code Register.none_reg = 0
reg_code Register.eax = 1
reg_code Register.ebx = 2
reg_code Register.ecx = 3
reg_code Register.edx = 4
reg_code Register.esi = 5
reg_code Register.edi = 6
reg_code Register.esp = 7
reg_code Register.ebp = 8
reg_code Register.al = 9
reg_code Register.bl = 10
reg_code Register.cl = 11
reg_code Register.dl = 12
reg_code Register.ah = 13
reg_code Register.bh = 14
reg_code Register.ch = 15
reg_code Register.dh = 16
reg_code Register.st0 = 17
reg_code Register.st1 = 18
reg_code Register.st2 = 19
reg_code Register.st3 = 20
reg_code Register.st4 = 21
reg_code Register.st5 = 22
reg_code Register.st6 = 23
reg_code Register.st7 = 24

all_reg_codes : List Register
all_reg_codes =
    Register.none_reg ∷ Register.eax ∷ Register.ebx ∷ Register.ecx ∷ Register.edx ∷ Register.esi
    ∷ Register.edi ∷ Register.esp ∷ Register.ebp ∷ Register.al ∷ Register.bl ∷ Register.cl
    ∷ Register.dl ∷ Register.ah ∷ Register.bh ∷ Register.ch ∷ Register.dh ∷ Register.st0
    ∷ Register.st1 ∷ Register.st2 ∷ Register.st3 ∷ Register.st4 ∷ Register.st5 ∷ Register.st6
    ∷ Register.st7 ∷ []

decode-reg_code : (i : Register) → get_elem? all_reg_codes (reg_code i) ≡ some i
unfolding all_reg_codes reg_code
decode-reg_code Register.none_reg = refl
decode-reg_code _ = refl

pub reg_code_injective : (i j : Register) → reg_code i ≡ reg_code j → i ≡ j
reg_code_injective i j e = cc (decode-reg_code i, decode-reg_code j, e)

unfoldable pub type_code : OperandType → ℕ
type_code OperandType.register = 0
type_code OperandType.memory = 1
type_code OperandType.constant = 2
type_code OperandType.label = 3

all_type_codes : List OperandType
all_type_codes =
    OperandType.register ∷ OperandType.memory ∷ OperandType.constant ∷ OperandType.label ∷ []

decode-type_code : (i : OperandType) → get_elem? all_type_codes (type_code i) ≡ some i
unfolding all_type_codes type_code
decode-type_code OperandType.register = refl
decode-type_code _ = refl

pub type_code_injective : (i j : OperandType) → type_code i ≡ type_code j → i ≡ j
type_code_injective i j e = cc (decode-type_code i, decode-type_code j, e)

unfoldable pub size_code : OperandSize → ℕ
size_code OperandSize.byte = 0
size_code OperandSize.word = 1
size_code OperandSize.dword = 2
size_code OperandSize.qword = 3

all_size_codes : List OperandSize
all_size_codes = OperandSize.byte ∷ OperandSize.word ∷ OperandSize.dword ∷ OperandSize.qword ∷ []

decode-size_code : (i : OperandSize) → get_elem? all_size_codes (size_code i) ≡ some i
unfolding all_size_codes size_code
decode-size_code OperandSize.byte = refl
decode-size_code _ = refl

pub size_code_injective : (i j : OperandSize) → size_code i ≡ size_code j → i ≡ j
size_code_injective i j e = cc (decode-size_code i, decode-size_code j, e)

-- The comparisons `a == b` of the source.
abbrev pub is_reg : Register → Register → Bool
is_reg a b = reg_code a == reg_code b

abbrev pub is_type : OperandType → OperandType → Bool
is_type a b = type_code a == type_code b

abbrev pub is_size : OperandSize → OperandSize → Bool
is_size a b = size_code a == size_code b

pub is_reg_sound : (a b : Register) → is_reg a b ≡ true → a ≡ b
is_reg_sound a b h = reg_code_injective a b ((==_iff (reg_code a) (reg_code b)).0 h)

pub is_type_sound : (a b : OperandType) → is_type a b ≡ true → a ≡ b
is_type_sound a b h = type_code_injective a b ((==_iff (type_code a) (type_code b)).0 h)

pub is_size_sound : (a b : OperandSize) → is_size a b ≡ true → a ≡ b
is_size_sound a b h = size_code_injective a b ((==_iff (size_code a) (size_code b)).0 h)
