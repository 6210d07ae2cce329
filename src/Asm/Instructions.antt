-- ===== src/Asm/Instructions.antt =====
-- commands.def, as src/generator.h and src/generator.c expand it: the instructions as the numbers
-- that C gives the enumeration's constants, and the table of operand counts.
use jacc.Common.{ℕ, List, [], ◌∷◌, get_elem?, some, ◌≡◌, refl, Bool, true, ◌==◌, ==_iff}
use jacc.Asm.{Instruction}

unfoldable pub code : Instruction → ℕ
code Instruction.text = 0
code Instruction.add = 1
code Instruction.sub = 2
code Instruction.mul = 3
code Instruction.imul = 4
code Instruction.imul2 = 5
code Instruction.div = 6
code Instruction.idiv = 7
code Instruction.sal = 8
code Instruction.sar = 9
code Instruction.shl = 10
code Instruction.shr = 11
code Instruction.neg = 12
code Instruction.inc = 13
code Instruction.dec = 14
code Instruction.xor = 15
code Instruction.or = 16
code Instruction.and = 17
code Instruction.not = 18
code Instruction.cdq = 19
code Instruction.mov = 20
code Instruction.lea = 21
code Instruction.push = 22
code Instruction.pop = 23
code Instruction.cmp = 24
code Instruction.test = 25
code Instruction.jmp = 26
code Instruction.jz = 27
code Instruction.jnz = 28
code Instruction.je = 29
code Instruction.jne = 30
code Instruction.jl = 31
code Instruction.jle = 32
code Instruction.jg = 33
code Instruction.jge = 34
code Instruction.setz = 35
code Instruction.setnz = 36
code Instruction.sete = 37
code Instruction.setne = 38
code Instruction.setl = 39
code Instruction.setle = 40
code Instruction.setg = 41
code Instruction.setge = 42
code Instruction.seta = 43
code Instruction.setae = 44
code Instruction.setb = 45
code Instruction.setbe = 46
code Instruction.call = 47
code Instruction.ret = 48
code Instruction.nop = 49
code Instruction.ffreep = 50
code Instruction.fld = 51
code Instruction.fldz = 52
code Instruction.fld1 = 53
code Instruction.fild = 54
code Instruction.fst = 55
code Instruction.fstp = 56
code Instruction.fisttp = 57
code Instruction.fistp = 58
code Instruction.fcomip = 59
code Instruction.faddp = 60
code Instruction.fsubp = 61
code Instruction.fmulp = 62
code Instruction.fdivp = 63
code Instruction.fchs = 64

all_codes : List Instruction
all_codes =
    Instruction.text ∷ Instruction.add ∷ Instruction.sub ∷ Instruction.mul ∷ Instruction.imul
    ∷ Instruction.imul2 ∷ Instruction.div ∷ Instruction.idiv ∷ Instruction.sal ∷ Instruction.sar
    ∷ Instruction.shl ∷ Instruction.shr ∷ Instruction.neg ∷ Instruction.inc ∷ Instruction.dec
    ∷ Instruction.xor ∷ Instruction.or ∷ Instruction.and ∷ Instruction.not ∷ Instruction.cdq
    ∷ Instruction.mov ∷ Instruction.lea ∷ Instruction.push ∷ Instruction.pop ∷ Instruction.cmp
    ∷ Instruction.test ∷ Instruction.jmp ∷ Instruction.jz ∷ Instruction.jnz ∷ Instruction.je
    ∷ Instruction.jne ∷ Instruction.jl ∷ Instruction.jle ∷ Instruction.jg ∷ Instruction.jge
    ∷ Instruction.setz ∷ Instruction.setnz ∷ Instruction.sete ∷ Instruction.setne ∷ Instruction.setl
    ∷ Instruction.setle ∷ Instruction.setg ∷ Instruction.setge ∷ Instruction.seta
    ∷ Instruction.setae ∷ Instruction.setb ∷ Instruction.setbe ∷ Instruction.call ∷ Instruction.ret
    ∷ Instruction.nop ∷ Instruction.ffreep ∷ Instruction.fld ∷ Instruction.fldz ∷ Instruction.fld1
    ∷ Instruction.fild ∷ Instruction.fst ∷ Instruction.fstp ∷ Instruction.fisttp ∷ Instruction.fistp
    ∷ Instruction.fcomip ∷ Instruction.faddp ∷ Instruction.fsubp ∷ Instruction.fmulp
    ∷ Instruction.fdivp ∷ Instruction.fchs ∷ []

decode-code : (i : Instruction) → get_elem? all_codes (code i) ≡ some i
unfolding all_codes code
decode-code Instruction.text = refl
decode-code _ = refl

pub code_injective : (i j : Instruction) → code i ≡ code j → i ≡ j
code_injective i j e = cc (decode-code i, decode-code j, e)

-- `a == b`, as in `a->type == ASM_X`
abbrev pub is : Instruction → Instruction → Bool
is a b = code a == code b

pub is_sound : (a b : Instruction) → is a b ≡ true → a ≡ b
is_sound a b h = code_injective a b ((==_iff (code a) (code b)).0 h)

-- `instructions[i].op_count`
unfoldable pub op_count : Instruction → ℕ
op_count Instruction.text = 0
op_count Instruction.add = 2
op_count Instruction.sub = 2
op_count Instruction.mul = 1
op_count Instruction.imul = 1
op_count Instruction.imul2 = 2
op_count Instruction.div = 1
op_count Instruction.idiv = 1
op_count Instruction.sal = 2
op_count Instruction.sar = 2
op_count Instruction.shl = 2
op_count Instruction.shr = 2
op_count Instruction.neg = 1
op_count Instruction.inc = 1
op_count Instruction.dec = 1
op_count Instruction.xor = 2
op_count Instruction.or = 2
op_count Instruction.and = 2
op_count Instruction.not = 1
op_count Instruction.cdq = 0
op_count Instruction.mov = 2
op_count Instruction.lea = 2
op_count Instruction.push = 1
op_count Instruction.pop = 1
op_count Instruction.cmp = 2
op_count Instruction.test = 2
op_count Instruction.jmp = 1
op_count Instruction.jz = 1
op_count Instruction.jnz = 1
op_count Instruction.je = 1
op_count Instruction.jne = 1
op_count Instruction.jl = 1
op_count Instruction.jle = 1
op_count Instruction.jg = 1
op_count Instruction.jge = 1
op_count Instruction.setz = 1
op_count Instruction.setnz = 1
op_count Instruction.sete = 1
op_count Instruction.setne = 1
op_count Instruction.setl = 1
op_count Instruction.setle = 1
op_count Instruction.setg = 1
op_count Instruction.setge = 1
op_count Instruction.seta = 1
op_count Instruction.setae = 1
op_count Instruction.setb = 1
op_count Instruction.setbe = 1
op_count Instruction.call = 1
op_count Instruction.ret = 0
op_count Instruction.nop = 0
op_count Instruction.ffreep = 1
op_count Instruction.fld = 1
op_count Instruction.fldz = 0
op_count Instruction.fld1 = 0
op_count Instruction.fild = 1
op_count Instruction.fst = 1
op_count Instruction.fstp = 1
op_count Instruction.fisttp = 1
op_count Instruction.fistp = 1
op_count Instruction.fcomip = 1
op_count Instruction.faddp = 0
op_count Instruction.fsubp = 0
op_count Instruction.fmulp = 0
op_count Instruction.fdivp = 0
op_count Instruction.fchs = 0
