-- ===== src/Asm.antt =====
-- src/generator.h, with the tables commands.def and registers.def that it expands: instructions,
-- registers, operands and commands.
pub mod Instructions
pub mod Codes
use jacc.Common.{ℕ, List, Bytes}

pub data Instruction : Type 0 where
  text add sub mul imul imul2 div idiv sal sar shl shr neg inc dec xor or and not : Instruction
  cdq mov lea push pop cmp test jmp jz jnz je jne jl jle jg jge setz setnz sete : Instruction
  setne setl setle setg setge seta setae setb setbe call ret nop ffreep fld fldz : Instruction
  fld1 fild fst fstp fisttp fistp fcomip faddp fsubp fmulp fdivp fchs : Instruction

pub data Register : Type 0 where
  none_reg eax ebx ecx edx esi edi esp ebp al bl cl dl ah bh ch dh st0 st1 st2 st3 : Register
  st4 st5 st6 st7 : Register

-- AOT_REGISTER, AOT_MEMORY, AOT_CONSTANT, AOT_LABEL
pub data OperandType : Type 0 where
  register memory constant label : OperandType

pub data OperandSize : Type 0 where
  byte word dword qword : OperandSize

-- `name` is the address of the text, 0 for NULL.
pub record Label : Type 0 where
  pub id : ℕ
  pub name : ℕ

-- asm_reg_or_label_operand_t
pub record RegOrLabel : Type 0 where
  pub type : OperandType
  pub reg : Register
  pub label : Label

-- the nested struct `memory` of an operand
pub record Memory : Type 0 where
  pub base : RegOrLabel
  pub index : RegOrLabel
  pub size : OperandSize
  pub offset : ℕ
  pub scale : ℕ

-- All fields are there at once, whatever the type: the source has no union here.
pub record Operand : Type 0 where
  pub type : OperandType
  pub reg : Register
  pub label : Label
  pub memory : Memory
  pub value : ℕ

-- `op0` and `op1` are `ops[0]` and `ops[1]`; `text` holds the characters of a TEXT command.
pub record Command : Type 0 where
  pub type : Instruction
  pub op0 : Operand
  pub op1 : Operand
  pub text : Bytes
