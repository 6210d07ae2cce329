-- ===== src/Generator.antt =====
-- src/generator.c: the generation of commands.
pub mod Operands
pub mod Emit
pub mod Data
pub mod Settings
pub mod Lvalues
pub mod Statements
pub mod Calls
pub mod Cases
pub mod Expressions
pub mod Functions
pub mod Steps
pub mod LvalueBalance
pub mod CaseBalance
pub mod AssignBalance
pub mod CallBalance
pub mod Balanced
pub mod ExprBalance
pub mod Frame
pub mod FrameReturn
pub mod Control
pub mod Loops
pub mod Branches
pub mod ControlTests
pub mod DataBounds
pub mod Leaks
pub mod ExprTests
pub mod Operators
pub mod Doubles
pub mod Balance
pub mod IntBalance
pub mod DoubleBalance
pub mod Tests
