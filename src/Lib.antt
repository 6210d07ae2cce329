-- ===== src/Lib.antt =====
-- jacc, a compiler from C to 32-bit assembly, with its data structures, its lexer, its types, its code
-- generator and its peephole optimizer.
--
-- The lexer turns the bytes of a file into tokens; the parser turns these into trees over the symbol
-- table; the generator emits a list of assembly commands from the trees, and the optimizer rewrites
-- that list until no pass matches. Growing buffers hold texts, and a pool holds pointers that are
-- freed together.
--
-- Common holds what the components share: the libraries' names, Boolean tests on the native numbers,
-- lists measured by them, C strings as lists of bytes, and the type int as a bit pattern below 2 ^ 32
-- whose arithmetic wraps around.
--
-- Symtable (src/symtable.c) keeps the nodes on a store whose addresses the chains and the list share.
-- bucket_index is `hash % capacity`, find_node and find_in_chain are find_node, symtable_get and
-- symtable_set have the names of the source, and iterate is the walk with symtable_first and
-- symtable_iter_next. A fault (an index outside of the buckets) is none. Symtable/Lookup and
-- Symtable/Entries hold the abstract table, an association list in the order of insertion;
-- Symtable/Valid and Symtable/Refine the invariant and the proofs. symtable_destroy is left out: it
-- only frees.
--
-- Buffer (src/buffer.c) holds the allocated block as a list of bytes whose length is the number of
-- bytes that was asked for; a read or write outside is none. The sums of `used` wrap around, as ints do. What fresh memory holds is the parameter
-- `fresh`. Pull (src/pull.c) is a list of blocks of pointers; freeing gives the freed pointers and
-- blocks as results.
--
-- Asm (src/generator.h with src/commands.def and src/registers.def) has the commands that generator
-- and optimizer share.
--
-- Optimizer (src/optimizer.c) has the thirteen passes in Optimizer/Passes, Optimizer/Moves and
-- Optimizer/Arithmetic. A pass takes the commands from the place where it is tried on, and gives its
-- result with the changed commands, or none for -1. Optimizer/Loop is optimizer_optimize: sweep_step
-- is one iteration over `i`, sweep_loop one sweep with fuel, optimize_loop the loop over `changed` with
-- a bound on the rounds. A fuel above weight plus length, and more rounds than the weight, are enough.
-- The weight counts a command 2, IMUL2 3 and NOP 0, and every pass that matches makes it smaller.
-- Optimizer/Window, Optimizer/InPlace and Optimizer/Compact lead from the loop in place to a rewriting
-- of lists, Optimizer/Progress to the end of the loops; Optimizer/Meaning and Optimizer/Division give the
-- meaning of passes on values, Optimizer/Sums on the registers and the memory of the processor of
-- Optimizer/Machine, and Optimizer/Jumps on registers and the zero flag.
--
-- Lexer (src/lexer.c, src/lexer.h, src/tokens.def): the record Lexer of Lexer/Stream has the file's
-- globals and the token that is being read. `fread` gives as many bytes as there are, up to 4096. The
-- buffers of the lexer stand for their contents. Lexer/Numbers, Lexer/Punctuators, Lexer/Texts and
-- Lexer/Next have the operations under the names of the source; the body of a loop and a branch of a
-- long function have names of their own. A loop has as fuel one more than the bytes that are left in
-- the file and the characters of lookahead. Lexer/Ends is about the ends of the loops, Lexer/Source
-- and Lexer/Text about what is read, and Lexer/Digits about the value of digits. The message of lexer_error goes to a list on the token. The value
-- of a float constant is the text that `sscanf` reads. lexer_token_type_name, lexer_token_value and
-- lexer_token_free_data print and free, and are left out.
--
-- Ast (src/parser.h, src/nodes.def) has the trees: the constructors of Node stand for struct node and
-- the structs that extend it, by the number of operands, and a pointer to a symbol is its address, with
-- none for NULL. Ast/Info has the table nodes_info and the functions that read nodes.
--
-- Types (src/parser.c, src/symtable.h): Types/Symbols has struct symbol and the store of all symbols and
-- symbol tables, in which the addresses of the built-in types are fixed; Types/Resolve resolve_alias,
-- get_callable and get_generic_type; Types/Compatible is_compatible_types with fuel for its recursion,
-- which does not end on every store; Types/Arithmetic the common type of numbers, the casts of operands
-- and the types of operators. A fault, such as a read through NULL, is none. resolve_alias has one more
-- step than there are symbols, which is enough where no alias leads back to itself. Types/Compatible
-- has proofs in Symmetry, Fuel and Cycles, and Types/Arithmetic in Common, Operands and Typing.
--
-- Scopes (src/parser.c) is the stack of symbol tables, with the array symtables as a list whose head is
-- the table of the innermost scope, on top of Symtable and Pull: push_symtable, pop_symtable,
-- put_symbol and get_symbol. Scopes/Association is about association lists, Scopes/Lookup, Puts and
-- Ends about lookups.
--
-- Generator (src/generator.c): Generator/Operands has the operands, Generator/Emit the functions that
-- add to the code, with the record Code for `cur_code`, `label_counter` and the labels of global
-- variables. The fields that the source leaves unset are those of the parameter `blank`, and `decimal`
-- is what `vsprintf` writes for a number. Generator/Operators and Generator/Doubles have the operators
-- on int and on double; the code of an operand, which the source generates by a recursive call, is an
-- argument of theirs, as it is in Generator/Lvalues (the cases of lvalue), Generator/Statements
-- (generate_statement), Generator/Calls (calls and casts) and Generator/Cases (the other cases of
-- generate_expr). Generator/Expressions ties the recursion over the trees: generate_expr and lvalue.
-- Generator/Functions has generate_function, generator_init and generator_process. Generator/Settings
-- holds what the generation of a function reads, among it the store of Types. A read through NULL, a
-- comparison of types that does not end and a failed assertion set the field `fault`.
-- Generator/Balance counts the bytes on the machine's stack along a list of commands, in the order in
-- which they stand; Generator/IntBalance and Generator/DoubleBalance apply it to the operators,
-- Generator/LvalueBalance, CaseBalance, AssignBalance and CallBalance to the cases, and
-- Generator/ExprBalance to the trees that Generator/Balanced describes. These leave out the conditional
-- operator whose value is wanted, as each of its branches pushes it, and the
-- operators of Generator/Leaks, whose code is wrong. Generator/Frame runs the commands
-- in front of and behind the body of a function on ESP, EBP and the words of the stack, and
-- Generator/FrameReturn is about what `ret` finds. Generator/Control runs the code of a statement with
-- its labels, its jumps and the values of its conditions, where a text stands for the code of each
-- part, as generate_statement takes it from a recursive call; Generator/Loops and Generator/Branches
-- are about the while and the if statement. Generator/DataBounds is about the buffers of the
-- texts.
--
-- Not modelled: the grammar of src/parser.c, the layout of structures and the types of members, calls
-- and initializers; generator_print_code, print_operand and print_command of src/generator.c, which
-- print; src/main.c and src/log.c, which read and print; and src/memory.c, whose functions wrap the
-- allocator and end the program when memory runs out.
pub mod Common
pub mod Symtable
pub mod Buffer
pub mod Pull
pub mod Asm
pub mod Ast
pub mod Types
pub mod Scopes
pub mod Optimizer
pub mod Lexer
pub mod Generator
