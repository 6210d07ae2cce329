-- ===== src/Generator/Leaks.antt =====
-- src/generator.c: expressions whose code does not do what their types ask for.
use jacc.Common.{ℕ, ◌+◌, ◌-◌, ◌<◌, add_int, arith, some, [], ◌∷◌, true, false, ◌≡◌, refl, arith}
use jacc.Asm.{Instruction}
use jacc.Ast.{NodeType, Pointer, Node, binary, list, nil, cons}
use jacc.Ast.Info.{type_sym}
use jacc.Types.Symbols.{Symbol, load}
use jacc.Generator.Balance.{height_after}
use jacc.Generator.Settings.{Settings}
use jacc.Generator.Calls.{arguments_size, is_word, target, call_result, call_code, generate_call}
use jacc.Generator.Expressions.{
  items_of, call_node_code, binary_code, generate_expr, push_items, push_arguments_of,
}
use jacc.Generator.Steps.{Moves, done, ◌⨾◌, keeps, drops, read}
use jacc.Generator.Balanced.{Value}
use jacc.Generator.ExprBalance.{value-Pushes}

module _ (g : Settings) where
  sized :
      (n : Node) (s : Symbol) (m : ℕ)
      → load g.store (type_sym n) ≡ some s
      → s.size ≡ m
      → m < 4
      → arguments_size g (cons n nil) ≡ some m
  unfolding arguments_size
  sized n s m e f l = let small : add_int 0 m ≡ m = omega arith in rw (e, f, small) refl

  four_bytes :
      (n : Node) (m k : ℕ)
      → m < 4
      → Value g n 4
      → Moves g (push_items g (cons n nil)) k (k + (4 - m) + m)
  unfolding push_items
  four_bytes n m k l v =
      let same : k + 4 ≡ k + (4 - m) + m = omega arith in rw same at (value-Pushes g n 4 v k)

  -- A call of a word whose result is not wanted, with one argument, whose value has four bytes on the stack but whose type has a size `m`
  -- below 4, such as that of char, leaves 4 - m bytes on the stack.
  pub small_argument_leaks :
      (p q : Pointer) (a n : Node) (m k : ℕ) (f s : Symbol)
      → load g.store (type_sym a) ≡ some f
      → load g.store (type_sym n) ≡ some s
      → s.size ≡ m
      → m < 4
      → is_word g p ≡ some true
      → Value g n 4
      → Moves g
          (generate_expr g (binary NodeType.call_node p a (list q (cons n nil))) false)
          k
          (k + (4 - m))
  unfolding generate_expr push_items push_arguments_of binary_code call_node_code generate_call
      call_code items_of call_result height_after
  small_argument_leaks p q a n m k f s callee argument size l word v =
      let rest = k + (4 - m) in
      rw (sized n s m argument size l, callee)
        ((four_bytes n m k l v
          ⨾ keeps g Instruction.call (target g f ∷ []) (rest + m) refl
          ⨾ drops g m rest
          ⨾ read g (is_word g p) (λ b. call_result g p b false) true rest rest word done.moves
          ⨾ done).moves)
