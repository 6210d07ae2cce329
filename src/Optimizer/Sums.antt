-- ===== src/Optimizer/Sums.antt =====
-- src/optimizer.c: what `opt_add_sub` makes of two additions, on the registers and the memory of a
-- processor.
use jacc.Common.{
  ℕ, ◌≡◌, refl, ap, sym, ◌∙◌, true, arith, inl, inr, List, [], ◌∷◌, Option, none, some, ltb,
  add_int, sub_int, neg_int, is_negative, IsInt, Bool-cases, take, ◌||◌,
}
use jacc.Asm.{Instruction, constant, Operand, Command}
use jacc.Asm.Codes.{is_type}
use jacc.Asm.Instructions.{is}
use jacc.Optimizer.Equality.{is_eq, signed_value}
use jacc.Optimizer.Arithmetic.{opt_add_sub, add_sub_pair}
use jacc.Optimizer.Meaning.{run_constant, run-signed_value}
use jacc.Optimizer.Machine.{Places, source, run_command, run_commands}

-- What the guard says of the two commands.
record IsPair (a b : Command) : Type 0 where
  first : (is a.type Instruction.add || is a.type Instruction.sub) ≡ true
  second : (is b.type Instruction.add || is b.type Instruction.sub) ≡ true
  from : is_type a.op1.type constant ≡ true
  to : is_type b.op1.type constant ≡ true
  same : is_eq a.op0 b.op0 ≡ true

add_sub_pair-IsPair : (a b : Command) → add_sub_pair a b ≡ true → IsPair a b
unfolding add_sub_pair
add_sub_pair-IsPair a b h = record {
  first = ground arith;
  second = ground arith;
  from = ground arith;
  to = ground arith;
  same = ground arith;
}

module _ {M : Type 0} (places : Places M) where
  source-constant :
      (o : Operand) (m : M) → is_type o.type constant ≡ true → source places o m ≡ o.value
  source-constant o m k = rw k refl

  -- The command adds its constant, with its sign, to its destination.
  run_signed :
      (c : Command) (o : Operand) (m : M)
      → (is c.type Instruction.add || is c.type Instruction.sub) ≡ true
      → is_type c.op1.type constant ≡ true
      → places.read c.op0 m ≡ places.read o m
      → ((v : ℕ) → places.write c.op0 v m ≡ places.write o v m)
      → IsInt (places.read o m)
      → IsInt c.op1.value
      → run_command places c m
        ≡ places.write o (add_int (places.read o m) (signed_value c.type c.op1.value)) m
  run_signed c o m t k e d p h =
      d _
      ∙ ap (λ v. places.write o (run_constant c.type (places.read c.op0 m) v) m)
          (source-constant c.op1 m k)
      ∙ ap (λ x. places.write o (run_constant c.type x c.op1.value) m) e
      ∙ ap (λ v. places.write o v m) (run-signed_value c.type (places.read o m) c.op1.value t p h)

  -- The two additions as one.
  two_adds :
      (a b : Command) (m : M)
      → IsPair a b
      → places.is_place a.op0 ≡ true
      → IsInt (places.read a.op0 m)
      → IsInt a.op1.value
      → IsInt b.op1.value
      → run_commands places (a ∷ b ∷ []) m
        ≡ places.write a.op0
            (add_int
              (places.read a.op0 m)
              (add_int (signed_value a.type a.op1.value) (signed_value b.type b.op1.value)))
            m
  two_adds a b m pair p hx ha hb =
      let x = places.read a.op0 m in
      let v = signed_value a.type a.op1.value in
      let w = signed_value b.type b.op1.value in
      let y = add_int x v in
      let int : IsInt y = omega arith in
      let assoc : add_int y w ≡ add_int x (add_int v w) = omega arith in
      ap (run_command places b) (run_signed a a.op0 m pair.first pair.from refl (λ u. refl) hx ha)
      ∙ run_signed b a.op0 (places.write a.op0 y m) pair.second pair.to
          (places.same_read a.op0 b.op0 _ pair.same)
          (λ u. places.same_write a.op0 b.op0 u _ pair.same)
          (rw (places.read_write a.op0 y m p int) int) hb
      ∙ places.write_write a.op0 y _ m p
      ∙ ap (λ u. places.write a.op0 (add_int u w) m) (places.read_write a.op0 y m p int)
      ∙ ap (λ u. places.write a.op0 u m) assoc

  abbrev HasEffect : M → M → Option (ℕ × List Command) → Type 0
  HasEffect m m' none = Unit
  HasEffect m m' (some (r, cs)) = run_commands places (take r cs) m ≡ m'

  -- One command with the destination and the constant source of another.
  run_one :
      (a : Command) (t : Instruction) (v : ℕ) (m : M)
      → is_type a.op1.type constant ≡ true
      → run_commands places (record a { type = t; op1 = record (a.op1) { value = v } } ∷ []) m
        ≡ places.write a.op0 (run_constant t (places.read a.op0 m) v) m
  run_one a t v m k =
      ap (λ w. places.write a.op0 (run_constant t (places.read a.op0 m) w) m)
        (source-constant (record (a.op1) { value = v }) m k)

  add_sub-HasEffect :
      (a b : Command) (rest : List Command) (m : M)
      → places.is_place a.op0 ≡ true
      → IsInt (places.read a.op0 m)
      → IsInt a.op1.value
      → IsInt b.op1.value
      → HasEffect m (run_commands places (a ∷ b ∷ []) m) (opt_add_sub (a ∷ b ∷ rest))
  unfolding opt_add_sub
  add_sub-HasEffect a b rest m p range ha hb =
      let value = add_int (signed_value a.type a.op1.value) (signed_value b.type b.op1.value) in
      let x = places.read a.op0 m in
      let at = λ (u : ℕ). places.write a.op0 u m in
      elim (Bool-cases (add_sub_pair a b)) [
        | inr n ↦ rw n tt
        | inl h ↦
            let pair = add_sub_pair-IsPair a b h in
            let total = sym (two_adds a b m pair p range ha hb) in
            elim (Bool-cases (is_negative value)) [
              | inl s ↦
                  let sum : sub_int x (neg_int value) ≡ add_int x value = omega arith in
                  rw (h, s)
                    (run_one a Instruction.sub (neg_int value) m pair.from ∙ ap at sum ∙ total)
              | inr s ↦ elim (Bool-cases (ltb 0 value)) [
                | inl z ↦ rw (h, s, z) (run_one a Instruction.add value m pair.from ∙ total)
                | inr z ↦
                    let zero_value : value ≡ 0 = ground arith in
                    let sum : x ≡ add_int x value = omega arith in
                    rw (h, s, z) (sym (places.write_read a.op0 m p) ∙ ap at sum ∙ total)
              ]
            ]
      ]

  -- Where `opt_add_sub` fires on two commands with ints as constants, and the first destination is
  -- a 32-bit register or cell that holds an int, the commands that it leaves bring all registers and the
  -- memory to the state to which the two did. The flags are not part of it.
  pub add_sub-effect :
      (a b : Command) (rest : List Command) (r : ℕ) (cs : List Command) (m : M)
      → places.is_place a.op0 ≡ true
      → IsInt (places.read a.op0 m)
      → IsInt a.op1.value
      → IsInt b.op1.value
      → opt_add_sub (a ∷ b ∷ rest) ≡ some (r, cs)
      → run_commands places (take r cs) m ≡ run_commands places (a ∷ b ∷ []) m
  add_sub-effect a b rest r cs m p hx ha hb e = rw e at (add_sub-HasEffect a b rest m p hx ha hb)
