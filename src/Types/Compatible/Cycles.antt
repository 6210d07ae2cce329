-- ===== src/Types/Compatible/Cycles.antt =====
-- src/parser.c: is_compatible_types on a structure that holds a pointer to itself.
use jacc.Common.{ℕ, zero, suc, none, some, List, ◌∷◌, ==_iff, ◌≡◌, refl}
use jacc.Symtable.{Symtable}
use jacc.Types.Symbols.{SymbolType, Symbol, Store, load}
use jacc.Types.Resolve.{resolve_alias, get_generic_type, resolve_alias_self, is_indirect, generic}
use jacc.Types.Compatible.{
  values, all_compatible, table_at, is_compatible_symtable, is_compatible_types,
}

-- `struct s { struct s *f; ... }`: the structure at the address `a`, whose first field, at `f`, has
-- the pointer at `p` as its type.
pub record IsSelfReferring (st : Store) (a f p : ℕ) : Type 0 where
  pub struct : Symbol
  pub struct_at : load st (some a) ≡ some struct
  pub struct_is : struct.type ≡ SymbolType.struct_type
  pub fields : Symtable ℕ
  pub fields_at : table_at st struct.symtable ≡ some fields
  pub rest : List ℕ
  pub first : values fields ≡ f ∷ rest
  pub field : resolve_alias st (some f) ≡ some p
  pub pointer : Symbol
  pub pointer_at : load st (some p) ≡ some pointer
  pub pointer_is : pointer.type ≡ SymbolType.pointer
  pub points_back : pointer.base_type ≡ some a

module _ (st : Store) (a f p : ℕ) (self : IsSelfReferring st a f p) where
  resolve_struct : resolve_alias st (some a) ≡ some a
  unfolding is_indirect
  resolve_struct = resolve_alias_self st a self.struct self.struct_at (rw self.struct_is refl)

  resolve_pointer : resolve_alias st (some p) ≡ some p
  unfolding is_indirect
  resolve_pointer = resolve_alias_self st p self.pointer self.pointer_at (rw self.pointer_is refl)

  generic_struct : get_generic_type st (some a) ≡ some SymbolType.struct_type
  unfolding get_generic_type generic
  generic_struct = rw (resolve_struct, self.struct_at, self.struct_is) refl

  generic_pointer : get_generic_type st (some p) ≡ some SymbolType.pointer
  unfolding get_generic_type generic
  generic_pointer = rw (resolve_pointer, self.pointer_at, self.pointer_is) refl

  -- The comparison of the structure with itself waits for that of the field with itself.
  struct_step :
      (n : ℕ)
      → is_compatible_types n st (some f) (some f) ≡ none
      → is_compatible_types (suc n) st (some a) (some a) ≡ none
  unfolding is_compatible_types is_compatible_symtable all_compatible
  struct_step n e =
      rw
        (
          resolve_struct,
          generic_struct,
          self.struct_at,
          self.fields_at,
          self.first,
          (==_iff self.fields.size self.fields.size).1 refl,
          e,
        )
        refl

  -- And that one waits for the comparison of the structure with itself.
  field_step :
      (n : ℕ)
      → is_compatible_types n st (some a) (some a) ≡ none
      → is_compatible_types (suc n) st (some f) (some f) ≡ none
  unfolding is_compatible_types
  field_step n e = rw (self.field, generic_pointer, self.pointer_at, self.points_back, e) refl

  both_none :
      (n : ℕ)
      → (is_compatible_types n st (some a) (some a) ≡ none)
        × (is_compatible_types n st (some f) (some f) ≡ none)
  unfolding is_compatible_types
  both_none zero = (refl, refl)
  both_none (suc n) = let (s, d) = both_none n in (struct_step n d, field_step n s)

  -- A structure whose first field is a pointer to it is never found compatible or incompatible with
  -- itself: no fuel is enough, so the recursion of the source does not end.
  pub compatible_self_never : (n : ℕ) → is_compatible_types n st (some a) (some a) ≡ none
  compatible_self_never n = (both_none n).0
