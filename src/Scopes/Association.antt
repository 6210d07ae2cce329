-- ===== src/Scopes/Association.antt =====
-- src/symtable.c: what insertion into the association list does to lookups.
use jacc.Common.{
  some, List, [], ◌∷◌, Bytes, bytes_eq, bytes_eq_refl, bytes_eq_sound, true, false, ◌&&◌,
  Bool-cases, ◌≡◌, refl, inl, inr, arith,
}
use jacc.Symtable.Keys.{SymbolClass, class_eq}
use jacc.Symtable.Lookup.{Entry}
use jacc.Symtable.Entries.{lookup, insert}

class_eq_refl : (c : SymbolClass) → class_eq c c ≡ true
unfolding class_eq
class_eq_refl SymbolClass.name = refl
class_eq_refl SymbolClass.tag = refl
class_eq_refl SymbolClass.label = refl

class_eq_sound : (c d : SymbolClass) → class_eq c d ≡ true → c ≡ d
unfolding class_eq
class_eq_sound SymbolClass.name SymbolClass.name e = refl
class_eq_sound SymbolClass.tag SymbolClass.tag e = refl
class_eq_sound SymbolClass.label SymbolClass.label e = refl
class_eq_sound _ _ e = cc

module _ {ℓ} {V : Type ℓ} (k : Bytes) (c : SymbolClass) (v : V) where
  -- The new entry is found.
  pub lookup-insert : (es : List (Entry V)) → lookup k c (insert k c v es) ≡ some v
  unfolding lookup insert
  lookup-insert [] = rw (class_eq_refl c, bytes_eq_refl k) refl
  lookup-insert ((k', c', v') ∷ es) = elim (Bool-cases (class_eq c' c && bytes_eq k' k)) [
    | inl e ↦ rw (e, e) refl
    | inr e ↦ rw (e, e) (lookup-insert es)
  ]

  -- An entry of another name or class is found as before.
  pub lookup-insert_other :
      (k' : Bytes) (c' : SymbolClass) (es : List (Entry V))
      → (class_eq c c' && bytes_eq k k') ≡ false
      → lookup k' c' (insert k c v es) ≡ lookup k' c' es
  unfolding lookup insert
  lookup-insert_other k' c' [] e = rw e refl
  lookup-insert_other k' c' ((k'', c'', v'') ∷ es) e =
      elim (Bool-cases (class_eq c'' c && bytes_eq k'' k)) [
        | inl h ↦
            (let same_class : c'' ≡ c = class_eq_sound c'' c (ground arith) in
              let same_key : k'' ≡ k = bytes_eq_sound k'' k (ground arith) in
              let miss : (class_eq c'' c' && bytes_eq k'' k') ≡ false =
                rw (same_class, same_key) e in
              rw (h, miss) refl)
        | inr h ↦ rw (h, lookup-insert_other k' c' es e) refl
      ]
