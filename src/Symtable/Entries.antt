-- ===== src/Symtable/Entries.antt =====
-- src/symtable.c: the association list that the table implements, and what the nodes of the table
-- say of it.
use jacc.Common.{
  ℕ, zero, suc, Option, none, some, List, [], ◌∷◌, ◌++◌, Bytes, if◌then◌else◌, ◌≡◌, refl, arith,
  ◌&&◌, inl, inr, Bool-cases, bytes_eq, bytes_eq_sound,
}
use jacc.Symtable.Keys.{SymbolClass, class_eq, compute_hash}
use jacc.Symtable.Lookup.{Entry, All, first_match, entries, IsHashed}
use jacc.Symtable.{Node, node_matches, value_at, set_value}

module _ {ℓ} {V : Type ℓ} where
  -- The association list that the table implements.
  unfoldable pub lookup : Bytes → SymbolClass → List (Entry V) → Option V
  lookup k c [] = none
  lookup k c ((k', c', v) ∷ es) = if class_eq c' c && bytes_eq k' k then some v else lookup k c es

  unfoldable pub insert : Bytes → SymbolClass → V → List (Entry V) → List (Entry V)
  insert k c v [] = (k, c, v) ∷ []
  insert k c v ((k', c', v') ∷ es) =
      if class_eq c' c && bytes_eq k' k then (k', c', v) ∷ es else (k', c', v') ∷ insert k c v es

  pub node_matches-hashed :
      (n : Node V) (k : Bytes) (c : SymbolClass)
      → IsHashed n
      → node_matches (compute_hash k) k c n ≡ (class_eq n.key2 c && bytes_eq n.key k)
  unfolding node_matches
  node_matches-hashed n k c h = elim (Bool-cases (class_eq n.key2 c && bytes_eq n.key k)) [
    | inl e ↦ ground (arith, bytes_eq_sound n.key k)
    | inr e ↦ ground arith
  ]

  pub lookup-entries :
      (nodes : List (Node V)) (k : Bytes) (c : SymbolClass)
      → All IsHashed nodes
      → value_at nodes (first_match nodes (compute_hash k) k c) ≡ lookup k c (entries nodes)
  unfolding value_at first_match lookup entries
  lookup-entries [] k c h = refl
  lookup-entries (n ∷ nodes) k c (p, h) =
      ground (arith, node_matches-hashed n k c p, lookup-entries nodes k c h)

  pub insert-entries_new :
      (nodes : List (Node V)) (n : Node V)
      → All IsHashed nodes
      → n.hash ≡ compute_hash n.key
      → first_match nodes n.hash n.key n.key2 ≡ none
      → entries (nodes ++ n ∷ []) ≡ insert n.key n.key2 n.value (entries nodes)
  unfolding first_match insert entries
  insert-entries_new [] n h e p = refl
  insert-entries_new (m ∷ nodes) n (q, h) e p =
      ground (arith, node_matches-hashed m n.key n.key2 q, insert-entries_new nodes n h e)

  pub insert-entries_old :
      (nodes : List (Node V)) (k : Bytes) (c : SymbolClass) (v : V) (a : ℕ)
      → All IsHashed nodes
      → first_match nodes (compute_hash k) k c ≡ some a
      → entries (set_value nodes a v) ≡ insert k c v (entries nodes)
  unfolding first_match insert entries set_value
  insert-entries_old [] k c v a h p = cc
  insert-entries_old (m ∷ nodes) k c v zero (q, h) p = ground (arith, node_matches-hashed m k c q)
  insert-entries_old (m ∷ nodes) k c v (suc a) (q, h) p =
      ground (arith, node_matches-hashed m k c q, insert-entries_old nodes k c v a h)
