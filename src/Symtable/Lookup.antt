-- ===== src/Symtable/Lookup.antt =====
-- src/symtable.c: the search along a chain against the first match among all nodes, and how both
-- change when a value is overwritten or a node is added.
use jacc.Common.{
  ℕ, zero, suc, ◌<◌, true, Option, none, some, List, [], ◌∷◌, ◌++◌, Bytes, if◌then◌else◌, length,
  get_elem?, set, ◌≡◌, refl, arith, get_elem?-append, bytes_eq_sound,
}
use jacc.Symtable.Keys.{SymbolClass, class_eq_sound, compute_hash}
use jacc.Symtable.{Node, node_matches, address_matches, find_in_chain}

abbrev pub Entry {ℓ} : Type ℓ → Type ℓ
Entry V = Bytes × SymbolClass × V

abbrev pub All {ℓ κ} : {A : Type ℓ} → (A → Type κ) → List A → Type κ
All P [] = Unit
All P (x ∷ xs) = P x × All P xs

abbrev pub up : Option ℕ → Option ℕ
up none = none
up (some i) = some (suc i)

module _ {ℓ} {V : Type ℓ} where
  unfoldable pub first_match : List (Node V) → ℕ → Bytes → SymbolClass → Option ℕ
  first_match [] h k c = none
  first_match (n ∷ nodes) h k c =
      if node_matches h k c n then some zero else up (first_match nodes h k c)

  -- The abstract table: an association list in the order of insertion.
  unfoldable pub entries : List (Node V) → List (Entry V)
  entries [] = []
  entries (n ∷ nodes) = (n.key, n.key2, n.value) ∷ entries nodes

  abbrev pub IsHashed : Node V → Type 0
  IsHashed n = n.hash ≡ compute_hash n.key

  pub node_matches_sound :
      (h : ℕ) (k : Bytes) (c : SymbolClass) (n : Node V)
      → node_matches h k c n ≡ true
      → (n.key ≡ k) × (n.key2 ≡ c)
  unfolding node_matches
  node_matches_sound h k c n e =
      (ground (arith, bytes_eq_sound n.key k), ground (arith, class_eq_sound n.key2 c))

  pub find_in_chain-append :
      (nodes : List (Node V)) (n : Node V) (h : ℕ) (k : Bytes) (c : SymbolClass) (chain : List ℕ)
      → All (λ a. a < length nodes) chain
      → find_in_chain (nodes ++ n ∷ []) h k c chain ≡ find_in_chain nodes h k c chain
  unfolding find_in_chain
  find_in_chain-append nodes n h k c [] p = refl
  find_in_chain-append nodes n h k c (a ∷ chain) p =
      rw (get_elem?-append nodes (n ∷ []) a p.0, find_in_chain-append nodes n h k c chain p.1)

  address_matches-set :
      (nodes : List (Node V)) (a b : ℕ) (n : Node V) (v : V) (h : ℕ) (k : Bytes) (c : SymbolClass)
      → get_elem? nodes a ≡ some n
      → address_matches h k c (get_elem? (set nodes a (record n { value = v })) b)
        ≡ address_matches h k c (get_elem? nodes b)
  unfolding address_matches
  address_matches-set [] a b n v h k c e = cc
  address_matches-set (m ∷ nodes) zero zero n v h k c e = ground arith
  address_matches-set (m ∷ nodes) zero (suc b) n v h k c e = refl
  address_matches-set (m ∷ nodes) (suc a) zero n v h k c e = refl
  address_matches-set (m ∷ nodes) (suc a) (suc b) n v h k c e =
      address_matches-set nodes a b n v h k c e

  pub find_in_chain-set :
      (nodes : List (Node V)) (a : ℕ) (n : Node V) (v : V) (h : ℕ) (k : Bytes) (c : SymbolClass)
      (chain : List ℕ)
      → get_elem? nodes a ≡ some n
      → find_in_chain (set nodes a (record n { value = v })) h k c chain
        ≡ find_in_chain nodes h k c chain
  unfolding find_in_chain
  find_in_chain-set nodes a n v h k c [] e = refl
  find_in_chain-set nodes a n v h k c (b ∷ chain) e =
      rw (address_matches-set nodes a b n v h k c e, find_in_chain-set nodes a n v h k c chain e)

  pub first_match-set :
      (nodes : List (Node V)) (a : ℕ) (n : Node V) (v : V) (h : ℕ) (k : Bytes) (c : SymbolClass)
      → get_elem? nodes a ≡ some n
      → first_match (set nodes a (record n { value = v })) h k c ≡ first_match nodes h k c
  unfolding first_match node_matches
  first_match-set [] a n v h k c e = refl
  first_match-set (m ∷ nodes) zero n v h k c e = ground arith
  first_match-set (m ∷ nodes) (suc a) n v h k c e = rw (first_match-set nodes a n v h k c e)

  pub first_match-append :
      (nodes : List (Node V)) (n : Node V) (h : ℕ) (k : Bytes) (c : SymbolClass)
      → first_match (nodes ++ n ∷ []) h k c ≡ elim (first_match nodes h k c) [
        | some i ↦ some i
        | none ↦ if node_matches h k c n then some (length nodes) else none
      ]
  unfolding first_match
  first_match-append [] n h k c = ground arith
  first_match-append (m ∷ nodes) n h k c = ground (arith, first_match-append nodes n h k c)

  pub first_match_inside :
      (nodes : List (Node V)) (h : ℕ) (k : Bytes) (c : SymbolClass) (a : ℕ)
      → first_match nodes h k c ≡ some a
      → (n : Node V) × (get_elem? nodes a ≡ some n) × (node_matches h k c n ≡ true)
  unfolding first_match
  first_match_inside [] h k c a e = cc
  first_match_inside (m ∷ nodes) h k c zero e = (m, ground arith, ground arith)
  first_match_inside (m ∷ nodes) h k c (suc a) e = first_match_inside nodes h k c a (ground arith)
