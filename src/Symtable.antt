-- ===== src/Symtable.antt =====
-- src/symtable.c, src/symtable.h: the symbol table, a hash table with chains whose nodes are also
-- linked in the order of their insertion.
-- The nodes live on a heap that only grows; an address is an index, and both the chains and the
-- list of the table hold addresses, so a write through one is seen through the other.
pub mod Keys
pub mod Lookup
pub mod Entries
pub mod Valid
pub mod Refine
pub mod Tests
use jacc.Common.{
  ℕ, suc, ◌+◌, ◌%◌, Bool, true, false, ◌&&◌, Option, none, some, List, [], ◌∷◌, ◌++◌, Bytes,
  bytes_eq, ◌==◌, if◌then◌else◌, length, get_elem?, get_or, set, replicate, ◌>>=◌, int_min,
  is_negative,
}
use jacc.Symtable.Keys.{SymbolClass, class_eq, compute_hash}

pub record Node {ℓ} (V : Type ℓ) : Type ℓ where
  pub hash : ℕ
  pub key : Bytes
  pub key2 : SymbolClass
  pub value : V

-- `size` counts the nodes of the list.
pub record Symtable {ℓ} (V : Type ℓ) : Type ℓ where
  pub capacity : ℕ
  pub size : ℕ
  pub buckets : List (List ℕ)
  pub list : List ℕ
  pub nodes : List (Node V)

-- `hash % capacity` as an index of `buckets`. `none` is a fault: a division by zero, or the
-- negative index that the hash INT_MIN, which `abs` leaves negative, gives.
unfoldable pub bucket_index : ℕ → ℕ → Option ℕ
bucket_index hash capacity =
    if capacity == 0
    then none
    else if is_negative hash
    then (if int_min % capacity == 0 then some 0 else none)
    else some (hash % capacity)

module _ {ℓ} {V : Type ℓ} where
  unfoldable pub symtable_create : ℕ → Symtable V
  symtable_create capacity = record {
    capacity = capacity;
    size = 0;
    buckets = replicate capacity [];
    list = [];
    nodes = [];
  }

  unfoldable pub symtable_size : Symtable V → ℕ
  symtable_size t = t.size

  -- the test in the loop of `find_node`
  unfoldable pub node_matches : ℕ → Bytes → SymbolClass → Node V → Bool
  node_matches h k c n = n.hash == h && (class_eq n.key2 c && bytes_eq n.key k)

  unfoldable pub address_matches : ℕ → Bytes → SymbolClass → Option (Node V) → Bool
  unfolding node_matches
  address_matches h k c none = false
  address_matches h k c (some n) = node_matches h k c n

  -- the loop of `find_node` along one chain
  unfoldable pub find_in_chain : List (Node V) → ℕ → Bytes → SymbolClass → List ℕ → Option ℕ
  find_in_chain nodes h k c [] = none
  find_in_chain nodes h k c (a ∷ chain) =
      if address_matches h k c (get_elem? nodes a) then some a else find_in_chain nodes h k c chain

  -- The outer `none` is a fault, the inner one the result NULL.
  unfoldable pub find_node : Symtable V → Bytes → SymbolClass → Option (Option ℕ)
  find_node t k c = do
    i ← bucket_index (compute_hash k) t.capacity
    some (find_in_chain t.nodes (compute_hash k) k c (get_or t.buckets i []))

  unfoldable pub value_at : List (Node V) → Option ℕ → Option V
  value_at nodes none = none
  value_at nodes (some a) = elim (get_elem? nodes a) [ none ↦ none | some n ↦ some n.value ]

  unfoldable pub symtable_get : Symtable V → Bytes → SymbolClass → Option (Option V)
  unfolding find_node value_at
  symtable_get t k c = do a ← find_node t k c; some (value_at t.nodes a)

  -- `node->value = value`
  unfoldable pub set_value : List (Node V) → ℕ → V → List (Node V)
  set_value nodes a v = elim (get_elem? nodes a) [
    | none ↦ nodes
    | some n ↦ set nodes a (record n { value = v })
  ]

  -- The new node is pushed on its chain and appended to the list.
  unfoldable pub add_node : Symtable V → ℕ → Node V → Symtable V
  add_node t i n =
      let a = length t.nodes in
      record t {
        size = t.size + 1;
        buckets = set t.buckets i (a ∷ get_or t.buckets i []);
        list = t.list ++ a ∷ [];
        nodes = t.nodes ++ n ∷ [];
      }

  unfoldable pub symtable_set : Symtable V → Bytes → SymbolClass → V → Option (Symtable V)
  unfolding find_node set_value add_node
  symtable_set t k c v = do
    found ← find_node t k c
    i ← bucket_index (compute_hash k) t.capacity
    elim found [
      | some a ↦ some (record t { nodes = set_value t.nodes a v })
      | none ↦ some (add_node t i (record { hash = compute_hash k; key = k; key2 = c; value = v }))
    ]

  -- The iterator: `symtable_first`, then `symtable_iter_next` until NULL, reading each node.
  unfoldable pub iterate : List (Node V) → List ℕ → List (Bytes × SymbolClass × V)
  iterate nodes [] = []
  iterate nodes (a ∷ list) = elim (get_elem? nodes a) [
    | none ↦ iterate nodes list
    | some n ↦ (n.key, n.key2, n.value) ∷ iterate nodes list
  ]
