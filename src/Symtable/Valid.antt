-- ===== src/Symtable/Valid.antt =====
-- src/symtable.c: when a table is well formed, and the search in a table that is.
use jacc.Common.{
  ℕ, zero, suc, ◌+◌, ◌%◌, ◌≤◌, ◌<◌, some, List, [], ◌∷◌, ◌++◌, Bytes, length, get_elem?, get_or,
  set, ◌≡◌, ap, sym, ◌∙◌, arith, inl, inr, Bool-cases, ◌>>=◌, int_min, is_negative, length-set,
}
use jacc.Symtable.Keys.{SymbolClass, compute_hash}
use jacc.Symtable.Lookup.{All, first_match, entries, IsHashed, find_in_chain-set, first_match-set}
use jacc.Symtable.Entries.{lookup, lookup-entries}
use jacc.Symtable.{Node, Symtable, bucket_index, symtable_get, find_in_chain, find_node, set_value}

-- The addresses from `a` on, in order.
abbrev pub addresses : ℕ → ℕ → List ℕ
addresses a zero = []
addresses a (suc n) = a ∷ addresses (suc a) n

-- A power of two up to 2 ^ 31 serves as the capacity, so the hash INT_MIN does no harm.
pub bucket_index_total :
    (h n : ℕ) → 0 < n → int_min % n ≡ 0 → (i : ℕ) × (bucket_index h n ≡ some i) × (i < n)
unfolding bucket_index
bucket_index_total h n p d = elim (Bool-cases (is_negative h)) [
  | inl e ↦ (0, ground arith, p)
  | inr e ↦ (h % n, ground arith, grind arith)
]

pub All-below_mono : (m n : ℕ) (xs : List ℕ) → m ≤ n → All (λ a. a < m) xs → All (λ a. a < n) xs
All-below_mono m n [] p h = tt
All-below_mono m n (x ∷ xs) p h = (omega arith, All-below_mono m n xs p h.1)

pub addresses_end : (a n : ℕ) → addresses a n ++ (a + n) ∷ [] ≡ addresses a (suc n)
addresses_end a zero = ap (λ k. k ∷ []) (omega arith)
addresses_end a (suc n) =
    let e : a + suc n ≡ suc a + n = omega arith in rw e (ap (λ l. a ∷ l) (addresses_end (suc a) n))

pub addresses_zero : (n : ℕ) → addresses 0 n ++ n ∷ [] ≡ addresses 0 (suc n)
addresses_zero n = let e : 0 + n ≡ n = omega arith in rw e at (addresses_end 0 n)

module _ {ℓ} {V : Type ℓ} where
  pub record IsValid (t : Symtable V) : Type ℓ where
    pub positive : 0 < t.capacity
    pub divides : int_min % t.capacity ≡ 0
    pub sized : length t.buckets ≡ t.capacity
    pub counted : t.size ≡ length t.nodes
    pub listed : t.list ≡ addresses 0 (length t.nodes)
    pub hashed : All IsHashed t.nodes
    pub inside : (i : ℕ) → All (λ a. a < length t.nodes) (get_or t.buckets i [])
    pub found :
        (k : Bytes) (c : SymbolClass) (i : ℕ)
        → bucket_index (compute_hash k) t.capacity ≡ some i
        → find_in_chain t.nodes (compute_hash k) k c (get_or t.buckets i [])
          ≡ first_match t.nodes (compute_hash k) k c

  -- The chain that a key's search walks.
  module _ {t : Symtable V} (valid : IsValid t) (k : Bytes) (c : SymbolClass) where
    pub home : (i : ℕ) × (bucket_index (compute_hash k) t.capacity ≡ some i) × (i < t.capacity)
    home = bucket_index_total (compute_hash k) t.capacity valid.positive valid.divides

    pub find_node_lem : find_node t k c ≡ some (first_match t.nodes (compute_hash k) k c)
    unfolding find_node
    find_node_lem = let (i, e, _) = home in rw (e, ◌>>=◌) (ap some (valid.found k c i e))

    -- On a valid table `symtable_get` does not fault, and its result is the value that the list
    -- of entries has for the key and the class, or NULL where it has none.
    pub get-lookup : symtable_get t k c ≡ some (lookup k c (entries t.nodes))
    unfolding symtable_get
    get-lookup = rw (find_node_lem, ◌>>=◌) (ap some (lookup-entries t.nodes k c valid.hashed))

  IsHashed-set :
      (nodes : List (Node V)) (a : ℕ) (n : Node V) (v : V)
      → get_elem? nodes a ≡ some n
      → All IsHashed nodes
      → All IsHashed (set nodes a (record n { value = v }))
  IsHashed-set [] a n v e h = tt
  IsHashed-set (m ∷ nodes) zero n v e h = (ground arith, h.1)
  IsHashed-set (m ∷ nodes) (suc a) n v e h = (h.0, IsHashed-set nodes a n v e h.1)

  pub IsHashed-append :
      (nodes : List (Node V)) (n : Node V)
      → All IsHashed nodes
      → IsHashed n
      → All IsHashed (nodes ++ n ∷ [])
  IsHashed-append [] n h p = (p, tt)
  IsHashed-append (m ∷ nodes) n h p = (h.0, IsHashed-append nodes n h.1 p)

  pub set_value_lem :
      (nodes : List (Node V)) (a : ℕ) (n : Node V) (v : V)
      → get_elem? nodes a ≡ some n
      → set_value nodes a v ≡ set nodes a (record n { value = v })
  unfolding set_value
  set_value_lem nodes a n v e = rw (e, set_value)

  -- Overwriting the value of a node keeps the table valid.
  pub overwrite-IsValid :
      {t : Symtable V} (valid : IsValid t) (a : ℕ) (n : Node V) (v : V)
      → get_elem? t.nodes a ≡ some n
      → IsValid (record t { nodes = set t.nodes a (record n { value = v }) })
  overwrite-IsValid {t} valid a n v e =
      let same = length-set t.nodes a (record n { value = v }) in
      record {
        positive = valid.positive;
        divides = valid.divides;
        sized = valid.sized;
        counted = rw same valid.counted;
        listed = rw same valid.listed;
        hashed = IsHashed-set t.nodes a n v e valid.hashed;
        inside = rw same valid.inside;
        found = λ k c i p.
            find_in_chain-set t.nodes a n v (compute_hash k) k c (get_or t.buckets i []) e
            ∙ valid.found k c i p
            ∙ sym (first_match-set t.nodes a n v (compute_hash k) k c e);
      }
