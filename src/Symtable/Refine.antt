-- ===== src/Symtable/Refine.antt =====
-- src/symtable.c: the hash table refines an association list kept in the order of insertion.
use jacc.Common.{
  ℕ, suc, ◌%◌, ◌<◌, true, none, some, List, [], ◌∷◌, ◌++◌, Bytes, ◌==◌, if◌then◌else◌, length,
  get_elem?, get_or, set, ◌≡◌, refl, ap, sym, ◌∙◌, arith, inl, inr, Bool-cases, Option-cases, ◌>>=◌,
  int_min, length-append, length-set, length-replicate, get_or-set, get_or-replicate, ==_iff,
  ==_false, ◌≢◌, get_elem?-append_end,
}
use native.Mathlib.Decide.{ℕ_discrete}
use mathlib.Core.List.{append_assoc}
use jacc.Symtable.Keys.{SymbolClass, compute_hash}
use jacc.Symtable.Lookup.{
  All, first_match, entries, IsHashed, node_matches_sound, find_in_chain-append, first_match-append,
  first_match_inside,
}
use jacc.Symtable.Valid.{
  addresses, addresses_zero, All-below_mono, IsHashed-append, set_value_lem, overwrite-IsValid,
  home, IsValid, find_node_lem,
}
use jacc.Symtable.Entries.{insert, insert-entries_new, insert-entries_old}
use jacc.Symtable.{
  Node, Symtable, bucket_index, symtable_create, symtable_set, node_matches, address_matches,
  find_in_chain, set_value, add_node, iterate,
}

module _ {ℓ} {V : Type ℓ} where
  address_matches_end :
      (nodes : List (Node V)) (n : Node V) (h : ℕ) (k : Bytes) (c : SymbolClass)
      → address_matches h k c (get_elem? (nodes ++ n ∷ []) (length nodes)) ≡ node_matches h k c n
  unfolding address_matches
  address_matches_end nodes n h k c = rw (get_elem?-append_end nodes [] n (length nodes) refl)

  -- A node whose key the table does not hold yet is found under its key, and disturbs no other.
  module _ {t : Symtable V} (valid : IsValid t) (n : Node V) (h : IsHashed n)
      (absent : first_match t.nodes n.hash n.key n.key2 ≡ none) (i : ℕ)
      (e : bucket_index n.hash t.capacity ≡ some i) (p : i < t.capacity) where
    chain_after : (j : ℕ) → List ℕ
    chain_after j = get_or (set t.buckets i (length t.nodes ∷ get_or t.buckets i [])) j []

    chain_after_lem :
        (j : ℕ)
        → chain_after j
          ≡ (if i == j then length t.nodes ∷ get_or t.buckets i [] else get_or t.buckets j [])
    unfolding chain_after
    chain_after_lem j = get_or-set t.buckets i j _ [] (rw valid.sized p)

    match_is_key :
        (k : Bytes) (c : SymbolClass)
        → node_matches (compute_hash k) k c n ≡ true
        → first_match t.nodes (compute_hash k) k c ≡ none
    match_is_key k c m =
        let q = node_matches_sound (compute_hash k) k c n m in rw (← q.0, ← q.1, ← h) absent

    -- the chain of the new node's own bucket
    found_home :
        (k : Bytes) (c : SymbolClass)
        → bucket_index (compute_hash k) t.capacity ≡ some i
        → find_in_chain
            (t.nodes ++ n ∷ [])
            (compute_hash k)
            k
            c
            (length t.nodes ∷ get_or t.buckets i [])
          ≡ first_match (t.nodes ++ n ∷ []) (compute_hash k) k c
    unfolding find_in_chain
    found_home k c r =
        rw
          (
            address_matches_end t.nodes n (compute_hash k) k c,
            first_match-append,
            find_in_chain-append t.nodes n (compute_hash k) k c (get_or t.buckets i [])
                (valid.inside i),
            valid.found k c i r,
          )
          (ground (arith, match_is_key k c))

    -- any other chain
    found_other :
        (k : Bytes) (c : SymbolClass) (j : ℕ)
        → i ≢ j
        → bucket_index (compute_hash k) t.capacity ≡ some j
        → find_in_chain (t.nodes ++ n ∷ []) (compute_hash k) k c (get_or t.buckets j [])
          ≡ first_match (t.nodes ++ n ∷ []) (compute_hash k) k c
    found_other k c j d r =
        rw
          (
            first_match-append,
            find_in_chain-append t.nodes n (compute_hash k) k c (get_or t.buckets j [])
                (valid.inside j),
            valid.found k c j r,
          )
          (elim (Bool-cases (node_matches (compute_hash k) k c n)) [
            | inl m ↦
                let q = node_matches_sound (compute_hash k) k c n m in
                let same : i ≡ j = cc (q.0) in absurd (d same)
            | inr m ↦ ground arith
          ])

    found_after :
        (k : Bytes) (c : SymbolClass) (j : ℕ)
        → bucket_index (compute_hash k) t.capacity ≡ some j
        → find_in_chain (t.nodes ++ n ∷ []) (compute_hash k) k c (chain_after j)
          ≡ first_match (t.nodes ++ n ∷ []) (compute_hash k) k c
    found_after k c j r = elim (ℕ_discrete i j) [
      | yes q ↦ rw (chain_after_lem j, (==_iff i j).1 q) (found_home k c (r ∙ ap some (sym q)))
      | no d ↦ rw (chain_after_lem j, ==_false i j d) (found_other k c j d r)
    ]

    inside_after : (j : ℕ) → All (λ a. a < length (t.nodes ++ n ∷ [])) (chain_after j)
    inside_after j =
        let grow = λ (xs : List ℕ).
          All-below_mono (length t.nodes) (length (t.nodes ++ n ∷ [])) xs
            (omega (arith, length-append t.nodes (n ∷ []))) in
        rw (chain_after_lem j) (elim (Bool-cases (i == j)) [
          | inl q ↦ rw q (
            omega (arith, length-append t.nodes (n ∷ [])),
            grow (get_or t.buckets i []) (valid.inside i),
          )
          | inr q ↦ rw q (grow (get_or t.buckets j []) (valid.inside j))
        ])

    add_node-IsValid : IsValid (add_node t i n)
    unfolding add_node chain_after
    add_node-IsValid =
        let longer : length (t.nodes ++ n ∷ []) ≡ suc (length t.nodes) =
          omega (arith, length-append t.nodes (n ∷ [])) in
        record {
          positive = valid.positive;
          divides = valid.divides;
          sized = length-set t.buckets i _ ∙ valid.sized;
          counted = omega (arith, valid.counted);
          listed =
              ap (λ l. l ++ length t.nodes ∷ []) valid.listed
              ∙ addresses_zero (length t.nodes)
              ∙ ap (addresses 0) (sym longer);
          hashed = IsHashed-append t.nodes n valid.hashed h;
          inside = inside_after;
          found = found_after;
        }

  -- For a capacity that is not 0 and divides 2 ^ 31, `symtable_create` gives a valid table
  -- without entries.
  pub symtable_create-IsValid :
      (n : ℕ)
      → 0 < n
      → int_min % n ≡ 0
      → IsValid {V = V} (symtable_create n)
        × (entries {V = V} (symtable_create {V = V} n).nodes ≡ [])
  unfolding symtable_create entries first_match find_in_chain
  symtable_create-IsValid n p d = (
    record {
      positive = p;
      divides = d;
      sized = length-replicate n [];
      counted = refl;
      listed = refl;
      hashed = tt;
      inside = λ i. rw get_or-replicate tt;
      found = λ k c i e. rw get_or-replicate;
    },
    refl,
  )

  -- `symtable_set` does not fault on a valid table. It keeps the table valid and its capacity
  -- as it was, and the entries afterwards are the entries before with the new one inserted:
  -- overwritten in place where the key and the class were there, at the end where they were
  -- not.
  pub set-insert :
      {t : Symtable V} (valid : IsValid t) (k : Bytes) (c : SymbolClass) (v : V)
      → (t' : Symtable V) × (symtable_set t k c v ≡ some t')
        × IsValid t'
        × (entries t'.nodes ≡ insert k c v (entries t.nodes))
        × (t'.capacity ≡ t.capacity)
  unfolding symtable_set
  set-insert {t} valid k c v =
      let (i, e, p) = home valid k c in
      let n : Node V = record { hash = compute_hash k; key = k; key2 = c; value = v } in
      elim (Option-cases (first_match t.nodes (compute_hash k) k c)) [
        | inl absent ↦ (
          add_node t i n,
          rw (find_node_lem valid k c, ◌>>=◌, e, absent),
          add_node-IsValid valid n refl absent i e p,
          unfold add_node in insert-entries_new t.nodes n valid.hashed refl absent,
          unfold add_node in refl,
        )
        | inr (a, present) ↦
            let (m, at, _) = first_match_inside t.nodes (compute_hash k) k c a present in
            (
              record t { nodes = set_value t.nodes a v },
              rw (find_node_lem valid k c, ◌>>=◌, e, present),
              rw (set_value_lem t.nodes a m v at) (overwrite-IsValid valid a m v at),
              insert-entries_old t.nodes k c v a valid.hashed present,
              refl,
            )
      ]

  iterate-addresses :
      (all before nodes : List (Node V)) (m : ℕ)
      → all ≡ before ++ nodes
      → m ≡ length before
      → iterate all (addresses m (length nodes)) ≡ entries nodes
  unfolding iterate entries
  iterate-addresses all before [] m e l = refl
  iterate-addresses all before (n ∷ nodes) m e l =
      let here : get_elem? all m ≡ some n = rw e (get_elem?-append_end before nodes n m l) in
      rw (here, iterate)
        (ap (λ es. (n.key, n.key2, n.value) ∷ es)
          (iterate-addresses all (before ++ n ∷ []) nodes (suc m)
            (e ∙ sym (append_assoc before (n ∷ []) nodes))
            (omega (arith, length-append before (n ∷ [])))))

  -- On a valid table the iterator yields the entries in the order of their insertion.
  pub iterate-entries : {t : Symtable V} → IsValid t → iterate t.nodes t.list ≡ entries t.nodes
  iterate-entries {t} valid = rw valid.listed (iterate-addresses t.nodes [] t.nodes 0 refl refl)

  -- On a valid table `symtable_set` does not fault, and afterwards the iterator yields what it
  -- yielded before, in the same order, with the new entry inserted: in the place of the old one
  -- where the key and the class were there, at the end where they were not.
  pub set-iterate :
      {t : Symtable V} (valid : IsValid t) (k : Bytes) (c : SymbolClass) (v : V)
      → (t' : Symtable V) × (symtable_set t k c v ≡ some t')
        × (iterate t'.nodes t'.list ≡ insert k c v (iterate t.nodes t.list))
  set-iterate {t} valid k c v =
      let (t', e, valid', inserted, _) = set-insert valid k c v in
      (t', e, iterate-entries valid' ∙ inserted ∙ ap (insert k c v) (sym (iterate-entries valid)))

  pub length-entries : (nodes : List (Node V)) → length (entries nodes) ≡ length nodes
  unfolding entries
  length-entries [] = refl
  length-entries (n ∷ nodes) = ap suc (length-entries nodes)
