-- ===== src/Scopes/Ends.antt =====
-- src/parser.c: what is put into a scope is found there, and is gone when the scope ends.
use jacc.Common.{
  ℕ, zero, suc, ◌<◌, Option, some, List, [], ◌∷◌, ◌++◌, Bytes, length, get_elem?, get_elem?-append,
  set, ◌>>=◌, >>=-some, ◌≡◌, ◌≢◌, refl, ◌∙◌, arith,
}
use jacc.Symtable.{Symtable, symtable_create, symtable_set}
use jacc.Symtable.Keys.{SymbolClass}
use jacc.Symtable.Lookup.{All}
use jacc.Pull.{pull_add}
use jacc.Scopes.{
  Scopes, symtable_default_size, push_symtable_ex, push_symtable, pop_symtable, put_symbol,
  get_current_symtable, search, get_symbol,
}
use jacc.Scopes.Lookup.{IsScoped}

-- The search reads only the tables of the scopes.
search_frame :
    (tables tables' : List (Symtable ℕ)) (k : Bytes) (c : SymbolClass) (ts : List ℕ)
    → All (λ t. get_elem? tables' t ≡ get_elem? tables t) ts
    → search tables' k c ts ≡ search tables k c ts
unfolding search
search_frame tables tables' k c [] f = refl
search_frame tables tables' k c (t ∷ ts) (e, f) = rw (e, search_frame tables tables' k c ts f) refl

-- `s'` has one more scope than `s`, whose table is new, and the same tables otherwise.
pub record IsInside (s s' : Scopes) : Type 0 where
  pub scopes : s'.symtables ≡ length s.tables ∷ s.symtables
  pub tables : (t : ℕ) → t < length s.tables → get_elem? s'.tables t ≡ get_elem? s.tables t

get-set_other :
    (xs : List (Symtable ℕ)) (n t : ℕ) (y : Symtable ℕ)
    → t ≢ n
    → get_elem? (set xs n y) t ≡ get_elem? xs t
get-set_other [] n t y d = refl
get-set_other (x ∷ xs) zero zero y d = absurd (d refl)
get-set_other (x ∷ xs) zero (suc t) y d = refl
get-set_other (x ∷ xs) (suc n) zero y d = refl
get-set_other (x ∷ xs) (suc n) (suc t) y d = get-set_other xs n t y (λ e. d (omega arith))

push_ex-result :
    (t : ℕ) (s s' : Scopes)
    → push_symtable_ex t s ≡ some s'
    → s' ≡ record s { symtables = t ∷ s.symtables }
unfolding push_symtable_ex
push_ex-result t s s' e = ground arith

push-IsInside :
    (pointer : ℕ → ℕ) (s s' : Scopes) → push_symtable pointer s ≡ some s' → IsInside s s'
unfolding push_symtable
push-IsInside pointer s s' e =
    let (pull, h, e1) = >>=-some (pull_add s.pull (pointer (length s.tables))) _ e in
    let same =
      push_ex-result (length s.tables)
        (record s { tables = s.tables ++ symtable_create symtable_default_size ∷ []; pull = pull })
        s' e1 in
    rw same (record { scopes = refl; tables = λ t l. get_elem?-append s.tables _ t l })

put-result :
    (k : Bytes) (v : ℕ) (c : SymbolClass) (s s' : Scopes)
    → put_symbol k v c s ≡ some s'
    → (t : ℕ) × (table : Symtable ℕ) × (get_current_symtable s ≡ some t)
      × (s' ≡ record s { tables = set s.tables t table })
unfolding put_symbol
put-result k v c s s' e =
    let (t, h, e1) = >>=-some (get_current_symtable s) _ e in
    let (old, h1, e2) = >>=-some (get_elem? s.tables t) _ e1 in
    let (table, h2, e3) = >>=-some (symtable_set old k c v) _ e2 in (t, table, h, cc)

put-IsInside :
    (k : Bytes) (v : ℕ) (c : SymbolClass) (s s1 s2 : Scopes)
    → IsInside s s1
    → put_symbol k v c s1 ≡ some s2
    → IsInside s s2
unfolding get_current_symtable
put-IsInside k v c s s1 s2 i e =
    let (t, table, h, same) = put-result k v c s1 s2 e in
    let new : t ≡ length s.tables = cc (rw (i.scopes) at h) in
    rw same (record {
      scopes = i.scopes;
      tables = λ u l. get-set_other s1.tables t u table (λ x. omega arith) ∙ i.tables u l;
    })

-- Puts one after another into the innermost scope.
unfoldable pub put_symbols : List (Bytes × ℕ × SymbolClass) → Scopes → Option Scopes
put_symbols [] s = some s
put_symbols ((k, v, c) ∷ puts) s = do s' ← put_symbol k v c s; put_symbols puts s'

puts-IsInside :
    (puts : List (Bytes × ℕ × SymbolClass)) (s s1 s2 : Scopes)
    → IsInside s s1
    → put_symbols puts s1 ≡ some s2
    → IsInside s s2
unfolding put_symbols
puts-IsInside [] s s1 s2 i e = (let same : s1 ≡ s2 = cc in rw (← same) i)
puts-IsInside ((k, v, c) ∷ puts) s s1 s2 i e =
    let (s', h, e1) = >>=-some (put_symbol k v c s1) _ e in
    puts-IsInside puts s s' s2 (put-IsInside k v c s s1 s' i h) e1

unchanged :
    (n : ℕ) (tables tables' : List (Symtable ℕ)) (ts : List ℕ)
    → ((t : ℕ) → t < n → get_elem? tables' t ≡ get_elem? tables t)
    → All (λ t. t < n) ts
    → All (λ t. get_elem? tables' t ≡ get_elem? tables t) ts
unchanged n tables tables' [] f a = tt
unchanged n tables tables' (t ∷ ts) f (l, a) = (f t l, unchanged n tables tables' ts f a)

-- After a scope was opened, any symbols were put into it and it was closed, every name leads to what
-- it led to before.
pub scope_ends :
    (pointer : ℕ → ℕ) (puts : List (Bytes × ℕ × SymbolClass)) (s s1 s2 : Scopes) (k : Bytes)
    (c : SymbolClass)
    → IsScoped s
    → push_symtable pointer s ≡ some s1
    → put_symbols puts s1 ≡ some s2
    → get_symbol k c (pop_symtable s2) ≡ get_symbol k c s
unfolding get_symbol pop_symtable
scope_ends pointer puts s s1 s2 k c v e f =
    let i = puts-IsInside puts s s1 s2 (push-IsInside pointer s s1 e) f in
    rw (i.scopes) (
      search_frame s.tables s2.tables k c s.symtables
        (unchanged (length s.tables) s.tables s2.tables s.symtables i.tables v.inside))
