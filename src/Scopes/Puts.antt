-- ===== src/Scopes/Puts.antt =====
-- src/parser.c: put_symbol and get_symbol.
use jacc.Common.{
  ℕ, zero, suc, ◌<◌, Option, none, some, List, [], ◌∷◌, Bytes, bytes_eq, false, ◌&&◌, length,
  length-set, get_elem?, set, ◌>>=◌, ◌≡◌, refl, sym, ap, ◌∙◌, arith,
}
use jacc.Ast.{Pointer}
use jacc.Symtable.{Symtable, symtable_get}
use jacc.Symtable.Keys.{SymbolClass, class_eq}
use jacc.Symtable.Lookup.{All, entries}
use jacc.Symtable.Entries.{insert}
use jacc.Symtable.Valid.{IsValid, get-lookup}
use jacc.Symtable.Refine.{set-insert}
use jacc.Scopes.{Scopes, put_symbol, get_current_symtable, search, get_symbol, found_or}
use jacc.Scopes.Association.{lookup-insert, lookup-insert_other}
use jacc.Scopes.Lookup.{IsScoped, valid_at}

set-All :
    (tables : List (Symtable ℕ)) (t : ℕ) (table : Symtable ℕ)
    → All IsValid tables
    → IsValid table
    → All IsValid (set tables t table)
set-All [] t table v w = tt
set-All (x ∷ tables) zero table v w = (w, v.1)
set-All (x ∷ tables) (suc t) table v w = (v.0, set-All tables t table v.1 w)

get-set_self :
    (tables : List (Symtable ℕ)) (t : ℕ) (table : Symtable ℕ)
    → t < length tables
    → get_elem? (set tables t table) t ≡ some table
get-set_self [] t table l = absurd (omega arith)
get-set_self (x ∷ tables) zero table l = refl
get-set_self (x ∷ tables) (suc t) table l = get-set_self tables t table (omega arith)

-- A search for another name and class does not see the new entry of the table at `t`.
module _ (k : Bytes) (v : ℕ) (c : SymbolClass) (k' : Bytes) (c' : SymbolClass)
    (differ : (class_eq c c' && bytes_eq k k') ≡ false) where
  get_other :
      (old table : Symtable ℕ)
      → IsValid old
      → IsValid table
      → entries table.nodes ≡ insert k c v (entries old.nodes)
      → symtable_get table k' c' ≡ symtable_get old k' c'
  get_other old table o w e =
      rw (get-lookup w k' c', get-lookup o k' c', e)
        (ap some (lookup-insert_other k c v k' c' (entries old.nodes) differ))

  -- What a read of a table gives after the table at `t` was replaced.
  read_other :
      (tables : List (Symtable ℕ)) (t u : ℕ) (old table : Symtable ℕ)
      → get_elem? tables t ≡ some old
      → symtable_get table k' c' ≡ symtable_get old k' c'
      → (get_elem? (set tables t table) u >>= λ x. symtable_get x k' c')
        ≡ (get_elem? tables u >>= λ x. symtable_get x k' c')
  read_other [] t u old table e g = refl
  read_other (x ∷ tables) zero zero old table e g =
      (let same : x ≡ old = cc in g ∙ ap (λ y. symtable_get y k' c') (sym same))
  read_other (x ∷ tables) zero (suc u) old table e g = refl
  read_other (x ∷ tables) (suc t) zero old table e g = refl
  read_other (x ∷ tables) (suc t) (suc u) old table e g = read_other tables t u old table e g

  regroup :
      (o : Option (Symtable ℕ)) (h : Pointer → Option Pointer)
      → (o >>= λ x. symtable_get x k' c' >>= λ r. h r)
        ≡ ((o >>= λ x. symtable_get x k' c') >>= λ r. h r)
  regroup none h = refl
  regroup (some x) h = refl

  search_other :
      (tables : List (Symtable ℕ)) (t : ℕ) (old table : Symtable ℕ) (ts : List ℕ)
      → get_elem? tables t ≡ some old
      → symtable_get table k' c' ≡ symtable_get old k' c'
      → search (set tables t table) k' c' ts ≡ search tables k' c' ts
  unfolding search
  search_other tables t old table [] e g = refl
  search_other tables t old table (u ∷ ts) e g =
      let rest = search_other tables t old table ts e g in
      regroup (get_elem? (set tables t table) u)
        (λ r. found_or r (search (set tables t table) k' c' ts))
      ∙ ap (λ o. o >>= λ r. found_or r (search (set tables t table) k' c' ts))
          (read_other tables t u old table e g)
      ∙ ap (λ others. (get_elem? tables u >>= λ x. symtable_get x k' c') >>= λ r. found_or r others)
          rest
      ∙ sym (regroup (get_elem? tables u) (λ r. found_or r (search tables k' c' ts)))

found_first :
    (tables : List (Symtable ℕ)) (t : ℕ) (outer : List ℕ) (k : Bytes) (v : ℕ) (c : SymbolClass)
    (old table : Symtable ℕ)
    → IsValid table
    → entries table.nodes ≡ insert k c v (entries old.nodes)
    → get_elem? tables t ≡ some table
    → search tables k c (t ∷ outer) ≡ some (some v)
unfolding search found_or
found_first tables t outer k v c old table w contents e =
    rw (e, get-lookup w k c, contents, lookup-insert k c v (entries old.nodes)) refl

module _ (s : Scopes) (t : ℕ) (outer : List ℕ) (k : Bytes) (v : ℕ) (c : SymbolClass)
    (scoped : IsScoped s) (open_scope : s.symtables ≡ t ∷ outer) where
  -- Where a scope is open, put_symbol succeeds and keeps the tables valid, and get_symbol then finds
  -- the symbol under its name and class, also where an outer scope has the name.
  pub put_symbol-get :
      (s' : Scopes) × (put_symbol k v c s ≡ some s')
      × IsScoped s'
      × (get_symbol k c s' ≡ some (some v))
  unfolding put_symbol get_symbol get_current_symtable
  put_symbol-get =
      let (l, others) = rw open_scope at scoped.inside in
      let (old, e, valid) = valid_at s.tables t scoped.valid l in
      let (table, h, table_valid, contents, capacity) = set-insert valid k c v in
      let sized = length-set s.tables t table in
      (
        record s { tables = set s.tables t table },
        rw (open_scope, e, h) refl,
        record {
          valid = set-All s.tables t table scoped.valid table_valid;
          inside = rw sized scoped.inside;
        },
        rw open_scope (
            found_first (set s.tables t table) t outer k v c old table table_valid contents
              (get-set_self s.tables t table l)),
      )

  -- Every other name, and the name in another class, leads to what it led to before.
  pub put_symbol-other :
      (k' : Bytes) (c' : SymbolClass) (s' : Scopes)
      → (class_eq c c' && bytes_eq k k') ≡ false
      → put_symbol k v c s ≡ some s'
      → get_symbol k' c' s' ≡ get_symbol k' c' s
  unfolding put_symbol get_symbol get_current_symtable
  put_symbol-other k' c' s' differ put =
      let (l, others) = rw open_scope at scoped.inside in
      let (old, e, valid) = valid_at s.tables t scoped.valid l in
      let (table, h, table_valid, contents, capacity) = set-insert valid k c v in
      let made : s' ≡ record s { tables = set s.tables t table } =
        cc (rw (open_scope, e, h) at put) in
      rw made (
        search_other k v c k' c' differ s.tables t old table s.symtables e
          (get_other k v c k' c' differ old table valid table_valid contents))
