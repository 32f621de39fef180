-- ===== src/Compact/Table.antt =====
-- What compact.c uses of lib/hmap.c: a table of nodes, each with the hash that it was put in under.
-- A node is a number, its address.
pub mod Rows
use ipcf.Common.{ℕ, ◌≡◌, Bool, true, false, ◌&&◌, ◌||◌, not, List, [], ◌∷◌, ◌==◌}

abbrev pub has : ℕ → List ℕ → Bool
has p [] = false
has p (q ∷ qs) = p == q || has p qs

pub record Table : Type 1 where
  pub Map : Type 0
  pub init : Map
  pub insert : Map → ℕ → ℕ → Map
  pub remove : Map → ℕ → Map
  -- The nodes that HMAP_FOR_EACH_WITH_HASH and HMAP_FOR_EACH_SAFE visit, in order.
  pub with_hash : Map → ℕ → List ℕ
  pub nodes : Map → List ℕ

abbrev pub Distinct : List ℕ → Type 0
Distinct [] = Unit
Distinct (x ∷ xs) = (has x xs ≡ false) × Distinct xs

-- What lib/hmap.c does for tables that were made by these calls, the `IsTable` ones. A node must
-- not be in the table when it is put in, and must be there when it is removed.
pub record Laws (T : Table) : Type 1 where
  pub IsTable : T.Map → Type 0
  pub init-IsTable : IsTable T.init
  pub insert-IsTable :
      (m : T.Map) (p h : ℕ) → has p (T.nodes m) ≡ false → IsTable m → IsTable (T.insert m p h)
  pub remove-IsTable :
      (m : T.Map) (p : ℕ) → has p (T.nodes m) ≡ true → IsTable m → IsTable (T.remove m p)
  pub nodes-Distinct : (m : T.Map) → IsTable m → Distinct (T.nodes m)
  pub nodes-init : T.nodes T.init ≡ []
  pub has-insert :
      (m : T.Map) (p h q : ℕ)
      → has p (T.nodes m) ≡ false
      → has q (T.nodes (T.insert m p h)) ≡ (q == p || has q (T.nodes m))
  pub has_hash-insert :
      (m : T.Map) (p h q k : ℕ)
      → has p (T.nodes m) ≡ false
      → has q (T.with_hash (T.insert m p h) k) ≡ ((q == p && k == h) || has q (T.with_hash m k))
  pub has-remove :
      (m : T.Map) (p q : ℕ)
      → has p (T.nodes m) ≡ true
      → has q (T.nodes (T.remove m p)) ≡ (not (q == p) && has q (T.nodes m))
  pub has_hash-remove :
      (m : T.Map) (p q k : ℕ)
      → has p (T.nodes m) ≡ true
      → has q (T.with_hash (T.remove m p) k) ≡ (not (q == p) && has q (T.with_hash m k))
  pub has_hash-has :
      (m : T.Map) (q k : ℕ) → has q (T.with_hash m k) ≡ true → has q (T.nodes m) ≡ true
