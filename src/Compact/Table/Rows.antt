-- ===== src/Compact/Table/Rows.antt =====
-- A table as a list of nodes with their hashes: it keeps what is asked of lib/hmap.c.
use ipcf.Common.{
  ℕ, ◌≡◌, refl, ◌∙◌, inl, inr, Bool-cases, true, ◌&&◌, ◌||◌, not, List, [], ◌∷◌, arith, ◌==◌,
  if◌then◌else◌,
}
use ipcf.Compact.Table.{has, Table, Distinct, Laws}

abbrev insert : List (ℕ × ℕ) → ℕ → ℕ → List (ℕ × ℕ)
insert m p h = (p, h) ∷ m

abbrev remove : List (ℕ × ℕ) → ℕ → List (ℕ × ℕ)
remove [] p = []
remove ((q, h) ∷ m) p = if q == p then remove m p else (q, h) ∷ remove m p

abbrev with_hash : List (ℕ × ℕ) → ℕ → List ℕ
with_hash [] k = []
with_hash ((q, h) ∷ m) k = if h == k then q ∷ with_hash m k else with_hash m k

abbrev nodes : List (ℕ × ℕ) → List ℕ
nodes [] = []
nodes ((q, h) ∷ m) = q ∷ nodes m

has-remove :
    (m : List (ℕ × ℕ)) (p q : ℕ) → has q (nodes (remove m p)) ≡ (not (q == p) && has q (nodes m))
has-remove [] p q = ground arith
has-remove ((r, h) ∷ m) p q = elim (Bool-cases (r == p)) [
  | inl e ↦ rw e (has-remove m p q ∙ ground (arith, e))
  | inr e ↦ rw e (ground (arith, has-remove m p q, e))
]

has_hash-remove :
    (m : List (ℕ × ℕ)) (p q k : ℕ)
    → has q (with_hash (remove m p) k) ≡ (not (q == p) && has q (with_hash m k))
has_hash-remove [] p q k = ground arith
has_hash-remove ((r, h) ∷ m) p q k = elim (Bool-cases (r == p)) [
  | inl e ↦ elim (Bool-cases (h == k)) [
    | inl f ↦ rw (e, f) (has_hash-remove m p q k ∙ ground (arith, e))
    | inr f ↦ rw (e, f) (has_hash-remove m p q k)
  ]
  | inr e ↦ elim (Bool-cases (h == k)) [
    | inl f ↦ rw (e, f) (ground (arith, has_hash-remove m p q k, e))
    | inr f ↦ rw (e, f) (has_hash-remove m p q k)
  ]
]

remove-Distinct : (m : List (ℕ × ℕ)) (p : ℕ) → Distinct (nodes m) → Distinct (nodes (remove m p))
remove-Distinct [] p d = tt
remove-Distinct ((r, h) ∷ m) p d = elim (Bool-cases (r == p)) [
  | inl e ↦ rw e (remove-Distinct m p d.1)
  | inr e ↦ rw e (has-remove m p r ∙ ground (arith, d.0), remove-Distinct m p d.1)
]

has_hash-has : (m : List (ℕ × ℕ)) (q k : ℕ) → has q (with_hash m k) ≡ true → has q (nodes m) ≡ true
has_hash-has [] q k e = e
has_hash-has ((r, h) ∷ m) q k e = ground (arith, e, has_hash-has m q k)

has_hash-insert :
    (m : List (ℕ × ℕ)) (p h q k : ℕ)
    → has q (with_hash (insert m p h) k) ≡ ((q == p && k == h) || has q (with_hash m k))
has_hash-insert m p h q k = ground arith

abbrev pub rows : Table
rows = record {
  Map = List (ℕ × ℕ);
  init = [];
  insert = insert;
  remove = remove;
  with_hash = with_hash;
  nodes = nodes;
}

pub rows-Laws : Laws rows
rows-Laws = record {
  IsTable = λ m. Distinct (nodes m);
  init-IsTable = tt;
  insert-IsTable = λ m p h absent d. (absent, d);
  remove-IsTable = λ m p present d. remove-Distinct m p d;
  nodes-Distinct = λ m d. d;
  nodes-init = refl;
  has-insert = λ m p h q absent. refl;
  has_hash-insert = λ m p h q k absent. has_hash-insert m p h q k;
  has-remove = λ m p q present. has-remove m p q;
  has_hash-remove = λ m p q k present. has_hash-remove m p q k;
  has_hash-has = has_hash-has;
}
