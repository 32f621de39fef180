-- ===== src/Idpool/Refine.antt =====
-- The ring of identifiers is a queue with room for `n`.
use ipcf.Common.{
  get_or-append_left, get_or-append_right, ltb→lt, ltb-false→le, ◌&&◌, ℕ, zero, suc, ◌+◌, ◌-◌, ◌%◌,
  ◌≤◌, ◌<◌, ◌≡◌, ◌≢◌, refl, sym, ap, ◌∙◌, Bool, true, false, not, none, some, List, [], ◌∷◌, ◌++◌,
  arith, get_or, is_empty, get_elem?-get_or, get_or-set_self, get_or-set_ne, set, length,
  length-append, length-set, ltb, ◌==◌, if◌then◌else◌, Bool-cases, inl, inr,
}
use ipcf.Idpool.{Pool, ids_from, init_idpool, get_id, release_id}
use native.Mathlib.Nat.{mod-eq_of_lt, mod_self}

-- `k` places behind `h`, going round at `n`.
unfoldable pub pos : ℕ → ℕ → ℕ → ℕ
pos n h k = if ltb (h + k) n then h + k else h + k - n

module _ (n h : ℕ) (below : h < n) where
  pos-zero : pos n h 0 ≡ h
  unfolding pos
  pos-zero = ground arith

  pos-lt : (k : ℕ) → k ≤ n → pos n h k < n
  unfolding pos
  pos-lt k l = ground arith

  pos-pos : (j k s : ℕ) → j + k ≡ s → s ≤ n → pos n (pos n h j) k ≡ pos n h s
  unfolding pos
  pos-pos j k s e l = ground arith

  pos-first : (k : ℕ) → k < n → (pos n h k == h) ≡ (k == 0)
  unfolding pos
  pos-first k l = ground arith

  pos-ne : (j k : ℕ) → j < k → k < n → pos n h k ≢ pos n h j
  unfolding pos
  pos-ne j k l l' e = absurd (ground arith)

  pos-full : pos n h n ≡ h
  unfolding pos
  pos-full = ground arith

  round : (h + 1) % n ≡ pos n h 1
  unfolding pos
  round = elim (Bool-cases (ltb (h + 1) n)) [
    | inl q ↦ rw q (mod-eq_of_lt (ground (arith, q)))
    | inr q ↦ rw q (ap (λ m. m % n) (ground (arith, q)) ∙ mod_self n ∙ ground (arith, q))
  ]

-- `n` is not 0, and the ring holds the queue `q`.
pub record Holds (p : Pool) (q : List ℕ) : Type 0 where
  pub room : length p.pool ≡ p.n
  pub head : p.head < p.n
  pub tail : p.tail < p.n
  pub few : length q ≤ p.n
  pub empty : p.empty ≡ is_empty q
  pub last : pos p.n p.tail 1 ≡ pos p.n p.head (length q)
  pub items : (i : ℕ) → i < length q → get_or q i 0 ≡ get_or p.pool (pos p.n p.head i) 0

length-ids_from : (i n : ℕ) → length (ids_from i n) ≡ n
unfolding ids_from
length-ids_from i zero = refl
length-ids_from i (suc n) = ap suc (length-ids_from (i + 1) n)

pub init_idpool-Holds : (n : ℕ) → 0 < n → Holds (init_idpool n) (ids_from 0 n)
unfolding init_idpool ids_from pos
init_idpool-Holds zero h = absurd (omega arith)
init_idpool-Holds (suc n) h =
    let l = length-ids_from 1 n in
    record {
      room = ap suc l;
      head = h;
      tail = omega arith;
      few = omega (arith, l);
      empty = refl;
      last = ground (arith, l);
      items = λ i b. ground (arith, l);
    }

is_empty-length : (q : List ℕ) → (length q == 0) ≡ is_empty q
is_empty-length [] = refl
is_empty-length (x ∷ q) = ground arith

-- The last identifier is the first one exactly if there is one.
same_end : (n h t k : ℕ) → h < n → t < n → k < n → pos n t 1 ≡ pos n h (suc k) → (h == t) ≡ (k == 0)
unfolding pos
same_end n h t k hn tn kn e = ground arith

-- `get_id` of a pool that holds no identifier.
pub get_id-none : (p : Pool) → Holds p [] → get_id p ≡ some (none, p)
unfolding get_id
get_id-none p h = rw h.empty refl

-- `get_id` takes the front of the queue.
pub get_id-some :
    (p : Pool) (x : ℕ) (q : List ℕ)
    → Holds p (x ∷ q)
    → (p' : Pool) × (get_id p ≡ some (some x, p')) × Holds p' q × (p'.n ≡ p.n)
unfolding get_id
get_id-some p x q h =
    let at_head = pos-zero p.n p.head h.head in
    let front : get_or p.pool p.head 0 ≡ x =
      ap (λ i. get_or p.pool i 0) (sym at_head) ∙ sym (h.items 0 (omega arith)) in
    let moved = round p.n p.head h.head in
    let read = get_elem?-get_or p.pool p.head 0 (omega (arith, h.room, h.head)) ∙ ap some front in
    (
      record p { head = (p.head + 1) % p.n; empty = p.head == p.tail },
      rw (h.empty, read) refl,
      record {
        room = h.room;
        head = rw moved (pos-lt p.n p.head h.head 1 (omega (arith, h.head)));
        tail = h.tail;
        few = omega (arith, h.few);
        empty =
            same_end p.n p.head p.tail (length q) h.head h.tail (omega (arith, h.few)) h.last
            ∙ is_empty-length q;
        last =
            h.last
            ∙ rw moved (
                sym (
                  pos-pos p.n p.head h.head 1 (length q) (suc (length q)) (omega arith)
                    (omega (arith, h.few))));
        items = λ i l.
            h.items (suc i) (omega arith)
            ∙ rw moved (
                ap (λ j. get_or p.pool j 0)
                  (sym
                    (pos-pos p.n p.head h.head 1 i (suc i) (omega arith) (omega (arith, h.few)))));
      },
      refl,
    )

and-not : (b : Bool) → (not b && b) ≡ false
and-not true = refl
and-not false = refl

nonempty-append : (q : List ℕ) (x : ℕ) → false ≡ is_empty (q ++ (x ∷ []))
nonempty-append [] x = refl
nonempty-append (y ∷ q) x = refl

-- `release_id` appends an identifier where there is room.
pub release_id-append :
    (p : Pool) (id : ℕ) (q : List ℕ)
    → Holds p q
    → length q < p.n
    → (p' : Pool) × (release_id p id ≡ some p') × Holds p' (q ++ (id ∷ [])) × (p'.n ≡ p.n)
unfolding release_id
release_id-append p id q h l =
    let moved = round p.n p.tail h.tail in
    let at = pos p.n p.head (length q) in
    let below : at < p.n = pos-lt p.n p.head h.head (length q) (omega arith) in
    let tail_next : (p.tail + 1) % p.n ≡ at = moved ∙ h.last in
    let not_full : (not p.empty && at == p.head) ≡ false =
      rw (h.empty, pos-first p.n p.head h.head (length q) l, is_empty-length q)
        (and-not (is_empty q)) in
    let inside : ltb at (length p.pool) ≡ true = ground (arith, h.room, below) in
    (
      record p { tail = at; pool = set p.pool at id; empty = false },
      rw (tail_next, not_full, inside) refl,
      record {
        room = length-set p.pool at id ∙ h.room;
        head = h.head;
        tail = below;
        few = omega (arith, length-append q (id ∷ []));
        empty = nonempty-append q id;
        last =
            rw (length-append q (id ∷ []))
              (pos-pos p.n p.head h.head (length q) 1 (length q + 1) refl (omega arith));
        items = λ i b. elim (Bool-cases (ltb i (length q))) [
          | inl old ↦
              let i_old : i < length q = ltb→lt i (length q) old in
              get_or-append_left 0 q (id ∷ []) i i_old
              ∙ h.items i i_old
              ∙ sym (
                  get_or-set_ne 0 p.pool at (pos p.n p.head i) id
                    (pos-ne p.n p.head h.head i (length q) i_old l))
          | inr new ↦
              let i_new : i ≡ length q =
                omega (arith, ltb-false→le i (length q) new, length-append q (id ∷ [])) in
              rw i_new (
                get_or-append_right 0 q (id ∷ []) 0 (length q) (omega arith)
                ∙ sym (get_or-set_self 0 p.pool at id (omega (arith, h.room, below))))
        ];
      },
      refl,
    )

-- A full pool drops what it is given.
pub release_id-full :
    (p : Pool) (id : ℕ) (q : List ℕ) → Holds p q → length q ≡ p.n → release_id p id ≡ some p
unfolding release_id
release_id-full p id q h l =
    let back : (p.tail + 1) % p.n ≡ p.head =
      round p.n p.tail h.tail ∙ h.last ∙ rw l (pos-full p.n p.head h.head) in
    let held : p.empty ≡ false =
      h.empty ∙ sym (is_empty-length q) ∙ rw l (ground (arith, h.head)) in
    rw (back, held) (ground arith)
