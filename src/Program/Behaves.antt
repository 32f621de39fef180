-- ===== src/Program/Behaves.antt =====
-- What the program does to its two layers is a history of calls of each.
use ipcf.Common.{
  ℕ, ◌≡◌, refl, sym, ap, Bool, true, false, Option, none, some, List, [], ◌∷◌, ◌++◌, arith,
  if◌then◌else◌,
}
use mathlib.Core.Path.{subst}
use mathlib.Core.Option.{some-injective}
use ipcf.Common.Fault.{◌>>=◌, >>=-eq-some}
use ipcf.Split.Types as S
use ipcf.Split.Types.{array}
use ipcf.Split.Node.Inv.{Call, sends, call, calls}
use ipcf.Compact.Table.{Table}
use ipcf.Compact.Flows.{Flows}
use ipcf.Compact.Inv.Events.{Event, event, events}
use ipcf.Program.{Output, quiet, Program, send_pkts, write_pkt, send_back}

calls-append :
    (cs ds : List Call) (n m k : S.Node)
    → calls cs n ≡ some m
    → calls ds m ≡ some k
    → calls (cs ++ ds) n ≡ some k
unfolding calls
calls-append [] ds n m k h h' = ground (arith, h, h')
calls-append (c ∷ cs) ds n m k h h' =
    let (n', one, rest) = >>=-eq-some (call c n) (calls cs) h in
    rw one (calls-append cs ds n' m k rest h')

module _ (T : Table) (hash_bytes : List ℕ → ℕ) where
  events-append :
      (es fs : List Event) (c d e : Flows T)
      → events T hash_bytes es c ≡ some d
      → events T hash_bytes fs d ≡ some e
      → events T hash_bytes (es ++ fs) c ≡ some e
  unfolding events
  events-append [] fs c d e h h' = ground (arith, h, h')
  events-append (v ∷ es) fs c d e h h' =
      let (c', one, rest) = >>=-eq-some (event T hash_bytes v c) (events T hash_bytes es) h in
      rw one (events-append es fs c' d e rest h')

  -- From one state to another by calls of the entry points of the split layer, and by calls of
  -- those of the header compression.
  pub record Behaves (p p' : Program T) : Type 0 where
    pub cs : List Call
    pub node : calls cs p.node ≡ some p'.node
    pub es : List Event
    pub flows : events T hash_bytes es p.flows ≡ some p'.flows

  pub Behaves-trans : (p q r : Program T) → Behaves p q → Behaves q r → Behaves p r
  Behaves-trans p q r a b = record {
    cs = a.cs ++ b.cs;
    node = calls-append a.cs b.cs p.node q.node r.node a.node b.node;
    es = a.es ++ b.es;
    flows = events-append a.es b.es p.flows q.flows r.flows a.flows b.flows;
  }

  -- A call of the split layer alone, and of the header compression alone.
  pub Behaves-call :
      (c : Call) (p p' : Program T)
      → call c p.node ≡ some p'.node
      → p'.flows ≡ p.flows
      → Behaves p p'
  unfolding calls events
  Behaves-call c p p' ran same = record {
    cs = c ∷ [];
    node = rw ran refl;
    es = [];
    flows = ap some (sym same);
  }

  pub Behaves-event :
      (e : Event) (p p' : Program T)
      → event T hash_bytes e p.flows ≡ some p'.flows
      → p'.node ≡ p.node
      → Behaves p p'
  unfolding calls events
  Behaves-event e p p' ran same = record {
    cs = [];
    node = ap some (sym same);
    es = e ∷ [];
    flows = rw ran refl;
  }

  pub Behaves-same : (p p' : Program T) → p'.node ≡ p.node → p'.flows ≡ p.flows → Behaves p p'
  unfolding calls events
  Behaves-same p p' n f = record {
    cs = [];
    node = ap some (sym n);
    es = [];
    flows = ap some (sym f);
  }

  pub send_pkts-Behaves :
      (env : S.Env) (pkts : List (List ℕ)) (p : Program T) → Behaves p (send_pkts T env pkts p)
  unfolding send_pkts call
  send_pkts-Behaves env [] p = Behaves-same p p refl refl
  send_pkts-Behaves env (pkt ∷ pkts) p =
      Behaves-trans p _ _ (Behaves-call (sends env 2 1 pkt) p _ refl refl)
        (send_pkts-Behaves env pkts _)

  pub write_pkt-Behaves : (o : Option (List ℕ)) (p : Program T) → Behaves p (write_pkt T o p)
  unfolding write_pkt
  write_pkt-Behaves none p = Behaves-same p p refl refl
  write_pkt-Behaves (some pkt) p = Behaves-same p _ refl refl

  pub send_back-Behaves :
      (env : S.Env) (o : Option (List ℕ)) (p : Program T) → Behaves p (send_back T env o p)
  unfolding send_back call
  send_back-Behaves env none p = Behaves-same p p refl refl
  send_back-Behaves env (some pkt) p = Behaves-call (sends env 2 1 pkt) p _ refl refl

  -- What a computation may give, if it is no fault.
  pub record Then {R : Type 0} (state : R → Program T) (p : Program T) (o : Option R) : Type 0 where
    pub each : (r : R) → o ≡ some r → Behaves p (state r)

  pub Then-some :
      {R : Type 0} (state : R → Program T) (p : Program T) (r : R)
      → Behaves p (state r)
      → Then state p (some r)
  Then-some state p r b = record {
    each = λ r' e. subst (λ x. Behaves p (state x)) (some-injective r r' e) b;
  }

  pub Then-if :
      {R : Type 0} (state : R → Program T) (p : Program T) (b : Bool) (x y : Option R)
      → Then state p x
      → Then state p y
      → Then state p (if b then x else y)
  Then-if state p true x y hx hy = hx
  Then-if state p false x y hx hy = hy

  pub Then->>= {ℓ} :
      {A : Type ℓ} {R : Type 0} (state : R → Program T) (p : Program T) (m : Option A)
      (f : A → Option R)
      → ((a : A) → m ≡ some a → Then state p (f a))
      → Then state p (m >>= f)
  Then->>= state p none f h = record { each = λ r e. cc }
  Then->>= state p (some a) f h = h a refl

  abbrev pub after : Output × Program T → Program T
  after r = r.1

  abbrev pub itself : Program T → Program T
  itself p = p

  -- A step without an output.
  pub Then-quiet :
      (p : Program T) (o : Option (Program T))
      → Then itself p o
      → Then after p (o >>= λ p'. some (quiet, p'))
  Then-quiet p o h = Then->>= after p o _ (λ p' e. Then-some after p _ (h.each p' e))

  pub Then-either :
      (p : Program T) (b : Bool) (x y : Output × Program T)
      → Behaves p x.1
      → Behaves p y.1
      → Then after p (some (if b then x else y))
  Then-either p true x y hx hy = Then-some after p x hx
  Then-either p false x y hx hy = Then-some after p y hy
