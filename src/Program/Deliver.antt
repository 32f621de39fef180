-- ===== src/Program/Deliver.antt =====
-- A packet from the tun device of one program to that of another.
use ipcf.Common.{
  ℕ, ◌+◌, ◌≡◌, refl, sym, ap, ◌∙◌, Bool-cases, inl, inr, Option, none, some, List, length, is_empty,
}
use ipcf.Common.Fault.{◌>>=◌, >>=-eq-some}
use ipcf.Common.Word.{u32}
use ipcf.Split.Types as S
use ipcf.Split.Types.{array, link_data_max}
use ipcf.Split.Queue.{lower_fetch}
use ipcf.Split.Node.{lower_put}
use ipcf.Split.Link.{max_buf_size, carry}
use ipcf.Compact.Table.{Table}
use ipcf.Program.{Around, Output, quiet, Program, recv_split, recv_udp}
use mathlib.Core.Option.{some-injective}

module _ (T : Table) where
  -- What one program has given to `udp_send`, if anything, is received by `recv_udp` of another.
  unfoldable pub relay :
      Around → Option (List ℕ) → Program T → Program T → Option (Program T × Program T)
  relay env none p q = some (p, q)
  relay env (some raw) p q = do q' ← recv_udp T env raw q; some (p, q')

  unfoldable pub pass : Around → Program T → Program T → Option (Program T × Program T)
  unfolding relay
  pass env p q = let (o, p') = recv_split T p in relay env o.sent p' q

  -- A program whose split layer is this node, with the flows of another.
  pub record Goes (p : Program T) (n : S.Node) (p' : Program T) : Type 0 where
    pub node : p'.node ≡ n
    pub flows : p'.flows ≡ p.flows

  pub pass-carry :
      (env : Around) (p q : Program T) (n m : S.Node)
      → carry env.link p.node q.node ≡ some (n, m)
      → (p' : Program T) × (q' : Program T) × (pass env p q ≡ some (p', q'))
        × Goes p n p'
        × Goes q m q'
  unfolding pass recv_split recv_udp carry
  pass-carry env p q n m h =
      let f = (lower_fetch p.node max_buf_size).0 in
      let node = (lower_fetch p.node max_buf_size).1 in
      let given : Option (S.Node × S.Node) = (do
        (r, to') ← lower_put env.link f.buf q.node
        some (node, to')) in
      let on = λ (r : Output × Program T). relay env r.0.sent r.1 q in
      elim (Bool-cases (is_empty f.buf)) [
        | inl e ↦
            let p' : Program T = record p { node = node } in
            let fetched : recv_split T p ≡ (quiet, p') = rw e refl in
            let same : some (node, q.node) ≡ some (n, m) = sym (rw e refl) ∙ h in
            let pair = some-injective (node, q.node) (n, m) same in
            (
              p',
              q,
              ap on fetched,
              record { node = ap (λ (x : S.Node × S.Node). x.0) pair; flows = refl },
              record { node = ap (λ (x : S.Node × S.Node). x.1) pair; flows = refl },
            )
        | inr e ↦
            let p' : Program T = record p { node = node; tot_s = u32 (p.tot_s + length f.buf) } in
            let fetched : recv_split T p ≡ (record { sent = some f.buf; written = none }, p') =
              rw e refl in
            let taken : given ≡ some (n, m) = sym (rw e refl) ∙ h in
            let ((r, to'), ran, last) = >>=-eq-some (lower_put env.link f.buf q.node) _ taken in
            let pair = some-injective (node, to') (n, m) last in
            (
              p',
              record q { tot_r = u32 (q.tot_r + length f.buf); node = to' },
              ap on fetched ∙ rw (e, ran) refl,
              record { node = ap (λ (x : S.Node × S.Node). x.0) pair; flows = refl },
              record { node = ap (λ (x : S.Node × S.Node). x.1) pair; flows = refl },
            )
      ]
