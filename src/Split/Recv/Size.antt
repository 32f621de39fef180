-- ===== src/Split/Recv/Size.antt =====
-- The arrays of the receive sessions, and the slices that are stored in them.
use ipcf.Common.{
  ℕ, ◌+◌, ◌*◌, ◌≡◌, ◌∙◌, refl, [], ◌∷◌, ◌++◌, length, take, drop, ltb, ◌==◌, not, Bool, true, false,
  Option, none, some, List, arith, if◌then◌else◌, inl, inr, Bool-cases, length-append, ltb-false→le,
  length-take, length-drop,
}
use mathlib.Core.Path.{subst}
use mathlib.Core.Option.{some-injective}
use ipcf.Common.Fault.{◌>>=◌}
use ipcf.Split.Bitmap.{set_bit}
use ipcf.Split.Slice.{cp_slice_to_rse, patch_rse, copy_len, slice_csum}
use ipcf.Split.Types.{Slice, Rse, Node, write_bytes, link_mtu, slice_data_len}
use ipcf.Split.Recv.{put_rse}

-- The array of each receive session has LINK_MTU bytes.
pub record AllRoom (n : Node) : Type 0 where
  pub each : (mac : ℕ) (se : Rse) → n.rse mac ≡ some se → length se.buf ≡ link_mtu

-- Where the code is no fault, its result has the property.
pub record Yields {A : Type 0} (P : A → Type 0) (o : Option A) : Type 0 where
  pub each : (x : A) → o ≡ some x → P x

pub Yields-some : {A : Type 0} (P : A → Type 0) (x : A) → P x → Yields P (some x)
Yields-some P x h = record { each = λ y e. subst P (some-injective x y e) h }

pub Yields->>= :
    {A B : Type 0} (P : B → Type 0) (o : Option A) (f : A → Option B)
    → ((x : A) → o ≡ some x → Yields P (f x))
    → Yields P (o >>= f)
Yields->>= P none f h = record { each = λ n e. cc }
Yields->>= P (some x) f h = h x refl

pub Yields-if :
    {A : Type 0} (P : A → Type 0) (b : Bool) {x y : Option A}
    → Yields P x
    → Yields P y
    → Yields P (if b then x else y)
Yields-if P true hx hy = hx
Yields-if P false hx hy = hy

abbrev pub Roomy : Option Node → Type 0
Roomy = Yields AllRoom

pub put_rse-AllRoom :
    (mac : ℕ) (se : Rse) (n : Node)
    → length se.buf ≡ link_mtu
    → AllRoom n
    → AllRoom (put_rse mac se n)
put_rse-AllRoom mac se n room h = record {
  each = λ i old e. elim (Bool-cases (i == mac)) [
    | inl at ↦ ground (arith, at, e, room)
    | inr other ↦ h.each i old (ground (arith, other, e))
  ];
}

write_bytes-length :
    (buf : List ℕ) (i : ℕ) (bytes : List ℕ)
    → Yields (λ (l : List ℕ). length l ≡ length buf) (write_bytes buf i bytes)
unfolding write_bytes
write_bytes-length buf i bytes =
    let P : List ℕ → Type 0 = λ l. length l ≡ length buf in
    elim (Bool-cases (ltb (length buf) (i + length bytes))) [
      | inl e ↦ rw e (record { each = λ l h. cc })
      | inr e ↦ rw e (
          Yields-some P _ (
            omega (
              arith,
              length-append (take i buf) (bytes ++ drop (i + length bytes) buf),
              length-append bytes (drop (i + length bytes) buf),
              length-take i buf,
              length-drop (i + length bytes) buf,
              ltb-false→le (length buf) (i + length bytes) e,
            )))
    ]

-- The room of a session.
abbrev pub HasSize : Rse → Type 0
HasSize se = length se.buf ≡ link_mtu

cp_slice_to_rse-HasSize :
    (se : Rse) (s : Slice) → HasSize se → Yields HasSize (cp_slice_to_rse se s)
unfolding cp_slice_to_rse
cp_slice_to_rse-HasSize se s h =
    let write =
      write_bytes-length se.buf (slice_data_len * s.seq) (take (copy_len se s.seq) s.payload) in
    Yields-if HasSize (not (s.csum == slice_csum s)) (Yields-some HasSize se h) (
      Yields-if HasSize (ltb se.n_slices s.seq) (Yields-some HasSize se h) (
        Yields->>= HasSize
          (write_bytes se.buf (slice_data_len * s.seq) (take (copy_len se s.seq) s.payload)) _
          (λ buf w. Yields->>= HasSize (set_bit se.bitmap s.seq) _ (λ bitmap b.
            Yields-some HasSize (record se { bitmap = bitmap; buf = buf })
              (write.each buf w ∙ h)))))

pub patch_rse-HasSize : (ss : List Slice) (se : Rse) → HasSize se → Yields HasSize (patch_rse se ss)
unfolding patch_rse
patch_rse-HasSize [] se h = Yields-some HasSize se h
patch_rse-HasSize (s ∷ ss) se h =
    Yields->>= HasSize (cp_slice_to_rse se s) _
      (λ se' e. patch_rse-HasSize ss se' ((cp_slice_to_rse-HasSize se s h).each se' e))
