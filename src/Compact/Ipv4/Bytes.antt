-- ===== src/Compact/Ipv4/Bytes.antt =====
-- The bytes of the headers that are read from a buffer are the bytes that stand there.
use ipcf.Common.{
  ℕ, zero, suc, ◌+◌, ◌*◌, ◌/◌, ◌%◌, ◌^◌, ◌≤◌, ◌<◌, ◌≡◌, refl, sym, ap, ap₂, ◌∙◌, true, List, [],
  ◌∷◌, ◌++◌, arith, length, get_or, take, drop, All, get_or-drop, ◌==◌, ==_iff, length-drop,
}
use ipcf.Common.Bits.{all_below, all_below-true}
use ipcf.Common.Word.{IsByte, le16, le32, get16, get32}
use ipcf.Compact.Ipv4.{
  flag, flag_value, read_ip, ip_bytes, read_tcp, tcp_flags, tcp_bytes, read_udp, udp_bytes,
}

pub get_or-IsByte : (b : List ℕ) (i : ℕ) → All IsByte b → get_or b i 0 < 256
get_or-IsByte [] i h = omega arith
get_or-IsByte (x ∷ b) zero h = h.0
get_or-IsByte (x ∷ b) (suc i) h = get_or-IsByte b i h.1

pub get16-lt : (b : List ℕ) (i : ℕ) → All IsByte b → get16 b i < 65536
get16-lt b i h = omega (arith, get_or-IsByte b i h, get_or-IsByte b (i + 1) h)

pub get32-lt : (b : List ℕ) (i : ℕ) → All IsByte b → get32 b i < 2 ^ 32
get32-lt b i h = omega (arith, get16-lt b i h, get16-lt b (i + 2) h)

-- The elements of a list one by one.
abbrev tabulate : ℕ → (ℕ → ℕ) → List ℕ
tabulate zero f = []
tabulate (suc n) f = f 0 ∷ tabulate n (λ i. f (suc i))

take-tabulate : (n : ℕ) (xs : List ℕ) → n ≤ length xs → take n xs ≡ tabulate n (λ i. get_or xs i 0)
take-tabulate zero xs h = refl
take-tabulate (suc n) [] h = absurd (omega arith)
take-tabulate (suc n) (x ∷ xs) h = ap (λ l. x ∷ l) (take-tabulate n xs (omega arith))

le16-bytes : (x y : ℕ) → x < 256 → y < 256 → le16 (x + 256 * y) ≡ x ∷ y ∷ []
le16-bytes x y hx hy =
    ap (λ (l : ℕ). l ∷ (x + 256 * y) / 256 % 256 ∷ []) (omega arith)
    ∙ ap (λ (l : ℕ). x ∷ l ∷ []) (omega arith)

flags_table :
    all_below 256 (λ g.
      flag_value (flag g 0) 0
        + flag_value (flag g 1) 1
        + flag_value (flag g 2) 2
        + flag_value (flag g 3) 3
        + flag_value (flag g 4) 4
        + flag_value (flag g 5) 5
        + flag_value (flag g 6) 6
        + flag_value (flag g 7) 7
      == g)
    ≡ true
unfolding all_below
flags_table = refl

le32-bytes :
    (x y z w : ℕ)
    → x < 256
    → y < 256
    → z < 256
    → w < 256
    → le32 (x + 256 * y + 65536 * (z + 256 * w)) ≡ x ∷ y ∷ z ∷ w ∷ []
le32-bytes x y z w hx hy hz hw =
    let n = x + 256 * y + 65536 * (z + 256 * w) in
    let e₀ : n % 256 ≡ x = omega arith in
    let e₁ : n / 256 % 256 ≡ y = omega arith in
    let e₂ : n / 65536 % 256 ≡ z = omega arith in
    let e₃ : n / 2 ^ 24 % 256 ≡ w = omega arith in rw (e₀, e₁, e₂, e₃) refl

get_or_after : (n : ℕ) (b : List ℕ) (i : ℕ) → get_or (drop n b) i 0 ≡ get_or b (n + i) 0
get_or_after n b i = get_or-drop 0 n b i (n + i) refl

-- The bytes of the transport headers behind an IP header of 20 bytes.
module _ (b : List ℕ) (bytes : All IsByte b) where
  two : (i : ℕ) → le16 (get16 b i) ≡ get_or b i 0 ∷ get_or b (i + 1) 0 ∷ []
  two i =
      le16-bytes (get_or b i 0) (get_or b (i + 1) 0) (get_or-IsByte b i bytes)
        (get_or-IsByte b (i + 1) bytes)

  four :
      (i : ℕ)
      → le32 (get32 b i)
        ≡ get_or b i 0 ∷ get_or b (i + 1) 0 ∷ get_or b (i + 2) 0 ∷ get_or b (i + 2 + 1) 0 ∷ []
  four i =
      le32-bytes (get_or b i 0) (get_or b (i + 1) 0) (get_or b (i + 2) 0) (get_or b (i + 2 + 1) 0)
        (get_or-IsByte b i bytes) (get_or-IsByte b (i + 1) bytes) (get_or-IsByte b (i + 2) bytes)
        (get_or-IsByte b (i + 2 + 1) bytes)

  pub udp_bytes-read_udp : 28 ≤ length b → udp_bytes (read_udp b 20) ≡ take 8 (drop 20 b)
  udp_bytes-read_udp h =
      ap₂ ◌++◌ (two 20) (ap₂ ◌++◌ (two 22) (ap₂ ◌++◌ (two 24) (two 26)))
      ∙ sym (take-tabulate 8 (drop 20 b) (omega (arith, length-drop 20 b)) ∙ simp get_or_after refl)

  pub tcp_bytes-read_tcp : 40 ≤ length b → tcp_bytes (read_tcp b 20) ≡ take 20 (drop 20 b)
  tcp_bytes-read_tcp h =
      let offset : get_or b 32 0 % 16 + 16 * (get_or b 32 0 / 16) ≡ get_or b 32 0 = omega arith in
      let flags : tcp_flags (read_tcp b 20) ≡ get_or b 33 0 =
        (==_iff _ _).0
          (all_below-true _ 256 flags_table (get_or b 33 0) (get_or-IsByte b 33 bytes)) in
      ap₂ ◌++◌ (two 20) (
        ap₂ ◌++◌ (two 22) (
          ap₂ ◌++◌ (four 24) (
            ap₂ ◌++◌ (four 28)
              (ap₂ ◌∷◌ offset (ap₂ ◌∷◌ flags (ap₂ ◌++◌ (two 34) (ap₂ ◌++◌ (two 36) (two 38))))))))
      ∙ sym
          (take-tabulate 20 (drop 20 b) (omega (arith, length-drop 20 b)) ∙ simp get_or_after refl)

-- The TCP header that was cut out of a packet.
pub read_tcp-take : (b : List ℕ) → 40 ≤ length b → read_tcp (take 20 (drop 20 b)) 0 ≡ read_tcp b 20
read_tcp-take b h =
    ap (λ l. read_tcp l 0) (take-tabulate 20 (drop 20 b) (omega (arith, length-drop 20 b)))
    ∙ simp get_or_after refl

-- What is read of the bytes of a word.
pub word16 : (n : ℕ) → n < 2 ^ 16 → n % 256 + 256 * (n / 256 % 256) ≡ n
word16 n h = omega arith

pub word32 :
    (n : ℕ)
    → n < 2 ^ 32
    → n % 256 + 256 * (n / 256 % 256) + 65536 * (n / 65536 % 256 + 256 * (n / 2 ^ 24 % 256)) ≡ n
word32 n h = omega arith

-- The IP header of a packet, behind the three bytes of a frame's header.
pub read_ip-ip_bytes :
    (b : List ℕ) (x y z : ℕ) (rest : List ℕ)
    → All IsByte b
    → read_ip (x ∷ y ∷ z ∷ ip_bytes (read_ip b 0) ++ rest) 3 ≡ read_ip b 0
read_ip-ip_bytes b x y z rest bytes =
    let ihl : (get_or b 0 0 % 16 + 16 * (get_or b 0 0 / 16)) % 16 ≡ get_or b 0 0 % 16 =
      omega arith in
    let version : (get_or b 0 0 % 16 + 16 * (get_or b 0 0 / 16)) / 16 ≡ get_or b 0 0 / 16 =
      omega arith in
    rw
      (
        ihl,
        version,
        word16 (get16 b 2) (get16-lt b 2 bytes),
        word16 (get16 b 4) (get16-lt b 4 bytes),
        word16 (get16 b 6) (get16-lt b 6 bytes),
        word16 (get16 b 10) (get16-lt b 10 bytes),
        word32 (get32 b 12) (get32-lt b 12 bytes),
        word32 (get32 b 16) (get32-lt b 16 bytes),
      )
      refl
