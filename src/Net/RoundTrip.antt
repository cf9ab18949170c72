-- ===== src/Net/RoundTrip.antt =====
-- A printed target is read back: splitHostPort over decimal numbers.
use istio_forward_proxy.Base.{
  ℕ, zero, suc, ◌+◌, ◌-◌, ◌*◌, ◌/◌, ◌%◌, ◌≤◌, ◌<◌, true, false, ◌||◌, [], ◌∷◌, ◌++◌, none, some,
  Bytes, contains, equal, last_index_byte, take, drop, length, take-append, drop-append, ltb, ◌==◌,
  ◌≡◌, refl, ap, sym, ◌∙◌, arith, Bool-cases, inl, inr, append_assoc, length-append,
}
use istio_forward_proxy.Net.{
  max_uint32, read_digits, parse_uint, decimal_from, decimal, split_plain, starts_bracketed,
  net_split_host_port, split_host_port,
}

read_digit :
    (d n : ℕ) (s : Bytes)
    → d < 10
    → n * 10 + d ≤ max_uint32
    → read_digits ((b'0' + d) ∷ s) n ≡ read_digits s (n * 10 + d)
unfolding read_digits
read_digit d n s small fits =
    let value : b'0' + d - b'0' ≡ d = omega arith in
    let low : ltb (b'0' + d) b'0' ≡ false = ground arith in
    let high : ltb b'9' (b'0' + d) ≡ false = ground arith in
    let fit : ltb max_uint32 (n * 10 + d) ≡ false = ground arith in rw (value, low, high, fit) refl

-- The digits of a number read as that number, before whatever follows.
read_digits-decimal_from :
    (fuel n : ℕ) (s : Bytes)
    → n < fuel
    → n ≤ max_uint32
    → read_digits (decimal_from fuel n s) 0 ≡ read_digits s n
unfolding decimal_from
read_digits-decimal_from zero n s enough fits = absurd (omega arith)
read_digits-decimal_from (suc fuel) n s enough fits = elim (Bool-cases (ltb n 10)) [
  | inl one ↦
      let value : 0 * 10 + n ≡ n = omega arith in
      rw one (read_digit n 0 s (ground arith) (omega arith) ∙ ap (read_digits s) value)
  | inr more ↦
      let big : 10 ≤ n = ground arith in
      let value : n / 10 * 10 + n % 10 ≡ n = omega arith in
      rw more (
        read_digits-decimal_from fuel (n / 10) ((b'0' + n % 10) ∷ s) (omega arith) (omega arith)
        ∙ read_digit (n % 10) (n / 10) s (omega arith) (omega arith)
        ∙ ap (read_digits s) value)
]

parse_nonempty :
    (fuel n c : ℕ) (s : Bytes)
    → parse_uint (decimal_from fuel n (c ∷ s)) ≡ read_digits (decimal_from fuel n (c ∷ s)) 0
unfolding decimal_from parse_uint
parse_nonempty zero n c s = refl
parse_nonempty (suc fuel) n c s = elim (Bool-cases (ltb n 10)) [
  | inl one ↦ rw one refl
  | inr more ↦ rw more (parse_nonempty fuel (n / 10) (b'0' + n % 10) (c ∷ s))
]

parse_digits :
    (fuel n : ℕ)
    → parse_uint (decimal_from (suc fuel) n []) ≡ read_digits (decimal_from (suc fuel) n []) 0
unfolding decimal_from parse_uint
parse_digits fuel n = elim (Bool-cases (ltb n 10)) [
  | inl one ↦ rw one refl
  | inr more ↦ rw more (parse_nonempty fuel (n / 10) (b'0' + n % 10) [])
]

parse_uint-decimal : (n : ℕ) → n ≤ max_uint32 → parse_uint (decimal n) ≡ some n
unfolding decimal
parse_uint-decimal n fits =
    let fuel : n + 1 ≡ suc n = omega arith in
    rw fuel (
      parse_digits n n
      ∙ read_digits-decimal_from (suc n) n [] (omega arith) fits
      ∙ unfold read_digits in refl)

contains-append : (s t : Bytes) (c : ℕ) → contains (s ++ t) c ≡ (contains s c || contains t c)
unfolding contains
contains-append [] t c = refl
contains-append (a ∷ s) t c = ground (arith, contains-append s t c)

-- The digits hold no byte above '9'.
contains-decimal_from :
    (fuel n : ℕ) (s : Bytes) (c : ℕ)
    → b'9' < c
    → contains s c ≡ false
    → contains (decimal_from fuel n s) c ≡ false
unfolding decimal_from contains
contains-decimal_from zero n s c above rest = rest
contains-decimal_from (suc fuel) n s c above rest = elim (Bool-cases (ltb n 10)) [
  | inl one ↦ let other : ((b'0' + n) == c) ≡ false = ground arith in rw (one, other) rest
  | inr more ↦
      let other : ((b'0' + n % 10) == c) ≡ false = ground (arith) in
      rw more (contains-decimal_from fuel (n / 10) _ c above (rw other rest))
]

last_index_byte-none : (s : Bytes) (c : ℕ) → contains s c ≡ false → last_index_byte s c ≡ none
unfolding contains last_index_byte
last_index_byte-none [] c h = refl
last_index_byte-none (a ∷ s) c h = ground (arith, last_index_byte-none s c)

last_index_byte-append :
    (s t : Bytes) (c : ℕ) → contains t c ≡ false → last_index_byte (s ++ c ∷ t) c ≡ some (length s)
unfolding last_index_byte
last_index_byte-append [] t c h =
    let same : (c == c) ≡ true = ground arith in rw (last_index_byte-none t c h, same) refl
last_index_byte-append (a ∷ s) t c h = rw (last_index_byte-append s t c h) refl

starts_bracketed-join :
    (host port : Bytes)
    → contains host b'[' ≡ false
    → starts_bracketed (host ++ b':' ∷ port) ≡ false
unfolding starts_bracketed contains equal
starts_bracketed-join [] port h = refl
starts_bracketed-join (a ∷ host) port h = ground arith

-- A host and a port joined by a colon, with no other colon and no bracket, are split again.
net_split-join :
    (host port : Bytes)
    → contains host b':' ≡ false
    → contains host b'[' ≡ false
    → contains host b']' ≡ false
    → contains port b':' ≡ false
    → contains port b'[' ≡ false
    → contains port b']' ≡ false
    → net_split_host_port (host ++ b':' ∷ port) ≡ some (host, port)
unfolding net_split_host_port split_plain
net_split-join host port a b c d e f =
    let whole = host ++ b':' ∷ port in
    let last : last_index_byte whole b':' ≡ some (length host) =
      last_index_byte-append host port b':' d in
    let plain = starts_bracketed-join host port b in
    let front : take (length host) whole ≡ host = take-append host (b':' ∷ port) in
    let back : drop (length host + 1) whole ≡ port = drop-join host port in
    let left : contains whole b'[' ≡ false = rest b'[' b (unfold contains in e) in
    let right : contains whole b']' ≡ false = rest b']' c (unfold contains in f) in
    rw (last, net_split_host_port, plain, front, a, left, right, back) refl
  where
    drop-join : (s t : Bytes) → drop (length s + 1) (s ++ b':' ∷ t) ≡ t
    drop-join s t =
        let split : s ++ b':' ∷ t ≡ (s ++ b':' ∷ []) ++ t = sym (append_assoc s (b':' ∷ []) t) in
        let size : length s + 1 ≡ length (s ++ b':' ∷ []) = sym (length-append s (b':' ∷ [])) in
        rw (split, size) (drop-append (s ++ b':' ∷ []) t)

    rest :
        (c : ℕ)
        → contains host c ≡ false
        → contains (b':' ∷ port) c ≡ false
        → contains (host ++ b':' ∷ port) c ≡ false
    rest c h k = rw (contains-append host (b':' ∷ port) c, h, k) refl

no_byte : (n x : ℕ) → b'9' < x → contains (decimal n) x ≡ false
unfolding decimal contains
no_byte n x above = contains-decimal_from (n + 1) n [] x above refl

-- A host that has no colon and no bracket, and a port of 32 bits in decimal after a colon, are read
-- back by splitHostPort, whatever its default port.
pub split_host_port-decimal :
    (host : Bytes) (port default_port : ℕ)
    → contains host b':' ≡ false
    → contains host b'[' ≡ false
    → contains host b']' ≡ false
    → port ≤ max_uint32
    → split_host_port (host ++ b':' ∷ decimal port) default_port ≡ (host, port)
unfolding split_host_port
split_host_port-decimal host port default_port a b c fits =
    rw
      (
        net_split-join host (decimal port) a b c (no_byte port b':' (omega arith))
            (no_byte port b'[' (omega arith)) (no_byte port b']' (omega arith)),
        split_host_port,
        parse_uint-decimal port fits,
      )
      refl
