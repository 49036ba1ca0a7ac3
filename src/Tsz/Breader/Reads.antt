-- ===== src/Tsz/Breader/Reads.antt =====
-- `readBits` takes the bits at the front.
use native.Mathlib.Nat.{
  mod-lt, one-le-pow, div-add-mod', mod-eq_of_lt, mul-le-mul_right, mul-le-mul_left,
}
use metrictank.Common.{
  ℕ, zero, suc, ◌+◌, ◌-◌, ◌*◌, ◌/◌, ◌%◌, ◌^◌, ◌≤◌, ◌<◌, ◌≡◌, refl, sym, ap, ◌∙◌, inl, inr, Bool,
  false, List, [], ◌∷◌, ◌++◌, length, ltb, ◌==◌, arith, append_assoc, append-nil, subst, Bool-cases,
}
use metrictank.Tsz.Bits.{bits_of, bits_of-append, bits_of-inj, length-bits_of, length-append}
use metrictank.Tsz.Bstream.Write.{pow-add}
use metrictank.Tsz.Breader.{Breader, ok, ◌>>=◌, read_bytes, read_top, read_rest, read_bits}
use metrictank.Tsz.Breader.Content.{content, stream_bits, IsValid, shift_out-Shifts}
use metrictank.Tsz.Breader.Steps.{Reads, read_byte-Reads, stream_bits_shift, stream_bits_whole}

-- Two numbers put together fit the bits of both.
fits_both : (m n u v : ℕ) → u < 2 ^ m → v < 2 ^ n → u * 2 ^ n + v < 2 ^ (m + n)
fits_both m n u v hu hv = rw (pow-add m n) (omega (arith, hv, mul-le-mul_right (2 ^ n) hu))

Reads-trans :
    {a b c : Breader} (m n u v : ℕ)
    → Reads a m u b
    → Reads b n v c
    → Reads a (m + n) (u * 2 ^ n + v) c
Reads-trans {c = c} m n u v r s = record {
  valid = s.valid;
  fits = fits_both m n u v r.fits s.fits;
  bits_lem =
      r.bits_lem
      ∙ ap (λ bs. bits_of m u ++ bs) s.bits_lem
      ∙ sym (append_assoc (bits_of m u) (bits_of n v) (content c))
      ∙ ap (λ bs. bs ++ content c) (sym (bits_of-append m n u v s.fits));
}

-- A read leaves the other bits.
length-Reads :
    {a b : Breader} (n u : ℕ) → Reads a n u b → length (content a) ≡ n + length (content b)
length-Reads {b = b} n u r =
    ap length r.bits_lem
    ∙ length-append (bits_of n u) (content b)
    ∙ ap (λ k. k + length (content b)) (length-bits_of n u)

-- Shifting `u` out of the way loses nothing while all the bits fit a word.
shift_fits : (m n u : ℕ) → u < 2 ^ m → m + n ≤ 64 → u * 2 ^ n % 2 ^ 64 ≡ u * 2 ^ n
shift_fits m n u h le =
    mod-eq_of_lt (omega (arith, fits_both m n u 0 h (one-le-pow n 2 (omega arith)), grows))
  where
    grows : 2 ^ (m + n) ≤ 2 ^ 64
    grows =
        let e : m + n + (64 - (m + n)) ≡ 64 = omega arith in
        let p = pow-add (m + n) (64 - (m + n)) in
        omega (
          arith,
          ap (λ k. 2 ^ k) e,
          p,
          mul-le-mul_left (2 ^ (m + n)) (one-le-pow (64 - (m + n)) 2 (omega arith)),
        )

-- What a read that began at `a` has so far: `u`, from the first `m` bits, with the reader at `b`.
read_bytes-Reads :
    (n m u : ℕ) (a b : Breader)
    → m + 8 * n ≤ 64
    → Reads a m u b
    → 8 * n ≤ length (content b)
    → (u' : ℕ) × (b' : Breader) × (read_bytes n u b ≡ ok (u', b')) × Reads a (m + 8 * n) u' b'
unfolding read_bytes
read_bytes-Reads zero m u a b le r h =
    (u, b, refl, subst (λ k. Reads a k u b) {x = m} {y = m + 8 * 0} (omega arith) r)
read_bytes-Reads (suc n) m u a b le r h =
    let (x, c, run, s) = read_byte-Reads b r.valid (omega arith) in
    let (u', b', rest, t) =
      read_bytes-Reads n (m + 8) (u * 2 ^ 8 + x) a c (omega arith) (Reads-trans m 8 u x r s)
        (omega (arith, h, length-Reads 8 x s)) in
    (
      u',
      b',
      rw (run, ◌>>=◌, shift_fits m 8 u r.fits (omega arith)) rest,
      subst (λ k. Reads a k u' b') {x = m + 8 + 8 * n} {y = m + 8 * suc n} (omega arith) t,
    )

-- The bits of the first byte, behind those that have been read.
read_top-Reads :
    (m n u x c : ℕ) (xs : List ℕ) (a : Breader)
    → m + n ≤ 64
    → n ≤ c
    → Reads a m u (record { stream = x ∷ xs; count = c })
    → (u' : ℕ) × (b' : Breader) × (read_top u n (x ∷ xs) c ≡ ok (u', b')) × Reads a (m + n) u' b'
unfolding read_top
read_top-Reads m n u x c xs a le hn r =
    let s = shift_out-Shifts c n x r.valid.count_le hn r.valid.bytes.0 in
    let b' : Breader = record { stream = (x * 2 ^ n % 256) ∷ xs; count = c - n } in
    let z = x / 2 ^ (8 - n) in
    (
      u * 2 ^ n + z,
      b',
      rw (shift_fits m n u r.fits le) refl,
      Reads-trans m n u z r (record {
        valid = record {
          count_le = omega (arith, r.valid.count_le);
          bytes = (omega arith, r.valid.bytes.1);
          free = elim r.valid.free [ inl e ↦ inl (omega (arith, e)) | inr e ↦ inr (s.free e) ];
        };
        fits = s.top;
        bits_lem = stream_bits_shift c n x xs r.valid.count_le hn r.valid.bytes.0;
      }),
    )

read_rest-Reads :
    (m n u c : ℕ) (xs : List ℕ) (a : Breader)
    → m + n ≤ 64
    → n < 8
    → 0 < n
    → Reads a m u (record { stream = xs; count = c })
    → n ≤ length (stream_bits xs c)
    → (u' : ℕ) × (b' : Breader) × (read_rest u n xs c ≡ ok (u', b')) × Reads a (m + n) u' b'
unfolding read_rest
read_rest-Reads m n u c [] a le small pos r h = absurd (omega (arith, h))
read_rest-Reads m n u c (x ∷ []) a le small pos r h =
    let z = bits_of c (x / 2 ^ (8 - c)) in
    let hn : n ≤ c =
      omega (arith, h, ap length (append-nil z), length-bits_of c (x / 2 ^ (8 - c))) in
    let enough : ltb c n ≡ false = ground arith in rw enough (read_top-Reads m n u x c [] a le hn r)
read_rest-Reads m n u c (x ∷ y ∷ ys) a le small pos r h = elim (Bool-cases (ltb c n)) [
  | inr e ↦ rw e (read_top-Reads m n u x c (y ∷ ys) a le (ground arith) r)
  | inl e ↦
      let lt : c < n = ground arith in
      let z = x / 2 ^ (8 - c) in
      let s = shift_out-Shifts c c x r.valid.count_le (omega arith) r.valid.bytes.0 in
      let b : Breader = record { stream = y ∷ ys; count = 8 } in
      let first : Reads (record { stream = x ∷ y ∷ ys; count = c }) c z b = record {
        valid = record {
          count_le = omega arith;
          bytes = r.valid.bytes.1;
          free = inr (omega arith);
        };
        fits = s.top;
        bits_lem = ap (λ bs. bits_of c z ++ bs) (sym (stream_bits_whole 8 y ys refl));
      } in
      let so_far = Reads-trans m c u z r first in
      let (u', b', run, t) =
        read_top-Reads (m + c) (n - c) (u * 2 ^ c + z) y 8 ys a (omega (arith, lt)) (omega arith)
          so_far in
      (
        u',
        b',
        rw (e, shift_fits m c u r.fits (omega (arith, lt))) run,
        subst (λ k. Reads a k u' b') {x = m + c + (n - c)} {y = m + n} (omega (arith, lt)) t,
      )
]

-- `readBits` of at most 64 bits, of a stream that has them.
read_bits-total :
    (b : Breader) (n : ℕ)
    → IsValid b
    → n ≤ 64
    → n ≤ length (content b)
    → (u : ℕ) × (b' : Breader) × (read_bits b n ≡ ok (u, b')) × Reads b n u b'
unfolding read_bits
read_bits-total b n v le h =
    let d = div-add-mod' n 8 in
    let l = mod-lt n {m = 8} (omega arith) in
    let nothing : Reads b 0 0 b = record { valid = v; fits = omega arith; bits_lem = refl } in
    let (u, c, run, r) =
      read_bytes-Reads (n / 8) 0 0 b b (omega (arith, d, le)) nothing (omega (arith, d, h)) in
    elim (Bool-cases (n % 8 == 0)) [
      | inl e ↦
          let z : n % 8 ≡ 0 = ground arith in
          (
            u,
            c,
            rw (run, ◌>>=◌, e) refl,
            subst (λ k. Reads b k u c) {x = 0 + 8 * (n / 8)} {y = n} (omega (arith, d, z)) r,
          )
      | inr e ↦
          let pos : 0 < n % 8 = ground arith in
          let (u', b', rest, t) =
            read_rest-Reads (0 + 8 * (n / 8)) (n % 8) u c.count c.stream b (omega (arith, d, le)) l
              pos r (omega (arith, d, h, length-Reads (0 + 8 * (n / 8)) u r)) in
          (
            u',
            b',
            rw (run, ◌>>=◌, e) rest,
            subst (λ k. Reads b k u' b') {x = 0 + 8 * (n / 8) + n % 8} {y = n} (omega (arith, d)) t,
          )
    ]

-- For a valid reader in front of `n` bits that spell `u`, and others behind them, `readBits` of those
-- at most 64 bits yields the low `n` bits of `u`, and leaves a valid reader in front of the others.
pub read_bits-content :
    (b : Breader) (n u : ℕ) (rest : List Bool)
    → IsValid b
    → n ≤ 64
    → content b ≡ bits_of n u ++ rest
    → (b' : Breader) × (read_bits b n ≡ ok (u % 2 ^ n, b')) × (content b' ≡ rest) × IsValid b'
read_bits-content b n u rest v le e =
    let enough : n ≤ length (content b) =
      omega (arith, ap length e, length-append (bits_of n u) rest, length-bits_of n u) in
    let (u', b', run, r) = read_bits-total b n v le enough in
    let (same, left) = bits_of-inj n u' u (content b') rest (sym r.bits_lem ∙ e) in
    (b', run ∙ ap (λ k. ok (k, b')) (sym (mod-eq_of_lt r.fits) ∙ same), left, r.valid)
