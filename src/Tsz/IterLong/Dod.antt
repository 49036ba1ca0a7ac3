-- ===== src/Tsz/IterLong/Dod.antt =====
-- `dod` reads what the switch of `Push` on the delta of deltas writes.
use metrictank.Common.{
  ℕ, suc, ◌+◌, ◌*◌, ◌%◌, ◌^◌, ◌≤◌, ◌<◌, ◌≡◌, refl, sym, ap, Bool, true, false, List, ◌∷◌, ◌++◌,
  ◌==◌, if◌then◌else◌, arith, Option, none, some,
}
use metrictank.Tsz.Bits.{bits_of}
use metrictank.Tsz.SeriesLong.{in_range, sign_extend}
use metrictank.Tsz.Breader.{Breader, ok, read_bit, read_bits}
use metrictank.Tsz.Breader.Content.{content, IsValid}
use metrictank.Tsz.Breader.Yields.{Yields, read_bit-Yields, read_bits-Yields, Yields-bind}
use metrictank.Tsz.IterLong.{read_prefix, narrow, read_sized, dod_by, read_dod}
use metrictank.Tsz.IterLong.Code.{dod_code}

prefix_one :
    (n d x : ℕ) (b : Breader) (mid rest : List Bool)
    → IsValid b
    → content b ≡ true ∷ mid
    → ((b' : Breader)
        → IsValid b'
        → content b' ≡ mid
        → Yields (read_prefix n (d * 2 + 1) b') x rest)
    → Yields (read_prefix (suc n) d b) x rest
unfolding read_prefix
prefix_one n d x b mid rest v e k =
    Yields-bind (read_bit b) _ true x mid rest (read_bit-Yields b true mid v e) k

prefix_zero :
    (n d : ℕ) (b : Breader) (rest : List Bool)
    → IsValid b
    → content b ≡ false ∷ rest
    → Yields (read_prefix (suc n) d b) (d * 2) rest
unfolding read_prefix Yields
prefix_zero n d b rest v e =
    Yields-bind (read_bit b) _ false (d * 2) rest rest (read_bit-Yields b false rest v e)
      (λ b' v' e'. (b', refl, e', v'))

-- The narrow codes give back the delta, as a number or as its complement.
narrow_7 :
    (dod : ℕ) → dod < 2 ^ 32 → in_range 63 64 dod ≡ true → narrow 7 (sign_extend dod % 2 ^ 7) ≡ dod
unfolding narrow
narrow_7 dod h e = ground arith

narrow_9 :
    (dod : ℕ)
    → dod < 2 ^ 32
    → in_range 255 256 dod ≡ true
    → narrow 9 (sign_extend dod % 2 ^ 9) ≡ dod
unfolding narrow
narrow_9 dod h e = ground arith

narrow_12 :
    (dod : ℕ)
    → dod < 2 ^ 32
    → in_range 2047 2048 dod ≡ true
    → narrow 12 (sign_extend dod % 2 ^ 12) ≡ dod
unfolding narrow
narrow_12 dod h e = ground arith

whole : (dod : ℕ) → dod < 2 ^ 32 → sign_extend dod % 2 ^ 32 % 2 ^ 32 ≡ dod
whole dod h = ground arith

read_sized-Yields :
    (sz u dod : ℕ) (b : Breader) (rest : List Bool)
    → IsValid b
    → sz ≤ 64
    → content b ≡ bits_of sz u ++ rest
    → narrow sz (u % 2 ^ sz) ≡ dod
    → Yields (read_sized sz b) (some dod) rest
unfolding read_sized Yields
read_sized-Yields sz u dod b rest v le e n =
    Yields-bind (read_bits b sz) _ (u % 2 ^ sz) (some dod) rest rest
      (read_bits-Yields b sz u rest v le e) (λ b' v' e'. (b', ap (λ k. ok (some k, b')) n, e', v'))

-- What was written under a test.
pub by_test :
    {R : Type 0} (c : Bool) (xs ys rest out : List Bool)
    → out ≡ (if c then xs else ys) ++ rest
    → (c ≡ true → out ≡ xs ++ rest → R)
    → (c ≡ false → out ≡ ys ++ rest → R)
    → R
by_test true xs ys rest out e yes_case no_case = yes_case refl e
by_test false xs ys rest out e yes_case no_case = no_case refl e

-- The prefix, and then what its number selects.
dod_from :
    (b : Breader) (d : ℕ) (r : Option ℕ) (mid rest : List Bool)
    → Yields (read_prefix 5 0 b) d mid
    → ((b' : Breader) → IsValid b' → content b' ≡ mid → Yields (dod_by d b') r rest)
    → Yields (read_dod b) r rest
unfolding read_dod
dod_from b d r mid rest p k = Yields-bind (read_prefix 5 0 b) _ d r mid rest p k

prefix_2 :
    (b : Breader) (mid : List Bool)
    → IsValid b
    → content b ≡ bits_of 2 0x02 ++ mid
    → Yields (read_prefix 5 0 b) 0x02 mid
prefix_2 b mid v e =
    prefix_one 4 0 2 b (false ∷ mid) mid v e (λ b' v' e'. prefix_zero 3 1 b' mid v' e')

prefix_3 :
    (b : Breader) (mid : List Bool)
    → IsValid b
    → content b ≡ bits_of 3 0x06 ++ mid
    → Yields (read_prefix 5 0 b) 0x06 mid
prefix_3 b mid v e = prefix_one 4 0 6 b (true ∷ false ∷ mid) mid v e (λ b1 v1 e1.
    prefix_one 3 1 6 b1 (false ∷ mid) mid v1 e1 (λ b' v' e'. prefix_zero 2 3 b' mid v' e'))

prefix_4 :
    (b : Breader) (mid : List Bool)
    → IsValid b
    → content b ≡ bits_of 4 0x0e ++ mid
    → Yields (read_prefix 5 0 b) 0x0e mid
prefix_4 b mid v e = prefix_one 4 0 14 b (true ∷ true ∷ false ∷ mid) mid v e (λ b1 v1 e1.
    prefix_one 3 1 14 b1 (true ∷ false ∷ mid) mid v1 e1 (λ b2 v2 e2.
      prefix_one 2 3 14 b2 (false ∷ mid) mid v2 e2 (λ b' v' e'. prefix_zero 1 7 b' mid v' e')))

-- Five bits, the first four of which are set.
prefix_5 :
    (b : Breader) (x : ℕ) (last mid : List Bool)
    → IsValid b
    → content b ≡ true ∷ true ∷ true ∷ true ∷ last
    → ((b' : Breader) → IsValid b' → content b' ≡ last → Yields (read_prefix 1 15 b') x mid)
    → Yields (read_prefix 5 0 b) x mid
prefix_5 b x last mid v e k = prefix_one 4 0 x b (true ∷ true ∷ true ∷ last) mid v e (λ b1 v1 e1.
    prefix_one 3 1 x b1 (true ∷ true ∷ last) mid v1 e1 (λ b2 v2 e2.
      prefix_one 2 3 x b2 (true ∷ last) mid v2 e2
        (λ b3 v3 e3. prefix_one 1 7 x b3 last mid v3 e3 k)))

-- `dod` reads the code of a delta of deltas.
pub read_dod-Yields :
    (b : Breader) (dod : ℕ) (rest : List Bool)
    → IsValid b
    → dod < 2 ^ 32
    → content b ≡ dod_code dod ++ rest
    → Yields (read_dod b) (some dod) rest
unfolding dod_by Yields
read_dod-Yields b dod rest v lt e =
    let x = sign_extend dod in
    by_test (dod == 0) _ _ rest (content b) e
      (λ z f.
        let n : dod ≡ 0 = ground arith in
        dod_from b 0 (some dod) rest rest (prefix_zero 4 0 b rest v f)
          (λ b' v' e'. (b', ap (λ k. ok (some k, b')) (sym n), e', v')))
      (λ z f.
        by_test (in_range 63 64 dod) _ _ rest (content b) f
          (λ t g.
            dod_from b 0x02 (some dod) (bits_of 7 x ++ rest) rest (prefix_2 b _ v g) (λ b' v' e'.
              read_sized-Yields 7 x dod b' rest v' (omega arith) e' (narrow_7 dod lt t)))
          (λ t g.
            by_test (in_range 255 256 dod) _ _ rest (content b) g
              (λ t h.
                dod_from b 0x06 (some dod) (bits_of 9 x ++ rest) rest (prefix_3 b _ v h)
                  (λ b' v' e'.
                    read_sized-Yields 9 x dod b' rest v' (omega arith) e' (narrow_9 dod lt t)))
              (λ t h.
                by_test (in_range 2047 2048 dod) _ _ rest (content b) h
                  (λ t i.
                    dod_from b 0x0e (some dod) (bits_of 12 x ++ rest) rest (prefix_4 b _ v i)
                      (λ b' v' e'.
                        read_sized-Yields 12 x dod b' rest v' (omega arith) e'
                          (narrow_12 dod lt t)))
                  (λ t i.
                    dod_from b 0x1e (some dod) (bits_of 32 x ++ rest) rest
                      (prefix_5 b 0x1e _ _ v i (λ b' v' e'. prefix_zero 0 15 b' _ v' e'))
                      (λ b' v' e'.
                        Yields-bind (read_bits b' 32) _ (x % 2 ^ 32) (some dod) rest rest
                          (read_bits-Yields b' 32 x rest v' (omega arith) e')
                          (λ c w g. (c, ap (λ k. ok (some k, c)) (whole dod lt), g, w)))))))

-- The marker is read as the end of the stream.
pub read_marker-Yields :
    (b : Breader) (rest : List Bool)
    → IsValid b
    → content b ≡ bits_of 5 0x1f ++ rest
    → Yields (read_dod b) none rest
unfolding dod_by read_prefix Yields
read_marker-Yields b rest v e =
    dod_from b 0x1f none rest rest
      (prefix_5 b 0x1f (true ∷ rest) rest v e
        (λ b4 v4 e4. prefix_one 0 15 0x1f b4 rest rest v4 e4 (λ b5 v5 e5. (b5, refl, e5, v5))))
      (λ b' v' e'. (b', refl, e', v'))
