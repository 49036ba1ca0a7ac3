-- ===== src/Tsz/Breader/Yields.antt =====
-- What a read yields and what it leaves.
use metrictank.Common.{ℕ, ◌%◌, ◌^◌, ◌≤◌, ◌≡◌, ap, Bool, List, ◌∷◌, ◌++◌, length, arith}
use metrictank.Tsz.Bits.{bits_of}
use metrictank.Tsz.Breader.{Breader, Read, ok, ◌>>=◌, read_bit, read_bits}
use metrictank.Tsz.Breader.Content.{content, IsValid}
use metrictank.Tsz.Breader.Steps.{read_bit-Reads}
use metrictank.Tsz.Breader.Reads.{read_bits-content}

-- A read that yields `a` and leaves a valid reader in front of `rest`.
unfoldable pub Yields : {A : Type 0} → Read (A × Breader) → A → List Bool → Type 0
Yields {A} r a rest = (b : Breader) × (r ≡ ok (a, b)) × (content b ≡ rest) × IsValid b

pub read_bit-Yields :
    (b : Breader) (bit : Bool) (rest : List Bool)
    → IsValid b
    → content b ≡ bit ∷ rest
    → Yields (read_bit b) bit rest
unfolding Yields
read_bit-Yields b bit rest v e =
    let (x, b', run, bits, v') = read_bit-Reads b v (omega (arith, ap length e)) in (b', cc, cc, v')

pub read_bits-Yields :
    (b : Breader) (n u : ℕ) (rest : List Bool)
    → IsValid b
    → n ≤ 64
    → content b ≡ bits_of n u ++ rest
    → Yields (read_bits b n) (u % 2 ^ n) rest
unfolding Yields
read_bits-Yields b n u rest v le e = read_bits-content b n u rest v le e

pub Yields-bind :
    {A C : Type 0} (r : Read (A × Breader)) (f : A × Breader → Read (C × Breader)) (a : A) (c : C)
    (rest out : List Bool)
    → Yields r a rest
    → ((b : Breader) → IsValid b → content b ≡ rest → Yields (f (a, b)) c out)
    → Yields (r >>= f) c out
unfolding Yields
Yields-bind r f a c rest out (b, run, bits, v) k = rw (run, ◌>>=◌) (k b v bits)
