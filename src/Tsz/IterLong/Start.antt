-- ===== src/Tsz/IterLong/Start.antt =====
-- A reader at the start of a stream that was written.
use native.Mathlib.Nat.{mod-lt, one-le-pow, div-add-mod'}
use mathlib.Core.List.{reverse-cons}
use metrictank.Common.{
  ℕ, suc, ◌+◌, ◌*◌, ◌/◌, ◌%◌, ◌^◌, ◌≤◌, ◌<◌, ◌≡◌, refl, sym, ap, ap₂, ◌∙◌, Bool, List, [], ◌∷◌,
  ◌++◌, length, arith, inr, append_assoc, append-nil, All, reverse,
}
use metrictank.Tsz.Bits.{bits_of, bits_of-append}
use metrictank.Tsz.Bstream.{Bstream}
use metrictank.Tsz.Bstream.Value.{number, size, value}
use metrictank.Tsz.Bstream.Value as Written
use metrictank.Tsz.Breader.Content.{bytes_bits, stream_bits, IsValid}
use metrictank.Tsz.Breader.Steps.{stream_bits_whole}
use metrictank.Tsz.IterLong.Code.{written}

bytes_bits-append : (xs ys : List ℕ) → bytes_bits (xs ++ ys) ≡ bytes_bits xs ++ bytes_bits ys
bytes_bits-append [] ys = refl
bytes_bits-append (x ∷ xs) ys =
    ap (λ bs. bits_of 8 x ++ bs) (bytes_bits-append xs ys)
    ∙ sym (append_assoc (bits_of 8 x) (bytes_bits xs) (bytes_bits ys))

-- The bytes of a stream, first byte first, spell its number.
bytes_bits-reverse :
    (xs : List ℕ)
    → All (λ x. x < 256) xs
    → bytes_bits (reverse xs) ≡ bits_of (8 * length xs) (number xs)
bytes_bits-reverse [] h = refl
bytes_bits-reverse (x ∷ xs) h =
    ap bytes_bits (reverse-cons x xs)
    ∙ bytes_bits-append (reverse xs) (x ∷ [])
    ∙ ap₂ (λ bs cs. bs ++ cs) (bytes_bits-reverse xs h.1) (append-nil (bits_of 8 x))
    ∙ sym (bits_of-append (8 * length xs) 8 (number xs) x (omega (arith, h.0)))
    ∙ ap (λ k. bits_of k (number xs * 2 ^ 8 + x)) {x = 8 * length xs + 8} {y = 8 * suc (length xs)}
        (omega arith)

stream_bits_start : (xs : List ℕ) → stream_bits xs 8 ≡ bytes_bits xs
stream_bits_start [] = refl
stream_bits_start (x ∷ xs) = stream_bits_whole 8 x xs refl

all_in : (xs : List ℕ) (c : ℕ) → Written.LastFree xs c → c ≤ 8 → c ≤ 8 * length xs
all_in [] c h le = omega (arith, h)
all_in (x ∷ xs) c h le = omega (arith, le)

-- A reader of a stream that was written has the written bits before it, and then the free ones.
pub reader_of :
    (b : Bstream)
    → Written.IsValid b
    → (pad : List Bool) × (stream_bits (reverse b.stream) 8 ≡ written b ++ pad)
reader_of b v =
    let fits = all_in b.stream b.count v.free v.count_le in
    let p = 2 ^ b.count in
    let n = number b.stream in
    (
      bits_of b.count (n % p),
      stream_bits_start (reverse b.stream)
          ∙ bytes_bits-reverse b.stream v.bytes
          ∙ ap₂ bits_of {x = 8 * length b.stream} {y = size b + b.count} (omega (arith, fits))
              (sym (div-add-mod' n p))
          ∙ bits_of-append (size b) b.count (n / p) (n % p)
              (mod-lt n (one-le-pow b.count 2 (omega arith))),
    )

pub free_start : (xs : List ℕ) → All (λ x. x < 256) xs → IsValid (record { stream = xs; count = 8 })
free_start [] h = record { count_le = omega arith; bytes = h; free = tt }
free_start (x ∷ xs) h = record { count_le = omega arith; bytes = h; free = inr (omega arith) }
