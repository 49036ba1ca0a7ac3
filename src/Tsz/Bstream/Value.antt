-- ===== src/Tsz/Bstream/Value.antt =====
-- What a stream of bits holds: the number that its bits spell, and how many they are.
use Prim.Native.Nat.{bit_or}
use metrictank.Common.{
  ℕ, zero, suc, ◌+◌, ◌-◌, ◌*◌, ◌/◌, ◌%◌, ◌^◌, ◌≤◌, ◌<◌, ◌≡◌, refl, sym, ap, ◌≢◌, subst, ◌∙◌, Bool,
  true, false, List, [], ◌∷◌, if◌then◌else◌, length, arith, All, ◌≢◌, subst,
}
use metrictank.Tsz.Bstream.Bytes.{bit_or-free, splits, bit_step, byte_step}
use metrictank.Tsz.Bstream.{Bstream, room, or_last, write_bit, write_byte}

-- The bytes as one number, the last byte lowest.
abbrev pub number : List ℕ → ℕ
number [] = 0
number (x ∷ xs) = number xs * 256 + x

-- The number that the written bits spell, most significant first.
abbrev pub value : Bstream → ℕ
value b = number b.stream / 2 ^ b.count

-- How many bits have been written.
abbrev pub size : Bstream → ℕ
size b = 8 * length b.stream - b.count

-- Whether the low `c` bits of the last byte are 0.
abbrev pub LastFree : List ℕ → ℕ → Type 0
LastFree [] c = c ≡ 0
LastFree (x ∷ xs) c = (x < 256) × (x % 2 ^ c ≡ 0)

-- The bytes are bytes, and the bits of the last one that are not written are 0.
pub record IsValid (b : Bstream) : Type 0 where
  pub count_le : b.count ≤ 8
  pub free : LastFree b.stream b.count
  pub bytes : All (λ x. x < 256) b.stream

-- The effect of writing `n` bits that spell `u` behind a valid stream.
pub record Writes (b b' : Bstream) (n u : ℕ) : Type 0 where
  pub valid : IsValid b'
  pub value_lem : value b' ≡ value b * 2 ^ n + u
  pub size_lem : size b' ≡ size b + n

-- A stream whose last byte has room.
record HasRoom (b r : Bstream) : Type 0 where
  some_left : r.count ≢ 0
  valid : IsValid r
  same_value : value r ≡ value b
  same_size : size r ≡ size b

room_at :
    (xs : List ℕ) (c : ℕ)
    → IsValid (record { stream = xs; count = c })
    → HasRoom (record { stream = xs; count = c }) (room (record { stream = xs; count = c }))
unfolding room
room_at xs zero v = record {
  some_left = omega arith;
  valid = record {
    count_le = omega arith;
    free = (omega arith, omega arith);
    bytes = (omega arith, v.bytes);
  };
  same_value = omega arith;
  same_size = omega arith;
}
room_at xs (suc c) v =
    let r : Bstream = record { stream = xs; count = suc c } in
    let same : room r ≡ r = ground arith in
    subst (HasRoom r) (sym same)
      (record { some_left = omega arith; valid = v; same_value = refl; same_size = refl })

room-HasRoom : (b : Bstream) → IsValid b → HasRoom b (room b)
room-HasRoom b v = room_at b.stream b.count v

abbrev pub bit_number : Bool → ℕ
bit_number true = 1
bit_number false = 0

bit_at :
    (xs : List ℕ) (c : ℕ) (bit : Bool)
    → IsValid (record { stream = xs; count = c })
    → c ≢ 0
    → Writes
        (record { stream = xs; count = c })
        (record { stream = if bit then or_last (2 ^ (c - 1)) xs else xs; count = c - 1 })
        1
        (bit_number bit)
unfolding or_last
bit_at [] c bit v ne = absurd (ne v.free)
bit_at (x ∷ xs) c true v ne =
    let (val, free, lt, small) =
      bit_step c v.count_le (number xs) x 1 v.free.0 v.free.1 (omega arith) ne in
    let e : bit_or x (2 ^ (c - 1)) ≡ x + 1 * 2 ^ (c - 1) =
      bit_or-free c x (2 ^ (c - 1)) v.count_le v.free.0 v.free.1 (omega arith) ∙ omega arith in
    record {
      valid = record {
        count_le = omega (arith, v.count_le);
        free = rw e (lt, free);
        bytes = (rw e lt, v.bytes.1);
      };
      value_lem = rw e (omega (arith, val));
      size_lem = omega (arith, v.count_le);
    }
bit_at (x ∷ xs) c false v ne =
    let (val, free, lt, small) =
      bit_step c v.count_le (number xs) x 0 v.free.0 v.free.1 (omega arith) ne in
    let e : x + 0 * 2 ^ (c - 1) ≡ x = omega arith in
    record {
      valid = record {
        count_le = omega (arith, v.count_le);
        free = (v.free.0, rw e at free);
        bytes = v.bytes;
      };
      value_lem = rw e at val;
      size_lem = omega (arith, v.count_le);
    }

byte_at :
    (xs : List ℕ) (c byt : ℕ)
    → IsValid (record { stream = xs; count = c })
    → c ≢ 0
    → byt < 256
    → Writes
        (record { stream = xs; count = c })
        (record { stream = (byt * 2 ^ c % 256) ∷ or_last (byt / 2 ^ (8 - c)) xs; count = c })
        8
        byt
unfolding or_last
byte_at [] c byt v ne lt = absurd (ne v.free)
byte_at (x ∷ xs) c byt v ne lt =
    let (val, free, small) = byte_step c v.count_le (number xs) x byt v.free.0 v.free.1 lt in
    let e : bit_or x (byt / 2 ^ (8 - c)) ≡ x + byt / 2 ^ (8 - c) =
      bit_or-free c x (byt / 2 ^ (8 - c)) v.count_le v.free.0 v.free.1 small in
    record {
      valid = record {
        count_le = v.count_le;
        free = (omega arith, free);
        bytes = (
          omega arith,
          (rw e (splits c v.count_le x (byt / 2 ^ (8 - c)) v.free.0 v.free.1 small).0, v.bytes.1),
        );
      };
      value_lem = rw e val;
      size_lem = omega (arith, v.count_le);
    }

-- Through `room`.
behind : {b r b' : Bstream} (n u : ℕ) → HasRoom b r → Writes r b' n u → Writes b b' n u
behind n u h w = record {
  valid = w.valid;
  value_lem = w.value_lem ∙ ap (λ k. k * 2 ^ n + u) h.same_value;
  size_lem = w.size_lem ∙ ap (λ k. k + n) h.same_size;
}

-- `writeBit` appends one bit.
pub write_bit-Writes :
    (b : Bstream) (bit : Bool) → IsValid b → Writes b (write_bit b bit) 1 (bit_number bit)
unfolding write_bit
write_bit-Writes b bit v =
    let h = room-HasRoom b v in
    behind 1 (bit_number bit) h (bit_at (room b).stream (room b).count bit h.valid h.some_left)

-- `writeByte` appends the eight bits of a byte.
pub write_byte-Writes :
    (b : Bstream) (byt : ℕ) → IsValid b → byt < 256 → Writes b (write_byte b byt) 8 byt
unfolding write_byte
write_byte-Writes b byt v lt =
    let h = room-HasRoom b v in
    behind 8 byt h (byte_at (room b).stream (room b).count byt h.valid h.some_left lt)
