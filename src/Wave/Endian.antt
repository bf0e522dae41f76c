-- ===== src/Wave/Endian.antt =====
-- wavecuepoint/wavecuepoint.c: the conversions between unsigned ints and little endian bytes, for a
-- host of either byte order. A byte is a number below 256.
use csnip.Base.{
  ℕ, ◌+◌, ◌*◌, ◌/◌, ◌%◌, ◌^◌, ◌<◌, ◌≡◌, ◌⊎◌, inl, inr, refl, List, [], ◌∷◌, arith, ◌==◌,
  if◌then◌else◌, get_or,
}

pub data Host : Type 0 where
  little_endian big_endian : Host

-- A uint32_t in the host's memory, and back.
abbrev pub in_memory : Host → ℕ → List ℕ
in_memory little_endian v =
    (v % 256) ∷ (v / 256 % 256) ∷ (v / 65536 % 256) ∷ (v / 16777216 % 256) ∷ []
in_memory big_endian v = (v / 16777216 % 256) ∷ (v / 65536 % 256) ∷ (v / 256 % 256) ∷ (v % 256) ∷ []

abbrev pub from_memory : Host → ℕ → ℕ → ℕ → ℕ → ℕ
from_memory little_endian a b c d = a + 256 * b + 65536 * c + 16777216 * d
from_memory big_endian a b c d = d + 256 * c + 65536 * b + 16777216 * a

-- A uint16_t in the host's memory.
abbrev pub in_memory16 : Host → ℕ → List ℕ
in_memory16 little_endian v = (v % 256) ∷ (v / 256 % 256) ∷ []
in_memory16 big_endian v = (v / 256 % 256) ∷ (v % 256) ∷ []

-- `int i = 1` through a pointer to its first byte
unfoldable pub get_host_endianness : Host → Host
get_host_endianness host = if get_or (in_memory host 1) 0 0 == 1 then little_endian else big_endian

unfoldable pub bytes_to_uint32 : Host → List ℕ → ℕ
bytes_to_uint32 host bytes = elim (get_host_endianness host) [
  | little_endian ↦
      from_memory host (get_or bytes 0 0) (get_or bytes 1 0) (get_or bytes 2 0) (get_or bytes 3 0)
  | big_endian ↦
      from_memory host (get_or bytes 3 0) (get_or bytes 2 0) (get_or bytes 1 0) (get_or bytes 0 0)
]

unfoldable pub uint32_to_bytes : Host → ℕ → List ℕ
uint32_to_bytes host value =
    let m = in_memory host value in
    elim (get_host_endianness host) [
      | little_endian ↦ get_or m 0 0 ∷ get_or m 1 0 ∷ get_or m 2 0 ∷ get_or m 3 0 ∷ []
      | big_endian ↦ get_or m 3 0 ∷ get_or m 2 0 ∷ get_or m 1 0 ∷ get_or m 0 0 ∷ []
    ]

-- The value is a uint32_t of which the first two bytes in memory are set, and `c` and `d` are what the
-- other two held; it is returned as a uint16_t.
unfoldable pub bytes_to_uint16 : Host → ℕ → ℕ → List ℕ → ℕ
bytes_to_uint16 host c d bytes = elim (get_host_endianness host) [
  | little_endian ↦ from_memory host (get_or bytes 0 0) (get_or bytes 1 0) c d % 65536
  | big_endian ↦ from_memory host (get_or bytes 1 0) (get_or bytes 0 0) c d % 65536
]

unfoldable pub uint16_to_bytes : Host → ℕ → List ℕ
uint16_to_bytes host value =
    let m = in_memory16 host value in
    elim (get_host_endianness host) [
      | little_endian ↦ get_or m 0 0 ∷ get_or m 1 0 ∷ []
      | big_endian ↦ get_or m 1 0 ∷ get_or m 0 0 ∷ []
    ]

get_host_endianness_lem : (host : Host) → get_host_endianness host ≡ host
unfolding get_host_endianness
get_host_endianness_lem little_endian = refl
get_host_endianness_lem big_endian = refl

-- What uint32ToLittleEndianBytes stores, whatever the host: the lowest byte first.
pub uint32_to_bytes_lem :
    (host : Host) (v : ℕ)
    → uint32_to_bytes host v
      ≡ (v % 256) ∷ (v / 256 % 256) ∷ (v / 65536 % 256) ∷ (v / 16777216 % 256) ∷ []
unfolding uint32_to_bytes get_host_endianness
uint32_to_bytes_lem little_endian v = refl
uint32_to_bytes_lem big_endian v = refl

pub bytes_to_uint32_lem :
    (host : Host) (a b c d : ℕ)
    → bytes_to_uint32 host (a ∷ b ∷ c ∷ d ∷ []) ≡ a + 256 * b + 65536 * c + 16777216 * d
unfolding bytes_to_uint32 get_host_endianness
bytes_to_uint32_lem little_endian a b c d = refl
bytes_to_uint32_lem big_endian a b c d = refl

-- On a host of either byte order a value below 2^32 comes back from its bytes.
pub bytes_to_uint32-uint32_to_bytes :
    (host : Host) (v : ℕ) → v < 2 ^ 32 → bytes_to_uint32 host (uint32_to_bytes host v) ≡ v
bytes_to_uint32-uint32_to_bytes host v h =
    rw (uint32_to_bytes_lem host v, bytes_to_uint32_lem host) (omega arith)

-- On a host of either byte order, four bytes come back from their value.
pub uint32_to_bytes-bytes_to_uint32 :
    (host : Host) (a b c d : ℕ)
    → a < 256
    → b < 256
    → c < 256
    → d < 256
    → uint32_to_bytes host (bytes_to_uint32 host (a ∷ b ∷ c ∷ d ∷ [])) ≡ a ∷ b ∷ c ∷ d ∷ []
uint32_to_bytes-bytes_to_uint32 host a b c d h i j k =
    rw (bytes_to_uint32_lem host a b c d, uint32_to_bytes_lem host)
      (four (omega arith) (omega arith) (omega arith) (omega arith))
  where
    four :
        {p q r s : ℕ}
        → p ≡ a
        → q ≡ b
        → r ≡ c
        → s ≡ d
        → ◌≡◌ {A = List ℕ} (p ∷ q ∷ r ∷ s ∷ []) (a ∷ b ∷ c ∷ d ∷ [])
    four e f g l = rw (e, f, g, l) refl

-- On a little endian host littleEndianBytesToUInt16 gives the value of its two bytes; on a big endian
-- one it gives what the other half of its variable held, whatever the bytes are.
pub bytes_to_uint16_lem :
    (host : Host) (a b c d : ℕ)
    → a < 256
    → b < 256
    → c < 256
    → d < 256
    → ((host ≡ little_endian) × (bytes_to_uint16 host c d (a ∷ b ∷ []) ≡ a + 256 * b))
      ⊎ ((host ≡ big_endian) × (bytes_to_uint16 host c d (a ∷ b ∷ []) ≡ d + 256 * c))
unfolding bytes_to_uint16 get_host_endianness
bytes_to_uint16_lem little_endian a b c d h i j k = inl (refl, omega arith)
bytes_to_uint16_lem big_endian a b c d h i j k = inr (refl, omega arith)
