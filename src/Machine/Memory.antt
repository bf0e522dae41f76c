-- ===== src/Machine/Memory.antt =====
-- Byte arrays and `memcpy`. A byte is a number; a copy that leaves either array faults.
use csnip.Base.{
  ℕ, ◌+◌, ◌-◌, ◌<◌, ◌≤◌, ◌≡◌, ap, Option, none, some, List, ◌++◌, ◌&&◌, arith, leb, ltb,
  if◌then◌else◌, length, get_or, take, drop, length-append, length-take, length-drop, get_or-append,
  get_or-take, get_or-drop,
}

-- `dst` with `seg` written over it from index `d` on.
abbrev pub blit : ℕ → List ℕ → List ℕ → List ℕ
blit d seg dst = take d dst ++ (seg ++ drop (d + length seg) dst)

-- memcpy(dst + d, src + s, n)
unfoldable pub memcpy : List ℕ → ℕ → List ℕ → ℕ → ℕ → Option (List ℕ)
memcpy dst d src s n =
    if leb (d + n) (length dst) && leb (s + n) (length src)
    then some (blit d (take n (drop s src)) dst)
    else none

pub memcpy-eq-blit :
    (dst : List ℕ) (d : ℕ) (src : List ℕ) (s n : ℕ)
    → d + n ≤ length dst
    → s + n ≤ length src
    → memcpy dst d src s n ≡ some (blit d (take n (drop s src)) dst)
unfolding memcpy
memcpy-eq-blit dst d src s n h k = ground arith

pub memcpy_fault :
    (dst : List ℕ) (d : ℕ) (src : List ℕ) (s n : ℕ)
    → length src < s + n
    → memcpy dst d src s n ≡ none
unfolding memcpy
memcpy_fault dst d src s n h = ground arith

pub length-segment :
    (s n : ℕ) (src : List ℕ) → s + n ≤ length src → length (take n (drop s src)) ≡ n
length-segment s n src h = omega (arith, length-take n (drop s src), length-drop s src)

pub length-blit :
    (d : ℕ) (seg dst : List ℕ) → d + length seg ≤ length dst → length (blit d seg dst) ≡ length dst
length-blit d seg dst h = omega (
  arith,
  length-append (take d dst) (seg ++ drop (d + length seg) dst),
  length-append seg (drop (d + length seg) dst),
  length-take d dst,
  length-drop (d + length seg) dst,
)

pub get_or-blit :
    (d : ℕ) (seg dst : List ℕ) (j z : ℕ)
    → d + length seg ≤ length dst
    → get_or (blit d seg dst) j z ≡ (
        if ltb j d
        then get_or dst j z
        else if ltb j (d + length seg)
        then get_or seg (j - d) z
        else get_or dst j z)
get_or-blit d seg dst j z h = ground (
  arith,
  get_or-append (take d dst) (seg ++ drop (d + length seg) dst) j z,
  length-take d dst,
  get_or-take d dst j z,
  get_or-append seg (drop (d + length seg) dst) (j - d) z,
  get_or-drop (d + length seg) dst (j - d - length seg) z,
  ap (λ t. get_or dst t z) {x = d + length seg + (j - d - length seg)} {y = j},
)
