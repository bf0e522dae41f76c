-- ===== src/Rb/Threads/Safety.antt =====
-- The validity of the buffer along the steps of a reader and a writer.
use csnip.Base.{
  ℕ, ◌<◌, ◌≡◌, refl, ◌∙◌, subst, sym, Option, none, some, List, arith, ◌==◌, if◌then◌else◌, ◌>>=◌,
  length, take, drop, Bool-cases, inl, inr,
}
use csnip.Machine.Word.{rem, add64}
use csnip.Machine.Memory.{memcpy, length-blit, length-segment}
use csnip.Rb.State.{IsValid}
use csnip.Rb.Copy.{copy_in, next_index, after_read, after_write}
use csnip.Rb.Threads.{
  Shared, Step, read_begin, read_move, read_flag, write_begin, write_move, write_flag, Reach, here,
  next,
}

rem-lt : (a b r : ℕ) → 0 < b → rem a b ≡ some r → r < b
unfolding rem
rem-lt a b r h e = grind arith

next_index-lt : (size i c1 c2 r : ℕ) → 0 < size → next_index size i c1 c2 ≡ some r → r < size
unfolding next_index
next_index-lt size i c1 c2 r h e = elim (Bool-cases (c2 == 0)) [
  | inl z ↦ rem-lt (add64 i c1) size r h (rw z at e)
  | inr z ↦ rem-lt c2 size r h (rw z at e)
]

length-memcpy :
    (dst : List ℕ) (d : ℕ) (src : List ℕ) (s n : ℕ) (out : List ℕ)
    → memcpy dst d src s n ≡ some out
    → length out ≡ length dst
unfolding memcpy
length-memcpy dst d src s n out e =
    ground (arith, length-blit d (take n (drop s src)) dst, length-segment s n src)

length-copy_in :
    (buf source : List ℕ) (i c1 c2 : ℕ) (b : List ℕ)
    → copy_in buf source i c1 c2 ≡ some b
    → length b ≡ length buf
unfolding copy_in
length-copy_in buf source i c1 c2 b e =
    second (memcpy buf i source 0 c1) (length-memcpy buf i source 0 c1) e
  where
    second :
        (m : Option (List ℕ))
        → ((x : List ℕ) → m ≡ some x → length x ≡ length buf)
        → (m >>= λ x. if c2 == 0 then some x else memcpy x 0 source c1 c2) ≡ some b
        → length b ≡ length buf
    second none h f = cc
    second (some x) h f = elim (Bool-cases (c2 == 0)) [
      | inl z ↦ h b (rw z at f)
      | inr z ↦ length-memcpy x 0 source c1 c2 b (rw z at f) ∙ h x refl
    ]

-- A step of either thread keeps the buffer valid.
Step-IsValid : (s t : Shared) → Step s t → IsValid s.rb → IsValid t.rb
unfolding after_read after_write
Step-IsValid s t (read_begin count i h k e) v = subst (λ u. IsValid u.rb) (sym e) v
Step-IsValid s t (read_move count n r i h e) v =
    let inside : r < s.rb.size = next_index-lt s.rb.size _ _ _ r v.nonempty h in
    subst (λ u. IsValid u.rb) (sym e) (omega (arith, inside, v))
Step-IsValid s t (read_flag count n i e) v = subst (λ u. IsValid u.rb) (sym e) (omega (arith, v))
Step-IsValid s t (write_begin count i h k e) v = subst (λ u. IsValid u.rb) (sym e) v
Step-IsValid s t (write_move count n w source b i h k e) v =
    let inside : w < s.rb.size = next_index-lt s.rb.size _ _ _ w v.nonempty k in
    let same : length b ≡ length s.rb.buf = length-copy_in s.rb.buf source _ _ _ b h in
    subst (λ u. IsValid u.rb) (sym e) (omega (arith, inside, same, v))
Step-IsValid s t (write_flag count n i e) v = subst (λ u. IsValid u.rb) (sym e) (omega (arith, v))

-- However the steps of a reader and a writer interleave, the buffer stays valid: its indices lie
-- inside it, and its storage keeps its size.
pub Reach-IsValid : (s t : Shared) → Reach s t → IsValid s.rb → IsValid t.rb
Reach-IsValid s t here v = v
Reach-IsValid s t (next {t = u} r st) v = Step-IsValid u t st (Reach-IsValid s u r v)
