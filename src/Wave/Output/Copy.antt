-- ===== src/Wave/Output/Copy.antt =====
-- The copying of chunks from the input file to the output file, by what is written.
use csnip.Base.{
  take-drop, ℕ, zero, suc, ◌+◌, ◌-◌, ◌%◌, ◌<◌, ◌≤◌, ◌≡◌, refl, sym, ap, ◌∙◌, Bool, false, List, [],
  ◌∷◌, ◌++◌, inl, inr, ◌==◌, ltb, leb, if◌then◌else◌, length, arith, append_assoc, append-nil,
  length-append, length-take, length-drop, take, drop, le→leb, ltb→le, leb→le, Bool-cases, ==→eq,
  ==→ne,
}
use csnip.Machine.Run.{Run, ok}
use csnip.Machine.Stdio.{InFile, OutFile, fseek_set, fwrite}
use csnip.Machine.Stdio.Place.{At, drop-add, drop-append, fread-At}
use csnip.Wave.Chunks.{Env, Location, read_new}
use csnip.Wave.Output.{
  put_bytes, put_padding, copy_bytes, copy_chunk, copy_padded, copy_others, copy_extra,
}

-- An output file with `xs` written to it.
abbrev pub wrote : OutFile → List ℕ → OutFile
wrote out xs = record { written = out.written ++ xs; room = out.room - length xs }

pub put_bytes-wrote :
    (out : OutFile) (xs : List ℕ) → length xs ≤ out.room → put_bytes out xs ≡ ok (wrote out xs)
unfolding put_bytes fwrite
put_bytes-wrote out xs h = rw (put_bytes, fwrite, le→leb (length xs) out.room h) refl

wrote-nothing : (out : OutFile) (xs : List ℕ) → length xs ≡ 0 → wrote out xs ≡ out
wrote-nothing out [] h =
    ap (λ t. record { written = t; room = out.room - 0 }) (append-nil out.written)
    ∙ ap (λ n. record { written = out.written; room = n }) {x = out.room - 0} {y = out.room}
        (omega arith)
wrote-nothing out (x ∷ xs) h = absurd (omega arith)

pub wrote-wrote : (out : OutFile) (xs ys : List ℕ) → wrote (wrote out xs) ys ≡ wrote out (xs ++ ys)
wrote-wrote out xs ys =
    ap (λ t. record { written = t; room = out.room - length xs - length ys })
      (append_assoc out.written xs ys)
    ∙ ap (λ n. record { written = out.written ++ (xs ++ ys); room = n })
        {x = out.room - length xs - length ys} {y = out.room - length (xs ++ ys)}
        (omega (arith, length-append xs ys))

-- The bytes of a chunk with its padding.
abbrev pub padded : List ℕ → List ℕ
padded xs = if length xs % 2 == 0 then xs else xs ++ (0 ∷ [])

pub length-padded : (xs : List ℕ) → length (padded xs) ≡ length xs + length xs % 2
length-padded xs = elim (Bool-cases (length xs % 2 == 0)) [
  | inl e ↦ rw e (omega (arith, ==→eq (length xs % 2) 0 e))
  | inr e ↦ rw e (omega (arith, ==→ne (length xs % 2) 0 e, length-append xs (0 ∷ [])))
]

put_padding-wrote :
    (out : OutFile) (xs : List ℕ)
    → length xs + 1 ≤ out.room
    → put_padding (wrote out xs) (length xs) ≡ ok (wrote out (padded xs))
unfolding put_padding
put_padding-wrote out xs room = elim (Bool-cases (length xs % 2 == 0)) [
  | inl e ↦ rw e refl
  | inr e ↦
      rw (e, put_bytes-wrote (wrote out xs) (0 ∷ []) (omega arith), wrote-wrote out xs (0 ∷ []))
        refl
]

-- The input file at a place, with feof as given and ferror false.
abbrev pub at : InFile → Bool → ℕ → InFile
at f e p = record f { pos = p; at_end = e; error = false }

-- The bytes of a chunk, and the chunks that lie inside the file.
abbrev pub slice : InFile → Location → List ℕ
slice f l = take l.size (drop l.start f.bytes)

abbrev pub Inside : InFile → Location → Type 0
Inside f l = l.start + l.size ≤ length f.bytes

abbrev pub AllInside : InFile → List Location → Type 0
AllInside f [] = 0 ≤ 0
AllInside f (l ∷ ls) = Inside f l × AllInside f ls

pub length-slice : (f : InFile) (l : Location) → Inside f l → length (slice f l) ≡ l.size
length-slice f l h =
    omega (arith, length-take l.size (drop l.start f.bytes), length-drop l.start f.bytes)

-- The bytes of the other chunks, each padded.
abbrev pub others_bytes : InFile → List Location → List ℕ
others_bytes f [] = []
others_bytes f (l ∷ ls) = padded (slice f l) ++ others_bytes f ls

abbrev pub others_size : List Location → ℕ
others_size [] = 0
others_size (l ∷ ls) = l.size + l.size % 2 + others_size ls

pub length-others_bytes :
    (f : InFile) (ls : List Location) → AllInside f ls → length (others_bytes f ls) ≡ others_size ls
length-others_bytes f [] all = refl
length-others_bytes f (l ∷ ls) (h, all) = omega (
  arith,
  length-append (padded (slice f l)) (others_bytes f ls),
  length-padded (slice f l),
  length-slice f l h,
  length-others_bytes f ls all,
)

module _ (env : Env) (f : InFile) (sound : length f.bytes ≤ f.limit) where
  pub at-At : (p : ℕ) (xs ys : List ℕ) → drop p f.bytes ≡ xs ++ ys → At (at f false p) (xs ++ ys)
  at-At p xs ys e = record { there = e; sound = sound }

  pub read_new-at :
      (p n : ℕ) (xs ys : List ℕ)
      → drop p f.bytes ≡ xs ++ ys
      → length xs ≡ n
      → read_new env (at f false p) n ≡ ok (xs, at f false (p + n))
  unfolding read_new
  read_new-at p n xs ys e k =
      rw
        (
          read_new,
          fread-At (env.unset n) (at f false p) xs ys (at-At p xs ys e)
              (env.length-unset n ∙ sym k),
        )
        (ap (λ q. ok (xs, at f false q)) {x = p + length xs} {y = p + n} (omega arith))

  -- The copy of `n` bytes that are there.
  copy_bytes-at :
      (fuel n p : ℕ) (out : OutFile) (xs ys : List ℕ)
      → drop p f.bytes ≡ xs ++ ys
      → length xs ≡ n
      → n < fuel
      → n ≤ out.room
      → copy_bytes env fuel n (at f false p) out ≡ ok (at f false (p + n), wrote out xs)
  unfolding copy_bytes
  copy_bytes-at zero n p out xs ys e k h room = absurd (omega arith)
  copy_bytes-at (suc fuel) n p out xs ys e k h room = elim (Bool-cases (leb 1024 n)) [
    | inl big ↦
        let long : 1024 ≤ n = leb→le 1024 n big in
        let a : List ℕ = take 1024 xs in
        let b : List ℕ = drop 1024 xs in
        let la : length a ≡ 1024 = omega (arith, length-take 1024 xs) in
        let lb : length b ≡ n - 1024 = omega (arith, length-drop 1024 xs) in
        let e1 : drop p f.bytes ≡ a ++ (b ++ ys) =
          e ∙ ap (λ t. t ++ ys) (sym (take-drop 1024 xs)) ∙ append_assoc a b ys in
        let e2 : drop (p + 1024) f.bytes ≡ b ++ ys =
          drop-add p 1024 f.bytes
          ∙ ap (drop 1024) e1
          ∙ ap (λ j. drop j (a ++ (b ++ ys))) (sym la)
          ∙ drop-append a (b ++ ys) in
        rw
          (
            copy_bytes,
            big,
            read_new-at p 1024 a (b ++ ys) e1 la,
            put_bytes-wrote out a (omega arith),
            copy_bytes-at fuel (n - 1024) (p + 1024) (wrote out a) b ys e2 lb (omega arith)
                (omega arith),
            wrote-wrote out a b,
            take-drop 1024 xs,
          )
          (ap (λ q. ok (at f false q, wrote out xs)) {x = p + 1024 + (n - 1024)} {y = p + n}
            (omega arith))
    | inr small ↦ elim (Bool-cases (ltb 0 n)) [
      | inl some_left ↦
          rw
            (
              copy_bytes,
              small,
              some_left,
              read_new-at p n xs ys e k,
              put_bytes-wrote out xs (omega arith),
            )
            refl
      | inr nothing ↦
          let z : n ≡ 0 = omega (arith, ltb→le 0 n nothing) in
          rw (copy_bytes, small, nothing)
            (ap (λ o. ok (at f false p, o)) (sym (wrote-nothing out xs (omega arith)))
              ∙ ap (λ q. ok (at f false q, wrote out xs)) {x = p} {y = p + n} (omega arith))
    ]
  ]

  -- writeChunkLocationFromInputFileToOutputFile writes the bytes of the chunk.
  pub copy_chunk-at :
      (l : Location) (e : Bool) (p : ℕ) (out : OutFile)
      → Inside f l
      → l.size ≤ out.room
      → copy_chunk env l (at f e p) out ≡ ok (at f false (l.start + l.size), wrote out (slice f l))
  unfolding copy_chunk fseek_set
  copy_chunk-at l e p out h room =
      copy_bytes-at (suc l.size) l.size l.start out (slice f l) (drop l.size (drop l.start f.bytes))
        (sym (take-drop l.size (drop l.start f.bytes))) (length-slice f l h) (omega arith) room

  -- With its padding.
  pub copy_padded-at :
      (l : Location) (e : Bool) (p : ℕ) (out : OutFile)
      → Inside f l
      → l.size + 1 ≤ out.room
      → copy_padded env l (at f e p) out
        ≡ ok (at f false (l.start + l.size), wrote out (padded (slice f l)))
  unfolding copy_padded
  copy_padded-at l e p out h room =
      let long : length (slice f l) ≡ l.size = length-slice f l h in
      let pad : put_padding (wrote out (slice f l)) l.size ≡ ok (wrote out (padded (slice f l))) =
        ap (put_padding (wrote out (slice f l))) (sym long)
        ∙ put_padding-wrote out (slice f l) (omega (arith, long)) in
      rw (copy_padded, copy_chunk-at l e p out h (omega arith), pad) refl

  -- The input file is left at some place.
  pub record Copied (xs : List ℕ) (out : OutFile) (r : Run (InFile × OutFile)) : Type 0 where
    pub ended : Bool
    pub place : ℕ
    pub returns : r ≡ ok (at f ended place, wrote out xs)

  pub copy_others-at :
      (ls : List Location) (e : Bool) (p : ℕ) (out : OutFile)
      → AllInside f ls
      → others_size ls + 1 ≤ out.room
      → Copied (others_bytes f ls) out (copy_others env ls (at f e p) out)
  unfolding copy_others
  copy_others-at [] e p out all room = record {
    ended = e;
    place = p;
    returns = ap (λ o. ok (at f e p, o)) (sym (wrote-nothing out [] refl));
  }
  copy_others-at (l ∷ ls) e p out (h, all) room =
      let long : length (padded (slice f l)) ≡ l.size + l.size % 2 =
        omega (arith, length-padded (slice f l), length-slice f l h) in
      let later =
        copy_others-at ls false (l.start + l.size) (wrote out (padded (slice f l))) all
          (omega (arith, long)) in
      record {
        ended = later.ended;
        place = later.place;
        returns =
            rw (copy_others, copy_padded-at l e p out h (omega arith), later.returns)
              (ap (λ o. ok (at f later.ended later.place, o))
                (wrote-wrote out (padded (slice f l)) (others_bytes f ls)));
      }

  pub copy_extra-at :
      (l : Location) (e : Bool) (p : ℕ) (out : OutFile)
      → Inside f l
      → l.size + 1 ≤ out.room
      → Copied (padded (slice f l)) out (copy_extra env l (at f e p) out)
  unfolding copy_extra
  copy_extra-at l e p out h room = elim (Bool-cases (ltb 0 l.size)) [
    | inl q ↦ record {
      ended = false;
      place = l.start + l.size;
      returns = rw (copy_extra, q, copy_padded-at l e p out h room) refl;
    }
    | inr q ↦
        let long : length (slice f l) ≡ 0 = omega (arith, length-slice f l h, ltb→le 0 l.size q) in
        record {
          ended = e;
          place = p;
          returns =
              rw (copy_extra, q)
                (ap (λ o. ok (at f e p, o))
                  (sym (
                    wrote-nothing out (padded (slice f l))
                      (omega (arith, long, length-padded (slice f l))))));
        }
  ]
