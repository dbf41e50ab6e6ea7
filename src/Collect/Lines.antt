-- ===== src/Collect/Lines.antt =====
-- The lines of a file, byte by byte, with their places.
use mathlib.Core.List.{append_assoc, append-nil}
use native.Mathlib.Nat.{add-zero}
use loggie.Prelude.{
  ℕ, zero, suc, ◌+◌, ◌-◌, ◌≡◌, ◌≤◌, refl, sym, ap, ◌∙◌, true, false, none, some, List, [], ◌∷◌,
  ◌++◌, ◌==◌, if◌then◌else◌, length, length-append, take, drop, arith, Bool-cases, inl, inr,
}
use loggie.Job.{Event}
use loggie.Collect.{index}

-- A line's first byte, the offset behind its end mark, and its text.
pub record Line : Type 0 where
  pub start : ℕ
  pub next : ℕ
  pub text : List ℕ

-- Empty lines are not collected.
abbrev pub emit : ℕ → ℕ → List ℕ → List Line → List Line
emit start pos [] ls = ls
emit start pos (c ∷ cs) ls = record { start = start; next = pos + 1; text = c ∷ cs } ∷ ls

-- The lines that end in the bytes from `pos` on, where `acc` was read since `start`.
abbrev pub lines : ℕ → ℕ → ℕ → List ℕ → List ℕ → List Line
lines d start pos acc [] = []
lines d start pos acc (c ∷ cs) =
    let hit = emit start pos acc (lines d (pos + 1) (pos + 1) [] cs) in
    let miss = lines d start (pos + 1) (acc ++ c ∷ []) cs in if c == d then hit else miss

-- The text behind the last end mark.
abbrev pub rest : ℕ → List ℕ → List ℕ → List ℕ
rest d acc [] = acc
rest d acc (c ∷ cs) =
    let hit = rest d [] cs in let miss = rest d (acc ++ c ∷ []) cs in if c == d then hit else miss

abbrev pub view : Event → Line
view e = record { start = e.state.offset; next = e.state.next_offset; text = e.body }

index_zero : (d c : ℕ) (cs : List ℕ) → index (c ∷ cs) (d ∷ []) ≡ some zero → (c == d) ≡ true
index_zero d c cs h = ground arith

index_suc :
    (d c i : ℕ) (cs : List ℕ)
    → index (c ∷ cs) (d ∷ []) ≡ some (suc i)
    → ((c == d) ≡ false) × (index cs (d ∷ []) ≡ some i)
index_suc d c i cs h = (ground arith, ground arith)

index_none :
    (d c : ℕ) (cs : List ℕ)
    → index (c ∷ cs) (d ∷ []) ≡ none
    → ((c == d) ≡ false) × (index cs (d ∷ []) ≡ none)
index_none d c cs h = (ground arith, ground arith)

-- Up to the first end mark there is one line, which may be empty.
pub lines-index :
    (d start pos i : ℕ) (acc buffer : List ℕ)
    → index buffer (d ∷ []) ≡ some i
    → lines d start pos acc buffer
      ≡ emit start
          (pos + i)
          (acc ++ take i buffer)
          (lines d (pos + i + 1) (pos + i + 1) [] (drop (suc i) buffer))
lines-index d start pos i acc [] h = cc
lines-index d start pos zero acc (c ∷ cs) h =
    rw (index_zero d c cs h, append-nil acc, add-zero pos) refl
lines-index d start pos (suc i) acc (c ∷ cs) h =
    let (e, f) = index_suc d c i cs h in
    let g : pos + suc i ≡ (pos + 1) + i = omega arith in
    rw (e, g, ← append_assoc acc (c ∷ []) (take i cs))
      (lines-index d start (pos + 1) i (acc ++ c ∷ []) cs f)

pub rest-index :
    (d i : ℕ) (acc buffer : List ℕ)
    → index buffer (d ∷ []) ≡ some i
    → rest d acc buffer ≡ rest d [] (drop (suc i) buffer)
rest-index d i acc [] h = cc
rest-index d zero acc (c ∷ cs) h = rw (index_zero d c cs h) refl
rest-index d (suc i) acc (c ∷ cs) h =
    let (e, f) = index_suc d c i cs h in rw e (rest-index d i (acc ++ c ∷ []) cs f)

pub lines-none :
    (d start pos : ℕ) (acc buffer : List ℕ)
    → index buffer (d ∷ []) ≡ none
    → (lines d start pos acc buffer ≡ []) × (rest d acc buffer ≡ acc ++ buffer)
lines-none d start pos acc [] h = (refl, sym (append-nil acc))
lines-none d start pos acc (c ∷ cs) h =
    let (e, f) = index_none d c cs h in
    let (l, r) = lines-none d start (pos + 1) (acc ++ c ∷ []) cs f in
    rw e (l, r ∙ append_assoc acc (c ∷ []) cs)

pub index_length :
    (d i : ℕ) (buffer : List ℕ)
    → index buffer (d ∷ []) ≡ some i
    → (length (take i buffer) ≡ i) × (length (drop (suc i) buffer) + i + 1 ≡ length buffer)
index_length d i [] h = cc
index_length d zero (c ∷ cs) h = (refl, omega arith)
index_length d (suc i) (c ∷ cs) h =
    let (e, f) = index_suc d c i cs h in
    let (l, m) = index_length d i cs f in (ap suc l, omega arith)

emit-append :
    (start pos : ℕ) (acc : List ℕ) (ks ls : List Line)
    → emit start pos acc (ks ++ ls) ≡ emit start pos acc ks ++ ls
emit-append start pos [] ks ls = refl
emit-append start pos (c ∷ cs) ks ls = refl

-- The lines of two reads are those of the first, and then those of the second behind its rest.
pub lines-append :
    (d start pos : ℕ) (acc xs ys : List ℕ)
    → pos ≡ start + length acc
    → lines d start pos acc (xs ++ ys)
      ≡ lines d start pos acc xs
        ++ lines d (pos + length xs - length (rest d acc xs)) (pos + length xs) (rest d acc xs) ys
lines-append d start pos acc [] ys h =
    let g : pos + 0 - length acc ≡ start = omega arith in rw (g, add-zero pos) refl
lines-append d start pos acc (c ∷ xs) ys h =
    let g : pos + suc (length xs) ≡ (pos + 1) + length xs = omega arith in
    elim (Bool-cases (c == d)) [
      | inl e ↦
          rw (e, g)
            (ap (emit start pos acc) (lines-append d (pos + 1) (pos + 1) [] xs ys (omega arith))
              ∙ emit-append start pos acc _ _)
      | inr e ↦
          rw (e, g)
            (lines-append d start (pos + 1) (acc ++ c ∷ []) xs ys
              (omega (arith, length-append {0} acc (c ∷ []))))
    ]

pub rest-append : (d : ℕ) (acc xs ys : List ℕ) → rest d acc (xs ++ ys) ≡ rest d (rest d acc xs) ys
rest-append d acc [] ys = refl
rest-append d acc (c ∷ xs) ys =
    ground (arith, rest-append d [] xs ys, rest-append d (acc ++ c ∷ []) xs ys)

-- The text that is kept was read.
pub rest_length :
    (d start pos : ℕ) (acc xs : List ℕ)
    → pos ≡ start + length acc
    → length (rest d acc xs) ≤ pos + length xs
rest_length d start pos acc [] h = omega arith
rest_length d start pos acc (c ∷ xs) h = elim (Bool-cases (c == d)) [
  | inl e ↦ rw e (omega (arith, rest_length d (pos + 1) (pos + 1) [] xs (omega arith)))
  | inr e ↦ rw e (
      omega (
        arith,
        rest_length d start (pos + 1) (acc ++ c ∷ []) xs
            (omega (arith, length-append {0} acc (c ∷ []))),
      ))
]
