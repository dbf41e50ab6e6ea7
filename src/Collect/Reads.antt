-- ===== src/Collect/Reads.antt =====
-- `LineProcessor.Process` on one read: it cuts exactly the lines.
use mathlib.Core.List.{append_assoc, append-nil}
use loggie.Prelude.{
  ℕ, ◌+◌, ◌-◌, ◌≡◌, ◌≤◌, refl, sym, ap, ◌∙◌, List, [], ◌∷◌, ◌++◌, ltb, concat, length,
  length-append, arith, Bool-cases, inl, inr,
}
use loggie.Collect.{JobCollectContext, line_loop, line_end, line_process}
use loggie.Collect.Lines.{Line, lines, rest, rest_length, lines-append, rest-append}
use loggie.Collect.Cutting.{sent, Cuts, line_loop-Sends}

-- What a read does: it sends the lines `ls` and keeps the text `left` of the line that goes on.
pub record ReadsLines (d next : ℕ) (left : List ℕ) (ls : List Line) (ctx r : JobCollectContext)
    : Type 0 where
  pub sends : sent r ≡ sent ctx ++ ls
  pub keeps : r.backlog_buffer ≡ left
  pub moves : r.last_offset ≡ next
  pub cuts : Cuts d r

nil_of_length : (xs : List ℕ) → length xs ≡ 0 → xs ≡ []
nil_of_length [] h = refl
nil_of_length (x ∷ xs) h = absurd (omega arith)

line_end-left :
    (max read : ℕ) (ctx : JobCollectContext) (processed : ℕ) (left : List ℕ)
    → length ctx.backlog_buffer ≤ max
    → processed + length left ≡ read
    → (line_end max read (ctx, processed, left)).backlog_buffer ≡ ctx.backlog_buffer ++ left
unfolding line_end
line_end-left max read ctx processed left le c = elim (Bool-cases (ltb processed read)) [
  | inl e ↦ rw e (ground arith)
  | inr e ↦ rw e (
      sym (append-nil ctx.backlog_buffer)
      ∙ ap (◌++◌ ctx.backlog_buffer) (sym (nil_of_length left (ground arith))))
]

line_process_lem :
    (d max now start pos : ℕ) (acc buffer : List ℕ) (ctx : JobCollectContext)
    → Cuts d ctx
    → ctx.backlog_buffer ≡ acc
    → ctx.last_offset ≡ pos
    → length acc ≤ max
    → pos ≡ start + length acc
    → ReadsLines d
        (pos + length buffer)
        (rest d acc buffer)
        (lines d start pos acc buffer)
        ctx
        (line_process max now buffer ctx)
unfolding line_process
line_process_lem d max now start pos acc buffer ctx e k p le h =
    let r =
      line_loop-Sends (length buffer) d now start pos 0 acc buffer ctx (omega arith) e k
        (omega arith) h in
    let out = line_loop (length buffer) now 0 buffer ctx in
    let c = r.counted in
    record {
      sends = r.sent_lines;
      keeps =
          line_end-left max (length buffer) out.0 out.1 out.2 (omega (arith, r.shorter))
            (omega arith)
          ∙ r.left;
      moves = ap (λ n. n + length buffer) (r.same_offset ∙ p);
      cuts = r.cuts;
    }

-- Reads one after another, all cut at the same time `now`.
pub process_all : ℕ → ℕ → List (List ℕ) → JobCollectContext → JobCollectContext
process_all max now [] ctx = ctx
process_all max now (b ∷ bs) ctx = process_all max now bs (line_process max now b ctx)

-- At each read, the text that is kept is within the limit.
abbrev pub Fits : ℕ → ℕ → List ℕ → List (List ℕ) → Type 0
Fits max d acc [] = Unit
Fits max d acc (b ∷ bs) = (length acc ≤ max) × Fits max d (rest d acc b) bs

process_all_lem :
    (d max now start pos : ℕ) (acc : List ℕ) (chunks : List (List ℕ)) (ctx : JobCollectContext)
    → Cuts d ctx
    → ctx.backlog_buffer ≡ acc
    → ctx.last_offset ≡ pos
    → Fits max d acc chunks
    → pos ≡ start + length acc
    → ReadsLines d
        (pos + length (concat chunks))
        (rest d acc (concat chunks))
        (lines d start pos acc (concat chunks))
        ctx
        (process_all max now chunks ctx)
unfolding process_all
process_all_lem d max now start pos acc [] ctx e k p f h = record {
  sends = sym (append-nil (sent ctx));
  keeps = k;
  moves = p ∙ omega arith;
  cuts = e;
}
process_all_lem d max now start pos acc (b ∷ bs) ctx e k p f h =
    let r = line_process_lem d max now start pos acc b ctx e k p f.0 h in
    let from = pos + length b - length (rest d acc b) in
    let s =
      process_all_lem d max now from (pos + length b) (rest d acc b) bs (line_process max now b ctx)
        r.cuts r.keeps r.moves f.1 (omega (arith, rest_length d start pos acc b h)) in
    record {
      sends =
          s.sends
          ∙ ap (λ v. v ++ lines d from (pos + length b) (rest d acc b) (concat bs)) r.sends
          ∙ append_assoc (sent ctx) _ _
          ∙ ap (◌++◌ (sent ctx)) (sym (lines-append d start pos acc b (concat bs) h));
      keeps = s.keeps ∙ sym (rest-append d acc b (concat bs));
      moves = s.moves ∙ omega (arith, length-append {0} b (concat bs));
      cuts = s.cuts;
    }

-- However the bytes behind `last_offset` are split into reads, `LineProcessor.Process` sends the
-- same events in the same order: one for each line that ends in the bytes and is not empty, with
-- the offset of its first byte, the offset behind its end mark, and its whole text. The text
-- behind the last end mark is kept. This is for an end mark of one byte, where the text that is
-- kept at each read is within `maxSingleLineBytes`, and where `last_offset` is behind that text.
pub process_all-ReadsLines :
    (d max now start : ℕ) (chunks : List (List ℕ)) (ctx : JobCollectContext)
    → Cuts d ctx
    → Fits max d ctx.backlog_buffer chunks
    → ctx.last_offset ≡ start + length ctx.backlog_buffer
    → ReadsLines d
        (ctx.last_offset + length (concat chunks))
        (rest d ctx.backlog_buffer (concat chunks))
        (lines d start ctx.last_offset ctx.backlog_buffer (concat chunks))
        ctx
        (process_all max now chunks ctx)
process_all-ReadsLines d max now start chunks ctx e f h =
    process_all_lem d max now start ctx.last_offset ctx.backlog_buffer chunks ctx e refl refl f h
