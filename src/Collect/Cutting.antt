-- ===== src/Collect/Cutting.antt =====
-- How the line processor cuts one read into lines (pkg/source/file/process/line.go).
use mathlib.Core.List.{append_assoc, append-nil, map-append}
use loggie.Prelude.{
  ℕ, zero, suc, ◌+◌, ◌-◌, ◌≡◌, ◌≤◌, refl, sym, ap, ◌∙◌, none, some, List, [], ◌∷◌, ◌++◌, length,
  length-append, take, drop, arith, Option-cases, inl, inr, map,
}
use loggie.Job.{Job, product_event}
use loggie.Collect.{JobCollectContext, index, send_line, line_loop}
use loggie.Collect.Lines.{
  Line, emit, lines, rest, view, lines-index, rest-index, lines-none, index_length,
}

abbrev pub sent : JobCollectContext → List Line
sent ctx = map view ctx.job.produced

-- The job cuts at the byte `d`.
abbrev pub Cuts : ℕ → JobCollectContext → Type 0
Cuts d ctx = ctx.job.line_end ≡ d ∷ []

pub product-view :
    (end now d start : ℕ) (body : List ℕ) (j : Job)
    → j.line_end ≡ d ∷ []
    → end ≡ start + length body
    → map view (product_event end now body j).produced
      ≡ map view j.produced ++ record { start = start; next = end + 1; text = body } ∷ []
unfolding product_event
product-view end now d start body j e h =
    let a : end + 1 - length body - 1 ≡ start = omega arith in
    map-append view j.produced _
    ∙ rw e
        (ap (λ n. map view j.produced ++ record { start = n; next = end + 1; text = body } ∷ []) a)

product-line_end :
    (end now : ℕ) (body : List ℕ) (j : Job) → (product_event end now body j).line_end ≡ j.line_end
unfolding product_event
product-line_end end now body j = refl

-- The facts that the loop keeps.
pub record Sends (d start pos before : ℕ) (acc buffer : List ℕ) (ctx : JobCollectContext)
    (r : JobCollectContext × ℕ × List ℕ) : Type 0 where
  pub sent_lines : sent r.0 ≡ sent ctx ++ lines d start pos acc buffer
  pub left : r.0.backlog_buffer ++ r.2 ≡ rest d acc buffer
  pub shorter : length r.0.backlog_buffer ≤ length acc
  pub cuts : Cuts d r.0
  pub same_offset : r.0.last_offset ≡ ctx.last_offset
  pub counted : r.1 + length r.2 ≡ before

send_behind :
    (now pos b : ℕ) (bs line : List ℕ) (ctx : JobCollectContext)
    → ctx.backlog_buffer ≡ b ∷ bs
    → send_line now pos line ctx
      ≡ record ctx { job = product_event pos now (b ∷ bs ++ line) ctx.job; backlog_buffer = [] }
unfolding send_line
send_behind now pos b bs line ctx h = ground arith

send_alone :
    (now pos c : ℕ) (cs : List ℕ) (ctx : JobCollectContext)
    → ctx.backlog_buffer ≡ []
    → send_line now pos (c ∷ cs) ctx ≡ record ctx { job = product_event pos now (c ∷ cs) ctx.job }
unfolding send_line
send_alone now pos c cs ctx h = ground arith

send_empty :
    (now pos : ℕ) (ctx : JobCollectContext)
    → ctx.backlog_buffer ≡ []
    → send_line now pos [] ctx ≡ ctx
unfolding send_line
send_empty now pos ctx h = ground arith

-- What one end mark sends.
record SendsLine (d start pos : ℕ) (text : List ℕ) (ls : List Line) (ctx r : JobCollectContext)
    : Type 0 where
  sent_line : sent r ++ ls ≡ sent ctx ++ emit start pos text ls
  cleared : r.backlog_buffer ≡ []
  cuts : Cuts d r
  same_offset : r.last_offset ≡ ctx.last_offset

send_line-SendsLine :
    (d now start pos : ℕ) (acc line : List ℕ) (ctx : JobCollectContext) (ls : List Line)
    → Cuts d ctx
    → ctx.backlog_buffer ≡ acc
    → pos ≡ start + length (acc ++ line)
    → SendsLine d start pos (acc ++ line) ls ctx (send_line now pos line ctx)
send_line-SendsLine d now start pos (b ∷ bs) line ctx ls e k h =
    rw (send_behind now pos b bs line ctx k) (record {
      sent_line =
          ap (λ v. v ++ ls) (product-view pos now d start (b ∷ bs ++ line) ctx.job e h)
          ∙ append_assoc (sent ctx) _ ls;
      cleared = refl;
      cuts = product-line_end pos now (b ∷ bs ++ line) ctx.job ∙ e;
      same_offset = refl;
    })
send_line-SendsLine d now start pos [] (c ∷ cs) ctx ls e k h =
    rw (send_alone now pos c cs ctx k) (record {
      sent_line =
          ap (λ v. v ++ ls) (product-view pos now d start (c ∷ cs) ctx.job e h)
          ∙ append_assoc (sent ctx) _ ls;
      cleared = k;
      cuts = product-line_end pos now (c ∷ cs) ctx.job ∙ e;
      same_offset = refl;
    })
send_line-SendsLine d now start pos [] [] ctx ls e k h =
    rw (send_empty now pos ctx k)
      (record { sent_line = refl; cleared = k; cuts = e; same_offset = refl })

loop_miss :
    (d f now processed : ℕ) (buffer : List ℕ) (ctx : JobCollectContext)
    → Cuts d ctx
    → index buffer (d ∷ []) ≡ none
    → line_loop (suc f) now processed buffer ctx ≡ (ctx, processed, buffer)
unfolding line_loop
loop_miss d f now processed buffer ctx e h = ground arith

loop_found :
    (f now processed i : ℕ) (buffer : List ℕ) (ctx : JobCollectContext)
    → index buffer ctx.job.line_end ≡ some i
    → line_loop (suc f) now processed buffer ctx
      ≡ line_loop f now
          (processed + i + length ctx.job.line_end)
          (drop (i + length ctx.job.line_end) buffer)
          (send_line now (ctx.last_offset + (processed + i)) (take i buffer) ctx)
unfolding line_loop
loop_found f now processed i buffer ctx h = ground arith

loop_hit :
    (d f now processed pos i : ℕ) (buffer : List ℕ) (ctx : JobCollectContext)
    → Cuts d ctx
    → pos ≡ ctx.last_offset + processed
    → index buffer (d ∷ []) ≡ some i
    → line_loop (suc f) now processed buffer ctx
      ≡ line_loop f now
          (processed + i + 1)
          (drop (suc i) buffer)
          (send_line now (pos + i) (take i buffer) ctx)
loop_hit d f now processed pos i buffer ctx e p h =
    let next : ℕ → ℕ → ℕ → JobCollectContext × ℕ × List ℕ = λ n m o.
      line_loop f now (processed + i + n) (drop m buffer) (send_line now o (take i buffer) ctx) in
    let len : length ctx.job.line_end ≡ 1 = ap length e in
    let one : i + 1 ≡ suc i = omega arith in
    let place : ctx.last_offset + (processed + i) ≡ pos + i = omega arith in
    loop_found f now processed i buffer ctx (ap (index buffer) e ∙ h)
    ∙ ap (λ n. next n (i + n) (ctx.last_offset + (processed + i))) len
    ∙ ap (λ m. next 1 m (ctx.last_offset + (processed + i))) one
    ∙ ap (next 1 (suc i)) place

stopped :
    (d start pos processed : ℕ) (acc buffer : List ℕ) (ctx : JobCollectContext)
    → Cuts d ctx
    → ctx.backlog_buffer ≡ acc
    → index buffer (d ∷ []) ≡ none
    → Sends d start pos (processed + length buffer) acc buffer ctx (ctx, processed, buffer)
stopped d start pos processed acc buffer ctx e k m =
    let (l, r) = lines-none d start pos acc buffer m in
    record {
      sent_lines = sym (ap (◌++◌ (sent ctx)) l ∙ append-nil (sent ctx));
      left = ap (λ b. b ++ buffer) k ∙ sym r;
      shorter = omega (arith, ap length k);
      cuts = e;
      same_offset = refl;
      counted = refl;
    }

pub line_loop-Sends :
    (f d now start pos processed : ℕ) (acc buffer : List ℕ) (ctx : JobCollectContext)
    → length buffer ≤ f
    → Cuts d ctx
    → ctx.backlog_buffer ≡ acc
    → pos ≡ ctx.last_offset + processed
    → pos ≡ start + length acc
    → Sends d start pos
        (processed + length buffer)
        acc
        buffer
        ctx
        (line_loop f now processed buffer ctx)
unfolding line_loop
line_loop-Sends zero d now start pos processed acc [] ctx le e k p h =
    stopped d start pos processed acc [] ctx e k refl
line_loop-Sends zero d now start pos processed acc (c ∷ cs) ctx le e k p h = absurd (omega arith)
line_loop-Sends (suc f) d now start pos processed acc buffer ctx le e k p h =
    elim (Option-cases (index buffer (d ∷ []))) [
      | inl m ↦
          rw (loop_miss d f now processed buffer ctx e m)
            (stopped d start pos processed acc buffer ctx e k m)
      | inr (i, m) ↦
          let (lt, ld) = index_length d i buffer m in
          let next = send_line now (pos + i) (take i buffer) ctx in
          let ls = lines d (pos + i + 1) (pos + i + 1) [] (drop (suc i) buffer) in
          let s =
            send_line-SendsLine d now start (pos + i) acc (take i buffer) ctx ls e k
              (omega (arith, length-append {0} acc (take i buffer))) in
          let r =
            line_loop-Sends f d now (pos + i + 1) (pos + i + 1) (processed + i + 1) []
              (drop (suc i) buffer) next (omega arith) s.cuts s.cleared
              (omega (arith, s.same_offset)) (omega arith) in
          rw (loop_hit d f now processed pos i buffer ctx e p m) (record {
            sent_lines =
                r.sent_lines
                ∙ s.sent_line
                ∙ sym (ap (◌++◌ (sent ctx)) (lines-index d start pos i acc buffer m));
            left = r.left ∙ sym (rest-index d i acc buffer m);
            shorter = omega (arith, r.shorter);
            cuts = r.cuts;
            same_offset = r.same_offset ∙ s.same_offset;
            counted = omega (arith, r.counted);
          })
    ]
