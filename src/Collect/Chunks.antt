-- ===== src/Collect/Chunks.antt =====
-- The end of a file, and an end mark of two bytes.
use mathlib.Core.List.{append_assoc}
use loggie.Prelude.{
  ℕ, suc, ◌+◌, ◌-◌, ◌≡◌, ◌≢◌, ◌≤◌, ◌⊎◌, refl, ap, ◌∙◌, true, not, ◌&&◌, Option, none, some, List,
  [], ◌∷◌, ◌++◌, ◌==◌, leb, length, arith, Bool-cases, is_some, inl, inr,
}
use loggie.Job.{product_event}
use loggie.Collect.{
  line_loop, line_end, JobCollectContext, Round, LoopConfig, ReadResult, bytes, eof, failed, index,
  line_process, source_process, loop_rounds, last_line, backward, forward,
}
use loggie.Collect.Cutting.{sent, Cuts, product-view}

-- Behind the loop, where the text that was kept is the bytes right in front of the handle (as it is
-- while no text was dropped for being longer than `maxSingleLineBytes`), nothing is lost and nothing
-- is sent twice: either nothing is sent, and the handle goes back to the first byte of that text; or,
-- at the end of a file that has not been active for `inactive_timeout`, it is sent as a line, and the
-- handle stands at the event's `NextOffset`. (For an end mark of one byte; `last_offset` is the
-- handle's offset.)
pub last_line_resumes :
    (d inactive_timeout now start : ℕ) (ctx : JobCollectContext)
    → Cuts d ctx
    → ctx.job.file ≡ some ctx.last_offset
    → ctx.last_offset ≡ start + length ctx.backlog_buffer
    → let r = last_line inactive_timeout now ctx in
      ((sent r ≡ sent ctx) × (r.job.file ≡ some start))
      ⊎ ((sent r
            ≡ sent ctx
              ++ record { start = start; next = ctx.last_offset + 1; text = ctx.backlog_buffer }
                ∷ [])
          × (r.job.file ≡ some (ctx.last_offset + 1))
          × (ctx.is_eof ≡ true)
          × (inactive_timeout ≤ now - ctx.job.last_active_time))
unfolding last_line product_event
last_line_resumes d inactive_timeout now start ctx e f h =
    elim (Bool-cases (length ctx.backlog_buffer == 0)) [
      | inl z ↦ rw z (inl (refl, f ∙ ap some (ground arith)))
      | inr z ↦ elim (Bool-cases (ctx.is_eof && not ctx.was_send)) [
        | inr q ↦ rw (z, q) (inl (refl, back ctx.job.file f))
        | inl q ↦ elim (Bool-cases (leb inactive_timeout (now - ctx.job.last_active_time))) [
          | inr t ↦ rw (z, q, t) (inl (refl, back ctx.job.file f))
          | inl t ↦
              rw (z, q, t)
                (inr (
                  product-view ctx.last_offset now d start ctx.backlog_buffer ctx.job e h,
                  front ctx.job.file f,
                  ground arith,
                  ground arith,
                ))
        ]
      ]
    ]
  where
    back :
        (o : Option ℕ)
        → o ≡ some ctx.last_offset
        → backward (length ctx.backlog_buffer) o ≡ some start
    back none g = cc
    back (some o) g = ground arith

    front :
        (o : Option ℕ)
        → o ≡ some ctx.last_offset
        → forward (length ctx.job.line_end) o ≡ some (ctx.last_offset + 1)
    front none g = cc
    front (some o) g = ground (arith, ap length e)

-- An answer of `Read` that ends the file's loop.
abbrev IsEnd : ReadResult → Type 0
IsEnd (bytes (c ∷ cs)) = ⊥
IsEnd _ = Unit

abbrev pub HasEnd : List Round → Type 0
HasEnd [] = ⊥
HasEnd (r ∷ rs) = IsEnd r.result ⊎ HasEnd rs

end-is_eof :
    (max now : ℕ) (r : ReadResult) (ctx : JobCollectContext)
    → IsEnd r
    → (source_process max now r ctx).is_eof ≡ true
unfolding source_process
end-is_eof max now (bytes []) ctx h = refl
end-is_eof max now (bytes (c ∷ cs)) ctx h = elim h [ ]
end-is_eof max now eof ctx h = refl
end-is_eof max now (failed []) ctx h = refl
end-is_eof max now (failed (c ∷ cs)) ctx h = refl

-- The read loop of a file always ends, at the latest when `Read` reports the end of the file or
-- an error, whatever the file holds and whichever of its two limits are set.
pub loop_rounds_end :
    (c : LoopConfig) (started continue_read : ℕ) (rs : List Round) (ctx : JobCollectContext)
    → HasEnd rs
    → loop_rounds c started continue_read rs ctx ≢ none
unfolding loop_rounds
loop_rounds_end c started continue_read [] ctx h = absurd h
loop_rounds_end c started continue_read (r ∷ rs) ctx (inl h) =
    ground (arith, end-is_eof c.max_single_line_bytes r.now r.result ctx h)
loop_rounds_end c started continue_read (r ∷ rs) ctx (inr h) =
    let next = source_process c.max_single_line_bytes r.now r.result ctx in
    ground (
      arith,
      loop_rounds_end c started continue_read rs next h,
      loop_rounds_end c started (continue_read + 1) rs next h,
    )

index_contains : (a b : ℕ) (xs ys : List ℕ) → is_some (index (xs ++ a ∷ b ∷ ys) (a ∷ b ∷ [])) ≡ true
index_contains a b [] ys = ground arith
index_contains a b (x ∷ xs) ys = ground (arith, index_contains a b xs ys)

miss_loop :
    (f now processed : ℕ) (buffer : List ℕ) (ctx : JobCollectContext)
    → index buffer ctx.job.line_end ≡ none
    → line_loop (suc f) now processed buffer ctx ≡ (ctx, processed, buffer)
unfolding line_loop
miss_loop f now processed buffer ctx m = ground arith

process_miss :
    (max now : ℕ) (c : ℕ) (cs : List ℕ) (ctx : JobCollectContext)
    → index (c ∷ cs) ctx.job.line_end ≡ none
    → length ctx.backlog_buffer ≤ max
    → (sent (line_process max now (c ∷ cs) ctx) ≡ sent ctx)
      × ((line_process max now (c ∷ cs) ctx).backlog_buffer ≡ ctx.backlog_buffer ++ c ∷ cs)
      × ((line_process max now (c ∷ cs) ctx).job.line_end ≡ ctx.job.line_end)
unfolding line_process
process_miss max now c cs ctx m le =
    let stop : JobCollectContext × ℕ × List ℕ = (ctx, 0, c ∷ cs) in
    let e : line_process max now (c ∷ cs) ctx ≡ line_end max (suc (length cs)) stop =
      ap (line_end max (suc (length cs))) (miss_loop (length cs) now 0 (c ∷ cs) ctx m) in
    (ap sent e, ap (λ r. r.backlog_buffer) e ∙ ground arith, ap (λ r. r.job.line_end) e)

-- An end mark of two bytes is missed where one read ends between them: with no text kept before, a
-- first read within `maxSingleLineBytes`, and no whole mark in either read, no line is sent, and both
-- reads are kept, the mark among them.
pub split_mark_missed :
    (a b max now : ℕ) (x : ℕ) (xs ys : List ℕ) (ctx : JobCollectContext)
    → ctx.job.line_end ≡ a ∷ b ∷ []
    → ctx.backlog_buffer ≡ []
    → index (x ∷ xs ++ a ∷ []) (a ∷ b ∷ []) ≡ none
    → index (b ∷ ys) (a ∷ b ∷ []) ≡ none
    → length (x ∷ xs ++ a ∷ []) ≤ max
    → let r = line_process max now (b ∷ ys) (line_process max now (x ∷ xs ++ a ∷ []) ctx) in
      (sent r ≡ sent ctx)
      × (r.backlog_buffer ≡ (x ∷ xs ++ a ∷ []) ++ b ∷ ys)
      × (is_some (index r.backlog_buffer (a ∷ b ∷ [])) ≡ true)
split_mark_missed a b max now x xs ys ctx e k m n le =
    let (s, l, j) =
      process_miss max now x (xs ++ a ∷ []) ctx (ap (index (x ∷ xs ++ a ∷ [])) e ∙ m)
        (omega (arith, ap length k)) in
    let next = line_process max now (x ∷ xs ++ a ∷ []) ctx in
    let l' : next.backlog_buffer ≡ x ∷ xs ++ a ∷ [] = l ∙ ap (λ v. v ++ (x ∷ xs ++ a ∷ [])) k in
    let (s', l'', _) =
      process_miss max now b ys next (ap (index (b ∷ ys)) (j ∙ e) ∙ n)
        (omega (arith, ap length l')) in
    let whole = l'' ∙ ap (λ v. v ++ (b ∷ ys)) l' in
    (
      s' ∙ s,
      whole,
      ap (λ v. is_some (index v (a ∷ b ∷ []))) (whole ∙ append_assoc (x ∷ xs) (a ∷ []) (b ∷ ys))
          ∙ index_contains a b (x ∷ xs) ys,
    )
