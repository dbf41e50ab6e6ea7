-- ===== src/Persist/Runs.antt =====
-- Whole runs of `DbHandler` (pkg/util/persistence/persistence.go).
use mathlib.Core.List.{append_assoc, append-nil}
use loggie.Prelude.{ℕ, ◌<◌, ◌≡◌, refl, List, [], ◌∷◌, ◌++◌, arith, Bool-cases, inl, inr}
use loggie.Value.{State}
use loggie.Persist.{DbOpt, DbEngine}
use loggie.Persist.Handler.{
  Texts, CompressStatPair, DbConfig, DbHandler, Input, state, opt, flush_ticks, clean_ticks, step,
  run,
}
use loggie.Persist.Acts.{states_in, later_in, urgent_in}
use loggie.Persist.Buffers.{Buffered, step-Buffered}

record Splits (now : ℕ) (i : Input) (is : List (ℕ × Input)) : Type 0 where
  of_states : states_in ((now, i) ∷ is) ≡ states_in ((now, i) ∷ []) ++ states_in is
  of_later : later_in ((now, i) ∷ is) ≡ later_in ((now, i) ∷ []) ++ later_in is
  of_urgent : urgent_in ((now, i) ∷ is) ≡ urgent_in ((now, i) ∷ []) ++ urgent_in is

in-Splits : (now : ℕ) (i : Input) (is : List (ℕ × Input)) → Splits now i is
unfolding states_in later_in urgent_in
in-Splits now (state s) is = record { of_states = refl; of_later = refl; of_urgent = refl }
in-Splits now (opt o) is = elim (Bool-cases o.immediately) [
  | inl e ↦ record {
    of_states = refl;
    of_later = simp (later_in, e) refl;
    of_urgent = simp (urgent_in, e) refl;
  }
  | inr e ↦ record {
    of_states = refl;
    of_later = simp (later_in, e) refl;
    of_urgent = simp (urgent_in, e) refl;
  }
]
in-Splits now flush_ticks is = record { of_states = refl; of_later = refl; of_urgent = refl }
in-Splits now clean_ticks is = record { of_states = refl; of_later = refl; of_urgent = refl }

module _ (db : DbEngine) (texts : Texts) (order : List CompressStatPair → List CompressStatPair)
    (config : DbConfig) where
  run-from :
      (is : List (ℕ × Input)) (ss : List State) (os us : List DbOpt) (d : db.Db) (h : DbHandler db)
      → 0 < config.buffer_size
      → Buffered db texts order config d ss os us h
      → Buffered db texts order config d
          (ss ++ states_in is)
          (os ++ later_in is)
          (us ++ urgent_in is)
          (run db texts order config is h)
  unfolding run states_in later_in urgent_in
  run-from [] ss os us d h z b = rw (append-nil ss, append-nil os, append-nil us) b
  run-from ((now, i) ∷ is) ss os us d h z b =
      let next = step db texts order config now i h in
      let p = in-Splits now i is in
      rw
        (
          p.of_states,
          p.of_later,
          p.of_urgent,
          ← append_assoc ss (states_in ((now, i) ∷ [])) (states_in is),
          ← append_assoc os (later_in ((now, i) ∷ [])) (later_in is),
          ← append_assoc us (urgent_in ((now, i) ∷ [])) (urgent_in is),
        )
        (run-from is _ _ _ d next z (step-Buffered db texts order config d now i ss os us h z b))

abbrev pub new_handler : (db : DbEngine) → db.Db → DbHandler db
new_handler db d = record { d = d; buffer = []; opt_buffer = [] }

-- Whatever a new handler receives, its database is what a sequence of writes, operations and
-- cleanings makes of the first one. The states that were written are, in order, the states that
-- came, but for those that still wait in the buffer, and there are fewer of these than the buffer's
-- size; likewise for the operations that may be done later, and sixteen. The operations to be done at
-- once were all done, in order. (For a buffer size that is not zero.)
pub run-Buffered :
    (db : DbEngine) (texts : Texts) (order : List CompressStatPair → List CompressStatPair)
    (config : DbConfig) (is : List (ℕ × Input)) (d : db.Db)
    → 0 < config.buffer_size
    → Buffered db texts order config d
        (states_in is)
        (later_in is)
        (urgent_in is)
        (run db texts order config is (new_handler db d))
run-Buffered db texts order config is d z =
    run-from db texts order config is [] [] [] d (new_handler db d) z (record {
      had = record { acts = []; database = refl; states = refl; later = refl; urgent = refl };
      bounded = z;
      opt_bounded = omega arith;
    })
