-- ===== src/Persist/Stored.antt =====
-- What the badger engine holds after an update (pkg/util/persistence/driver/badger.go).
use loggie.Prelude.{
  subst, true, eq_iff, ℕ, ◌≡◌, refl, sym, ap, ◌∙◌, false, if◌then◌else◌, Option, none, some, List,
  [], ◌∷◌, ◌++◌, String, str_eq, eq_refl, ltb, concat, arith, Bool-cases, Option-cases, inl, inr,
}
use loggie.Persist.{Registry, no_registry, registry_key, check_integrity, merge}
use loggie.Persist.Engine.{
  Kv, KvLaws, group, group-all, insert_all, insert_groups, update_one, update_all, update_groups,
  found_or_empty, badger,
}
use loggie.Persist.Handler.{Texts, upsert_offset_by_job_watch_id}

module _ (kv : Kv) where
  update_all-append :
      (rs qs : List Registry) (db : kv.Db)
      → update_all kv (rs ++ qs) db ≡ update_all kv qs (update_all kv rs db)
  unfolding update_all
  update_all-append [] qs db = refl
  update_all-append (r ∷ rs) qs db = update_all-append rs qs (update_one kv r db)

  update_groups-concat :
      (gs : List (List Registry)) (db : kv.Db)
      → update_groups kv gs db ≡ update_all kv (concat gs) db
  unfolding update_groups update_all
  update_groups-concat [] db = refl
  update_groups-concat (g ∷ gs) db =
      update_groups-concat gs (update_all kv g db) ∙ sym (update_all-append g (concat gs) db)

  -- Updating in groups of a hundred, each in a transaction, is updating one registry after another.
  pub updates-one_by_one :
      (rs : List Registry) (db : kv.Db) → (badger kv).updates rs db ≡ update_all kv rs db
  updates-one_by_one rs db =
      update_groups-concat (group rs) db ∙ ap (λ qs. update_all kv qs db) (group-all rs)

-- What was stored before; nothing of it where there was nothing.
abbrev pub known : Option Registry → Registry
known none = no_registry
known (some r) = r

-- What a text or a number becomes: what was asked for, unless that is empty or zero.
abbrev pub text_or : String → String → String
text_or asked before = if str_eq asked "" then before else asked

abbrev pub number_or : ℕ → ℕ → ℕ
number_or asked before = if ltb 0 asked then asked else before

-- The registry `x`, of the job that `r` names, when `old` was stored before.
pub record Upserted (texts : Texts) (now : ℕ) (r : Registry) (old : Option Registry) (x : Registry)
    : Type 0 where
  pub id : x.id ≡ elim old [ none ↦ r.id | some o ↦ o.id ]
  pub pipeline_name : x.pipeline_name ≡ r.pipeline_name
  pub source_name : x.source_name ≡ r.source_name
  pub job_uid : x.job_uid ≡ r.job_uid
  pub filename : x.filename ≡ text_or r.filename (known old).filename
  pub offset : x.offset ≡ number_or r.offset (known old).offset
  pub line_number : x.line_number ≡ number_or r.line_number (known old).line_number
  pub collect_time : x.collect_time ≡ text_or (texts.time2text now) (known old).collect_time
  pub version : x.version ≡ text_or texts.version (known old).version

-- It is stored under the key, and what is stored under other keys stays.
pub record Stores (kv : Kv) (texts : Texts) (now : ℕ) (r : Registry) (before after : kv.Db)
    : Type 0 where
  pub x : Registry
  pub stored : kv.get (registry_key r) after ≡ some x
  pub upserted : Upserted texts now r (kv.get (registry_key r) before) x
  pub others : (j : String) → str_eq (registry_key r) j ≡ false → kv.get j after ≡ kv.get j before

-- The same job is named by both.
pub record SameJob (r old : Registry) : Type 0 where
  pub pipelines : old.pipeline_name ≡ r.pipeline_name
  pub sources : old.source_name ≡ r.source_name
  pub uids : old.job_uid ≡ r.job_uid

stamped : Texts → ℕ → Registry → Registry
stamped texts now r = record r { collect_time = texts.time2text now; version = texts.version }

new-Upserted :
    (texts : Texts) (now : ℕ) (r : Registry) → Upserted texts now r none (stamped texts now r)
unfolding stamped
new-Upserted texts now r = record {
  id = refl;
  pipeline_name = refl;
  source_name = refl;
  job_uid = refl;
  filename = text_or_empty r.filename;
  offset = number_or_zero r.offset;
  line_number = number_or_zero r.line_number;
  collect_time = text_or_empty (texts.time2text now);
  version = text_or_empty texts.version;
}
  where
    text_or_empty : (t : String) → t ≡ text_or t ""
    text_or_empty t = ground (arith, eq_iff t "")

    number_or_zero : (n : ℕ) → n ≡ number_or n 0
    number_or_zero n = ground arith

merged-Upserted :
    (texts : Texts) (now : ℕ) (r old : Registry)
    → SameJob r old
    → Upserted texts now r (some old) (merge old (record (stamped texts now r) { id = old.id }))
unfolding merge stamped
merged-Upserted texts now r old s = record {
  id = refl;
  pipeline_name = s.pipelines;
  source_name = s.sources;
  job_uid = s.uids;
  filename = refl;
  offset = refl;
  line_number = refl;
  collect_time = refl;
  version = refl;
}

-- A registry with nothing empty in it replaces the stored one.
whole-Upserted :
    (texts : Texts) (now : ℕ) (r old : Registry)
    → check_integrity (record (stamped texts now r) { id = old.id }) ≡ true
    → Upserted texts now r (some old) (record (stamped texts now r) { id = old.id })
unfolding check_integrity stamped
whole-Upserted texts now r old c = record {
  id = refl;
  pipeline_name = refl;
  source_name = refl;
  job_uid = refl;
  filename = ground (arith, c);
  offset = ground (arith, c);
  line_number = ground (arith, c);
  collect_time = ground (arith, c);
  version = ground (arith, c);
}

module _ (kv : Kv) (laws : KvLaws kv) where
  set-Stores :
      (texts : Texts) (now : ℕ) (r x : Registry) (db : kv.Db)
      → Upserted texts now r (kv.get (registry_key r) db) x
      → Stores kv texts now r db (kv.set (registry_key r) x db)
  set-Stores texts now r x db v = record {
    x = x;
    stored =
        laws.get-set (registry_key r) (registry_key r) x db ∙ simp (eq_refl (registry_key r)) refl;
    upserted = v;
    others = λ j h. laws.get-set (registry_key r) j x db ∙ simp h refl;
  }

  -- The offset of a job with a uid is upserted, where nothing is stored under its key or a registry
  -- of the same job: a registry of the job is stored then, under its key, and what is stored under
  -- other keys stays. It has the id that was stored before, if any; its filename, offset and line
  -- number are those that were asked for, its collect time is now and its version the current one,
  -- except that where one of these is empty or zero, what was stored before is kept.
  pub upsert-Stores :
      (texts : Texts) (now : ℕ) (r : Registry) (db : kv.Db)
      → str_eq r.job_uid "" ≡ false
      → ((old : Registry) → kv.get (registry_key r) db ≡ some old → SameJob r old)
      → Stores kv texts now r db (upsert_offset_by_job_watch_id (badger kv) texts now r db)
  unfolding upsert_offset_by_job_watch_id found_or_empty insert_groups insert_all group
      update_groups update_all update_one stamped
  upsert-Stores texts now r db uid named =
      let key = registry_key r in
      let s = stamped texts now r in
      elim (Option-cases (kv.get key db)) [
        | inl e ↦
            simp (upsert_offset_by_job_watch_id, e)
              (set-Stores texts now r s db
                (subst (λ o. Upserted texts now r o s) (sym e) (new-Upserted texts now r)))
        | inr (old, e) ↦
            let same = record s { id = old.id } in
            let job = named old e in
            let there : str_eq old.job_uid "" ≡ false = ap (λ u. str_eq u "") job.uids ∙ uid in
            elim (Bool-cases (check_integrity same)) [
              | inl c ↦
                  simp (upsert_offset_by_job_watch_id, e, there, c)
                    (set-Stores texts now r same db (
                      subst (λ o. Upserted texts now r o same) (sym e)
                        (whole-Upserted texts now r old c)))
              | inr c ↦
                  simp (upsert_offset_by_job_watch_id, e, there, c)
                    (set-Stores texts now r (merge old same) db (
                      subst (λ o. Upserted texts now r o (merge old same)) (sym e)
                        (merged-Upserted texts now r old job)))
            ]
      ]
