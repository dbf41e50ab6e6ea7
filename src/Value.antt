-- ===== src/Value.antt =====
-- The values of an event's header (Go's `interface{}` as it is produced by decoders and actions)
-- and what a source records about an event (pkg/util/persistence/state.go, pkg/pipeline/epoch.go).
use loggie.Prelude.{ℕ, Bool, List, String, ◌&&◌, ◌==◌, str_eq}

-- A signed 64-bit number; `negsuc n` is -(n + 1).
pub data ℤ : Type 0 where
  pos negsuc : ℕ → ℤ

-- A `float64` is its bit pattern: the code modelled here only passes it on.
mutual
  pub data Value : Type 0 where
    null : Value
    str : String → Value
    bytes : List ℕ → Value
    int64 : ℤ → Value
    float64 : ℕ → Value
    bool : Bool → Value
    obj : Fields → Value
    arr : Items → Value

  -- map[string]interface{}
  pub data Fields : Type 0 where
    end : Fields
    field : String → Value → Fields → Fields

  -- []interface{}
  pub data Items : Type 0 where
    nil : Items
    cons : Value → Items → Items

-- Times are nanoseconds on one clock.
pub record Epoch : Type 0 where
  pub pipeline_name : String
  pub reload_count : ℕ
  pub start_time : ℕ

unfoldable pub epoch_equal : Epoch → Epoch → Bool
epoch_equal e ae =
    str_eq e.pipeline_name ae.pipeline_name
    && e.reload_count == ae.reload_count
    && e.start_time == ae.start_time

-- Offsets and counts are int64 in the source and stay below 2^63 there.
pub record State : Type 0 where
  pub epoch : Epoch
  pub pipeline_name : String
  pub source_name : String
  pub offset : ℕ
  pub next_offset : ℕ
  pub filename : String
  pub collect_time : ℕ
  pub content_bytes : ℕ
  pub job_uid : String
  pub job_index : ℕ
  pub event_uid : String
  pub line_number : ℕ
  pub tags : String
  pub watch_uid : String
  pub job_fields : Fields
