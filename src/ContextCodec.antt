-- ===== src/ContextCodec.antt =====
-- rlm-context-codec.ts: packs a workflow's envelope into rows of bounded size and plans the reads. Text
-- is a list of UTF-16 code units; a position in the envelope is what is left of it there.
use commitment_workbench.Prelude.{ℕ}
pub mod Json
pub mod Rows
pub mod Plan
pub mod Encode
pub mod Sizes
pub mod Packing
pub mod Whole
pub mod Slices
pub mod Reads
pub mod Decode
pub mod Joined
pub mod Outcome
mod Examples

abbrev pub row_utf8_max : ℕ
row_utf8_max = 20000

abbrev pub slice_utf8_max : ℕ
slice_utf8_max = 20000

abbrev pub store_utf8_max : ℕ
store_utf8_max = 3145728

abbrev pub max_rows : ℕ
max_rows = 16384

abbrev pub slice_rows : ℕ
slice_rows = 64

abbrev pub max_reads : ℕ
max_reads = 256

abbrev pub index_serialized_bytes : ℕ
index_serialized_bytes = 131072

pub data Code : Type 0 where
  invalid_input index_bound row_limit store_limit read_limit unencodable : Code

-- A result, the code of the error that is thrown, or another error.
pub data Result {ℓ} (A : Type ℓ) : Type ℓ where
  fail : Code → Result A
  error : Result A
  ok : A → Result A
