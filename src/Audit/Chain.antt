-- ===== src/Audit/Chain.antt =====
-- verify-chain.ts: the verifier of one contiguous range of audit rows, oldest first.
use commitment_workbench.Prelude.{
  ℕ, ◌+◌, Bool, true, false, not, ◌&&◌, ◌||◌, Option, none, some, List, [], ◌∷◌, ◌++◌, Text,
  text_eq, length, ◌==◌, if◌then◌else◌,
}
use commitment_workbench.Audit.Hash.{
  EntryHashFields, compute_entry_hash, genesis_sentinel as sentinel_text,
}
pub mod Links
pub mod Pages
pub mod Tamper

pub record ChainEntry : Type 0 where
  pub fields : EntryHashFields
  pub open fields use *
  pub hash : Text
  pub epoch_prev_hash : Option Text

-- An edge of the range; a location is there but on an empty range.
pub data LowerEdge : Type 0 where
  closed : LowerEdge
  genesis_shaped : LowerEdge
  unchecked : Option (Text × ℕ) → LowerEdge

pub data UpperEdge : Type 0 where
  closed : UpperEdge
  unchecked : Option (Text × ℕ) → UpperEdge

pub data BreakKind : Type 0 where
  entry_hash prev_hash genesis_sentinel epoch_link epoch_link_null : BreakKind

pub record ChainBreak : Type 0 where
  pub kind : BreakKind
  pub epoch_id : Text
  pub sequence_num : ℕ
  pub expected : Option Text
  pub actual : Option Text
  pub rows_missing : Bool

pub record ChainVerdict : Type 0 where
  pub entries_checked : ℕ
  pub epochs_covered : List Text
  pub lower_edge : LowerEdge
  pub upper_edge : UpperEdge
  pub breaks : List ChainBreak

-- A break at an entry.
abbrev pub break_at : ChainEntry → BreakKind → Option Text → Option Text → Bool → ChainBreak
break_at e kind expected actual missing = record {
  kind = kind;
  epoch_id = e.epoch_id;
  sequence_num = e.sequence_num;
  expected = expected;
  actual = actual;
  rows_missing = missing;
}

-- A guarded `breaks.push`.
abbrev pub push_if : Bool → ChainBreak → List ChainBreak
push_if true b = b ∷ []
push_if false b = []

-- `prev.sequenceNum + 1 !== entry.sequenceNum`
abbrev pub has_gap : ChainEntry → ChainEntry → Bool
has_gap prev entry = not (prev.sequence_num + 1 == entry.sequence_num)

-- The tests of an entry's cross-epoch link, which the walk and the upper seam share in form.
abbrev pub check_epoch_link : ChainEntry → ChainEntry → Option Text → List ChainBreak
check_epoch_link prev entry none = break_at entry epoch_link_null (some prev.hash) none false ∷ []
check_epoch_link prev entry (some link) =
    push_if (not (text_eq link prev.hash))
      (break_at entry epoch_link (some prev.hash) (some link) false)

-- Rules 2 and 3 of the walk: the link of an entry to the one before it.
unfoldable pub check_link : ChainEntry → ChainEntry → List ChainBreak
check_link prev entry =
    if text_eq prev.epoch_id entry.epoch_id
    then push_if (not (entry.sequence_num == 0) && not (text_eq entry.prev_hash prev.hash))
        (break_at entry prev_hash (some prev.hash) (some entry.prev_hash) (has_gap prev entry))
    else (if entry.sequence_num == 0
        then check_epoch_link prev entry entry.epoch_prev_hash
        else break_at entry prev_hash none (some entry.prev_hash) true ∷ [])

unfoldable pub check_sentinel : ChainEntry → List ChainBreak
check_sentinel entry =
    push_if (entry.sequence_num == 0 && not (text_eq entry.prev_hash sentinel_text))
      (break_at entry genesis_sentinel (some sentinel_text) (some entry.prev_hash) false)

-- The seam to the entry that follows the range. Unlike the walk, it tests the hash link of a boundary
-- of the same epoch whatever its sequence number.
unfoldable pub check_seam : ChainEntry → ChainEntry → List ChainBreak
check_seam newest boundary =
    if text_eq boundary.epoch_id newest.epoch_id
    then push_if (not (text_eq boundary.prev_hash newest.hash)) (
        break_at boundary prev_hash (some newest.hash) (some boundary.prev_hash)
          (has_gap newest boundary))
    else (if boundary.sequence_num == 0
        then check_epoch_link newest boundary boundary.epoch_prev_hash
        else break_at boundary prev_hash none (some boundary.prev_hash) true ∷ [])

abbrev pub last_epoch_is : Text → List Text → Bool
last_epoch_is e [] = false
last_epoch_is e (x ∷ []) = text_eq x e
last_epoch_is e (x ∷ y ∷ ys) = last_epoch_is e (y ∷ ys)

-- `epochsCovered.push(entry.epochId)`, unless it is the last already.
unfoldable pub cover : List Text → Text → List Text
cover epochs e = if last_epoch_is e epochs then epochs else epochs ++ e ∷ []

pub record Walk : Type 0 where
  pub breaks : List ChainBreak
  pub epochs_covered : List Text
  pub prev : Option ChainEntry

abbrev pub link_breaks : Option ChainEntry → ChainEntry → List ChainBreak
link_breaks none entry = []
link_breaks (some prev) entry = check_link prev entry

abbrev pub lower_edge_of : ChainEntry → LowerEdge
lower_edge_of oldest = elim oldest.epoch_prev_hash [
  | none ↦
      if oldest.sequence_num == 0
      then genesis_shaped
      else LowerEdge.unchecked (some (oldest.epoch_id, oldest.sequence_num))
  | some h ↦ LowerEdge.unchecked (some (oldest.epoch_id, oldest.sequence_num))
]

module _ (sha256 : Text → Text) where
  -- Rule 1: the digest recomputed from the stored fields.
  unfoldable pub check_hash : ChainEntry → List ChainBreak
  check_hash entry =
      let recomputed = compute_entry_hash sha256 entry.fields in
      push_if (not (text_eq recomputed entry.hash))
        (break_at entry entry_hash (some recomputed) (some entry.hash) false)

  -- One round of the loop over the entries.
  unfoldable pub walk_step : Walk → ChainEntry → Walk
  walk_step w entry = record {
    breaks = w.breaks ++ (check_hash entry ++ (check_sentinel entry ++ link_breaks w.prev entry));
    epochs_covered = cover w.epochs_covered entry.epoch_id;
    prev = some entry;
  }

  unfoldable pub walk : Walk → List ChainEntry → Walk
  unfolding walk_step
  walk w [] = w
  walk w (e ∷ es) = walk (walk_step w e) es

  abbrev pub start : Walk
  start = record { breaks = []; epochs_covered = []; prev = none }

  -- The upper edge and the breaks of its seam, after the loop.
  unfoldable pub close_range : List ChainEntry → LowerEdge → Option ChainEntry → Walk → ChainVerdict
  close_range entries lower boundary w = elim w.prev [
    | none ↦ record {
      entries_checked = 0;
      epochs_covered = [];
      lower_edge = LowerEdge.unchecked none;
      upper_edge = UpperEdge.unchecked none;
      breaks = [];
    }
    | some newest ↦ elim boundary [
      | none ↦ record {
        entries_checked = length entries;
        epochs_covered = w.epochs_covered;
        lower_edge = lower;
        upper_edge = UpperEdge.unchecked (some (newest.epoch_id, newest.sequence_num));
        breaks = w.breaks;
      }
      | some b ↦ record {
        entries_checked = length entries;
        epochs_covered = w.epochs_covered;
        lower_edge = lower;
        upper_edge = UpperEdge.closed;
        breaks = w.breaks ++ check_seam newest b;
      }
    ]
  ]

  unfoldable pub verify_chain_range : List ChainEntry → Option ChainEntry → ChainVerdict
  unfolding walk close_range
  verify_chain_range [] boundary = record {
    entries_checked = 0;
    epochs_covered = [];
    lower_edge = LowerEdge.unchecked none;
    upper_edge = UpperEdge.unchecked none;
    breaks = [];
  }
  verify_chain_range (oldest ∷ rest) boundary =
      close_range (oldest ∷ rest) (lower_edge_of oldest) boundary (walk start (oldest ∷ rest))
