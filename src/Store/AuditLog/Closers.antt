-- ===== src/Store/AuditLog/Closers.antt =====
-- Whole histories of the log: any sequence of the two exported writes.
use commitment_workbench.Prelude.{
  ℕ, ◌+◌, ◌≤◌, ◌≡◌, refl, sym, ap, subst, ◌∙◌, inl, inr, Bool, true, false, Option, none, some,
  List, [], ◌∷◌, ◌++◌, arith, All, Bool-cases, any, filter, filter-append, length, length-append,
  if◌then◌else◌, Text, text_eq, text_eq_iff,
}
use commitment_workbench.Audit.Chain.{ChainEntry, verify_chain_range}
use commitment_workbench.Audit.Chain.Links.{verify_chain_range-clean_iff}
use commitment_workbench.Store.Tables.{insert_unique, select_one}
use commitment_workbench.Store.AuditLog.{
  AuditEntryParams, Env, AuditEntryResult, CloserBasis, observed, inferred, closes,
  has_closer_in_txn, WriteResult, written, skipped, violation, to_result, satisfies_checks,
  insert_row, insert_audit_entry_in_txn, close_decision_entry_in_txn, row_of, with_result, same_key,
}
use commitment_workbench.Store.AuditLog.Appends.{insert_row-IsLog}
use commitment_workbench.Store.AuditLog.Placed.{IsLog}

-- The two writes that the module exports, with what they read of the clock.
pub data LogWrite : Type 0 where
  entry : Env → AuditEntryParams → LogWrite
  closer : Env → AuditEntryParams → Text → CloserBasis → LogWrite

abbrev pub params_of : LogWrite → AuditEntryParams
params_of (entry env p) = p
params_of (closer env p referent basis) = p

-- A write that takes its epoch from the clock, as every caller outside the tests does.
abbrev pub ByClock : LogWrite → Type 0
ByClock w = (params_of w).epoch_id ≡ none

abbrev pub table_after : List ChainEntry → WriteResult → List ChainEntry
table_after t (written r u) = u
table_after t skipped = t
table_after t violation = t

module _ (sha256 : Text → Text) where
  unfoldable pub log_write : LogWrite → List ChainEntry → List ChainEntry
  unfolding insert_audit_entry_in_txn close_decision_entry_in_txn
  log_write (entry env p) t = table_after t (insert_audit_entry_in_txn sha256 env p t)
  log_write (closer env p referent basis) t =
      table_after t (close_decision_entry_in_txn sha256 env p referent basis t)

  unfoldable pub log_writes : List LogWrite → List ChainEntry → List ChainEntry
  unfolding log_write
  log_writes [] t = t
  log_writes (w ∷ ws) t = log_writes ws (log_write w t)

  insert-IsLog :
      (env : Env) (p : AuditEntryParams) (referent : Option Text) (t : List ChainEntry)
      → p.epoch_id ≡ none
      → IsLog sha256 t
      → IsLog sha256 (table_after t (to_result (insert_row sha256 env p referent t)))
  insert-IsLog env p referent t h log = go (insert_row sha256 env p referent t) refl
    where
      go :
          (o : Option (AuditEntryResult × List ChainEntry))
          → insert_row sha256 env p referent t ≡ o
          → IsLog sha256 (table_after t (to_result o))
      go none e = log
      go (some (r, u)) e = insert_row-IsLog sha256 env p referent t u r h log e

  log_write-IsLog :
      (w : LogWrite) (t : List ChainEntry)
      → ByClock w
      → IsLog sha256 t
      → IsLog sha256 (log_write w t)
  unfolding log_write insert_audit_entry_in_txn close_decision_entry_in_txn
  log_write-IsLog (entry env p) t h log = insert-IsLog env p none t h log
  log_write-IsLog (closer env p referent observed) t h log =
      insert-IsLog env p (some referent) t h log
  log_write-IsLog (closer env p referent inferred) t h log =
      elim (Bool-cases (has_closer_in_txn referent t)) [
        | inl e ↦ rw e log
        | inr e ↦ rw e (insert-IsLog env p (some referent) t h log)
      ]

  pub log_writes-IsLog :
      (ws : List LogWrite) (t : List ChainEntry)
      → All ByClock ws
      → IsLog sha256 t
      → IsLog sha256 (log_writes ws t)
  unfolding log_writes
  log_writes-IsLog [] t h log = log
  log_writes-IsLog (w ∷ ws) t h log =
      log_writes-IsLog ws (log_write w t) h.1 (log_write-IsLog w t h.0 log)

  pub empty-IsLog : IsLog sha256 []
  empty-IsLog = record { rising = tt; chain = tt }

  IsLog-clean :
      (t : List ChainEntry) → IsLog sha256 t → (verify_chain_range sha256 t none).breaks ≡ []
  unfolding verify_chain_range
  IsLog-clean [] log = refl
  IsLog-clean (e ∷ t) log = (verify_chain_range-clean_iff sha256 e t none).1 (log.chain, tt)

  -- Whatever is written, in any order, by any clock, backwards ones included: the verifier finds no
  -- break in the rows of the log. Each write takes its epoch from the clock; one that is refused or
  -- skipped leaves the log as it was.
  pub written_log_verifies :
      (ws : List LogWrite)
      → All ByClock ws
      → (verify_chain_range sha256 (log_writes ws []) none).breaks ≡ []
  written_log_verifies ws h = IsLog-clean (log_writes ws []) (log_writes-IsLog ws [] h empty-IsLog)

-- How many rows close an entry.
abbrev pub closers : Text → List ChainEntry → ℕ
closers id t = length (filter (closes id) t)

has_closer_lem : (id : Text) (t : List ChainEntry) → has_closer_in_txn id t ≡ any (closes id) t
unfolding has_closer_in_txn select_one
has_closer_lem id [] = refl
has_closer_lem id (r ∷ t) = ground (arith, has_closer_lem id t)

no_closers : (id : Text) (t : List ChainEntry) → any (closes id) t ≡ false → closers id t ≡ 0
no_closers id [] h = refl
no_closers id (r ∷ t) h = ground (arith, no_closers id t)

-- A closer on an inferred basis is written where there is none yet.
abbrev pub IsInferred : LogWrite → Type 0
IsInferred (entry env p) = Unit {0}
IsInferred (closer env p referent basis) = basis ≡ inferred

abbrev is_for : Text → Option Text → Bool
is_for id referent = elim referent [ none ↦ false | some j ↦ text_eq j id ]

module _ (sha256 : Text → Text) (id : Text) where
  closers-snoc :
      (env : Env) (p : AuditEntryParams) (referent : Option Text) (t : List ChainEntry)
      → closers id (t ++ row_of sha256 env p referent t ∷ [])
        ≡ closers id t + (if is_for id referent then 1 else 0)
  unfolding row_of
  closers-snoc env p referent t =
      rw (filter-append (closes id) t (row_of sha256 env p referent t ∷ [])) (
        length-append (filter (closes id) t)
          (filter (closes id) (row_of sha256 env p referent t ∷ []))
        ∙ ap (λ n. closers id t + n) (one referent))
    where
      one :
          (r : Option Text)
          → length (if is_for id r then row_of sha256 env p referent t ∷ [] else [])
            ≡ (if is_for id r then 1 else 0)
      one none = refl
      one (some j) = ground arith

  insert-closers :
      (env : Env) (p : AuditEntryParams) (referent : Option Text) (t : List ChainEntry)
      → closers id (table_after t (to_result (insert_row sha256 env p referent t)))
        ≤ closers id t + (if is_for id referent then 1 else 0)
  unfolding insert_row insert_unique
  insert-closers env p referent t =
      go (satisfies_checks (row_of sha256 env p referent t))
        (any (same_key (row_of sha256 env p referent t)) t)
    where
      e : ChainEntry
      e = row_of sha256 env p referent t

      go :
          (c b : Bool)
          → closers id (
              table_after t (
                to_result
                  (with_result e (if c then if b then none else some (t ++ e ∷ []) else none))))
            ≤ closers id t + (if is_for id referent then 1 else 0)
      go false b = omega arith
      go true true = omega arith
      go true false = omega (arith, closers-snoc env p referent t)

  log_write-closers :
      (w : LogWrite) (t : List ChainEntry)
      → IsInferred w
      → closers id t ≤ 1
      → closers id (log_write sha256 w t) ≤ 1
  unfolding log_write insert_audit_entry_in_txn close_decision_entry_in_txn
  log_write-closers (entry env p) t h le = omega (arith, le, insert-closers env p none t)
  log_write-closers (closer env p referent observed) t h le = cc
  log_write-closers (closer env p referent inferred) t h le =
      elim (Bool-cases (has_closer_in_txn referent t)) [
        | inl e ↦ rw e le
        | inr e ↦ rw e (
            one_more (text_eq referent id) refl (sym (has_closer_lem referent t) ∙ e)
              (insert-closers env p (some referent) t))
      ]
    where
      one_more :
          (b : Bool)
          → text_eq referent id ≡ b
          → any (closes referent) t ≡ false
          → closers id (table_after t (to_result (insert_row sha256 env p (some referent) t)))
            ≤ closers id t + (if b then 1 else 0)
          → closers id (table_after t (to_result (insert_row sha256 env p (some referent) t))) ≤ 1
      one_more false q f k = omega (arith, le, k)
      one_more true q f k =
          let same : referent ≡ id = ground (arith, text_eq_iff referent id) in
          omega (arith, k, no_closers id t (subst (λ x. any (closes x) t ≡ false) same f))

  log_writes-closers :
      (ws : List LogWrite) (t : List ChainEntry)
      → All IsInferred ws
      → closers id t ≤ 1
      → closers id (log_writes sha256 ws t) ≤ 1
  unfolding log_writes
  log_writes-closers [] t a le = le
  log_writes-closers (w ∷ ws) t a le =
      log_writes-closers ws (log_write sha256 w t) a.1 (log_write-closers w t a.0 le)

  -- Where each closer is written on an inferred basis, no decision entry is closed twice, whatever else
  -- is written and in any order.
  pub inferred_at_most_once :
      (ws : List LogWrite) → All IsInferred ws → closers id (log_writes sha256 ws []) ≤ 1
  inferred_at_most_once ws h = log_writes-closers ws [] h (omega arith)
