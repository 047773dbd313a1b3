-- ===== src/Budget/Settled.antt =====
-- The accounts of a budget where the provider settles an attempt.
use commitment_workbench.Prelude.{
  ℕ, suc, ◌+◌, ◌-◌, ◌<◌, ◌≡◌, refl, sym, ap, ◌∙◌, inl, inr, Bool, true, false, some, List, [], ◌∷◌,
  arith, Bool-cases, ◌==◌, if◌then◌else◌,
}
use commitment_workbench.Budget.State.{
  unsettled, fulfilled, reported, unknown, Usage, Attempt, Budget, read_usage,
}
use commitment_workbench.Budget.Settle.{
  update_attempt, find_attempt, is_reported, is_refused, Response, settle, receive, provider_failed,
}
use commitment_workbench.Budget.Idle.{Core, core}
use commitment_workbench.Budget.Refusals.{
  receive-settle, failed_attempt, without_slot, provider_failed-reject,
}
use commitment_workbench.Budget.Accounts.{
  total, waiting, held, input_used, output_used, IsNumbered, Accounts, Idle-Accounts,
}

update-beyond :
    (m : Core → ℕ) (f : Attempt → Attempt) (id k : ℕ) (es : List Attempt)
    → id < k
    → IsNumbered k es
    → total m (update_attempt id f es) ≡ total m es
update-beyond m f id k [] h n = refl
update-beyond m f id k (e ∷ es) h n =
    let other : (e.id == id) ≡ false = ground (arith, h, n.0) in
    rw other
      (ap {B = ℕ} (λ t. m (core e) + t) (update-beyond m f id (suc k) es (omega (arith, h)) n.1))

-- A change of one attempt changes a sum by the change of its own quantity.
update-total :
    (m : Core → ℕ) (f : Attempt → Attempt) (id k : ℕ) (es : List Attempt) (e : Attempt)
    → IsNumbered k es
    → find_attempt id es ≡ some e
    → total m (update_attempt id f es) + m (core e) ≡ total m es + m (core (f e))
update-total m f id k [] e n h = cc h
update-total m f id k (d ∷ es) e n h = elim (Bool-cases (d.id == id)) [
  | inl hit ↦
      let same : d ≡ e = found (d.id == id) hit h in
      let rest = update-beyond m f id (suc k) es (ground (arith, hit, n.0)) n.1 in
      rw (hit, rest, same) (omega arith)
  | inr miss ↦
      let later : find_attempt id es ≡ some e = missed (d.id == id) miss h in
      rw miss (omega (arith, update-total m f id (suc k) es e n.1 later))
]
  where
    found : (t : Bool) → t ≡ true → (if t then some d else find_attempt id es) ≡ some e → d ≡ e
    found true q r = cc r
    found false q r = cc q

    missed :
        (t : Bool)
        → t ≡ false
        → (if t then some d else find_attempt id es) ≡ some e
        → find_attempt id es ≡ some e
    missed false q r = r
    missed true q r = cc q

update-IsNumbered :
    (f : Attempt → Attempt)
    → ((e : Attempt) → (f e).id ≡ e.id)
    → (id k : ℕ) (es : List Attempt) → IsNumbered k es
    → IsNumbered k (update_attempt id f es)
update-IsNumbered f h id k [] n = tt
update-IsNumbered f h id k (e ∷ es) n = (one (e.id == id), update-IsNumbered f h id (suc k) es n.1)
  where
    one : (t : Bool) → (if t then f e else e).id ≡ k
    one true = h e ∙ n.0
    one false = n.0

pub find-id : (id : ℕ) (es : List Attempt) (e : Attempt) → find_attempt id es ≡ some e → e.id ≡ id
find-id id [] e h = cc h
find-id id (d ∷ es) e h = go (find-id id es e) (d.id == id) refl h
  where
    go :
        (find_attempt id es ≡ some e → e.id ≡ id)
        → (t : Bool) → (d.id == id) ≡ t
        → (if t then some d else find_attempt id es) ≡ some e
        → e.id ≡ id
    go ih true q r =
        let same : d ≡ e = cc r in
        let hit : d.id ≡ id = ground (arith, q) in sym (ap (λ x. x.id) same) ∙ hit
    go ih false q r = ih r

-- An attempt of the ledger that waits for its provider.
pub record IsWaiting (b : Budget) (e : Attempt) : Type 0 where
  pub found : find_attempt e.id b.ledger ≡ some e
  pub waits : e.provider_settlement ≡ unsettled

waiting_one : (c : Core) → c.settlement ≡ unsettled → waiting c ≡ 1
waiting_one c h = rw h refl

held_all : (c : Core) → c.settlement ≡ unsettled → held c ≡ c.tokens
held_all c h = rw h refl

input_none : (c : Core) → c.settlement ≡ unsettled → input_used c ≡ 0
input_none c h = rw h refl

output_none : (c : Core) → c.settlement ≡ unsettled → output_used c ≡ 0
output_none c h = rw h refl

abbrev settled_attempt : Usage → ℕ → Attempt → Attempt
settled_attempt usage at x = record x {
  provider_settlement = fulfilled;
  settled_after_ms = some at;
  late = is_refused x.outcome;
  usage = usage;
  usage_status = if is_reported usage then reported else unknown;
}

settle-Accounts :
    (e : Attempt) (u : Usage) (at : ℕ) (b : Budget)
    → IsWaiting b e
    → Accounts b
    → Accounts (settle e u at b)
unfolding settle
settle-Accounts e u at b w k =
    let moved : (m : Core → ℕ)
        → total m (update_attempt e.id (settled_attempt u at) b.ledger) + m (core e)
          ≡ total m b.ledger + m (core (settled_attempt u at e)) =
      λ m. update-total m (settled_attempt u at) e.id 1 b.ledger e k.numbered w.found in
    record {
      numbered = update-IsNumbered (settled_attempt u at) (λ x. refl) e.id 1 b.ledger k.numbered;
      active_eq = omega (arith, moved waiting, waiting_one (core e) w.waits, k.active_eq);
      bytes_eq = omega (arith, moved (λ c. c.bytes), k.bytes_eq);
      requested_eq = omega (arith, moved (λ c. c.tokens), k.requested_eq);
      reserved_eq = left (is_reported u) (moved held) (held_all (core e) w.waits);
      input_eq = omega (arith, moved input_used, input_none (core e) w.waits, k.input_eq);
      output_eq = omega (arith, moved output_used, output_none (core e) w.waits, k.output_eq);
      peak_high = omega (arith, k.peak_high);
    }
  where
    left :
        (t : Bool)
        → total held (update_attempt e.id (settled_attempt u at) b.ledger) + held (core e)
          ≡ total held b.ledger + (if t then 0 else e.requested_output_tokens)
        → held (core e) ≡ e.requested_output_tokens
        → (if t then b.reserved_output - e.requested_output_tokens else b.reserved_output)
          ≡ total held (update_attempt e.id (settled_attempt u at) b.ledger)
    left true h q = omega (arith, h, q, k.reserved_eq)
    left false h q = omega (arith, h, q, k.reserved_eq)

pub receive-Accounts :
    (e : Attempt) (r : Response) (at : ℕ) (b : Budget)
    → IsWaiting b e
    → Accounts b
    → Accounts (receive e r at b)
receive-Accounts e r at b w k =
    Idle-Accounts (receive-settle e r at b) (settle-Accounts e (read_usage r.usage) at b w k)

without_slot-Accounts :
    (e : Attempt) (at : ℕ) (b : Budget)
    → IsWaiting b e
    → Accounts b
    → Accounts (without_slot e at b)
without_slot-Accounts e at b w k =
    let moved : (m : Core → ℕ)
        → total m (update_attempt e.id (failed_attempt at) b.ledger) + m (core e)
          ≡ total m b.ledger + m (core (failed_attempt at e)) =
      λ m. update-total m (failed_attempt at) e.id 1 b.ledger e k.numbered w.found in
    record {
      numbered = update-IsNumbered (failed_attempt at) (λ x. refl) e.id 1 b.ledger k.numbered;
      active_eq = omega (arith, moved waiting, waiting_one (core e) w.waits, k.active_eq);
      bytes_eq = omega (arith, moved (λ c. c.bytes), k.bytes_eq);
      requested_eq = omega (arith, moved (λ c. c.tokens), k.requested_eq);
      reserved_eq = omega (arith, moved held, held_all (core e) w.waits, k.reserved_eq);
      input_eq = omega (arith, moved input_used, input_none (core e) w.waits, k.input_eq);
      output_eq = omega (arith, moved output_used, output_none (core e) w.waits, k.output_eq);
      peak_high = omega (arith, k.peak_high);
    }

pub provider_failed-Accounts :
    (e : Attempt) (at : ℕ) (b : Budget)
    → IsWaiting b e
    → Accounts b
    → Accounts (provider_failed e at b)
provider_failed-Accounts e at b w k =
    Idle-Accounts (provider_failed-reject e at b) (without_slot-Accounts e at b w k)
