-- ===== src/Budget/Accounts.antt =====
-- What the counters of a budget stand for: sums over its attempts, which every step keeps.
use commitment_workbench.Prelude.{
  ℕ, suc, ◌+◌, ◌≤◌, ◌≡◌, refl, sym, ap, ap₂, ◌∙◌, List, [], ◌∷◌, ◌++◌, arith, length, if◌then◌else◌,
}
use commitment_workbench.Budget.State.{
  Role, unsettled, fulfilled, Usage, Attempt, Budget, empty_usage,
}
use commitment_workbench.Budget.Settle.{or_zero, is_reported}
use commitment_workbench.Budget.Idle.{Core, core, cores, Idle}
use commitment_workbench.Budget.Admission.{Reserves}

-- The sum of a quantity over the attempts
abbrev pub total : (Core → ℕ) → List Attempt → ℕ
total m [] = 0
total m (e ∷ es) = m (core e) + total m es

-- A call that the provider has not settled
abbrev pub waiting : Core → ℕ
waiting c = elim c.settlement [ unsettled ↦ 1 | _ ↦ 0 ]

-- Output tokens that an attempt holds: all it asked for, until a usage is reported for it.
abbrev pub held : Core → ℕ
held c = elim c.settlement [
  | fulfilled ↦ if is_reported c.usage then 0 else c.tokens
  | _ ↦ c.tokens
]

abbrev pub input_of : Usage → ℕ
input_of u =
    or_zero u.uncached_input_tokens
    + or_zero u.cache_read_input_tokens
    + or_zero u.cache_creation_input_tokens

-- What was observed of an attempt that the provider fulfilled
abbrev pub input_used : Core → ℕ
input_used c = elim c.settlement [ fulfilled ↦ input_of c.usage | _ ↦ 0 ]

abbrev pub output_used : Core → ℕ
output_used c = elim c.settlement [ fulfilled ↦ or_zero c.usage.output_tokens | _ ↦ 0 ]

-- The attempts are numbered one after the other.
abbrev pub IsNumbered : ℕ → List Attempt → Type 0
IsNumbered k [] = Unit {0}
IsNumbered k (e ∷ es) = (e.id ≡ k) × IsNumbered (suc k) es

pub record Accounts (b : Budget) : Type 0 where
  pub numbered : IsNumbered 1 b.ledger
  pub active_eq : b.active ≡ total waiting b.ledger
  pub bytes_eq : b.request_bytes ≡ total (λ c. c.bytes) b.ledger
  pub requested_eq : b.requested_output ≡ total (λ c. c.tokens) b.ledger
  pub reserved_eq : b.reserved_output ≡ total held b.ledger
  pub input_eq : b.observed_input ≡ total input_used b.ledger
  pub output_eq : b.observed_output ≡ total output_used b.ledger
  pub peak_high : b.active ≤ b.peak

total-cores : (m : Core → ℕ) (es ds : List Attempt) → cores es ≡ cores ds → total m es ≡ total m ds
total-cores m [] [] h = refl
total-cores m [] (d ∷ ds) h = cc
total-cores m (e ∷ es) [] h = cc
total-cores m (e ∷ es) (d ∷ ds) h =
    let head : core e ≡ core d = cc h in
    ap₂ {C = ℕ} (λ c n. m c + n) head (total-cores m es ds (cc h))

IsNumbered-cores :
    (k : ℕ) (es ds : List Attempt) → cores es ≡ cores ds → IsNumbered k ds → IsNumbered k es
IsNumbered-cores k [] [] h n = tt
IsNumbered-cores k [] (d ∷ ds) h n = cc
IsNumbered-cores k (e ∷ es) [] h n = cc
IsNumbered-cores k (e ∷ es) (d ∷ ds) h n =
    let head : core e ≡ core d = cc h in
    (ap (λ c. c.id) head ∙ n.0, IsNumbered-cores (suc k) es ds (cc h) n.1)

pub Idle-Accounts : {a b : Budget} → Idle a b → Accounts a → Accounts b
Idle-Accounts {a} {b} p k =
    let same : (m : Core → ℕ) → total m b.ledger ≡ total m a.ledger =
      λ m. total-cores m b.ledger a.ledger p.same_cores in
    record {
      numbered = IsNumbered-cores 1 b.ledger a.ledger p.same_cores k.numbered;
      active_eq = p.same_active ∙ (k.active_eq ∙ sym (same waiting));
      bytes_eq = p.same_bytes ∙ (k.bytes_eq ∙ sym (same (λ c. c.bytes)));
      requested_eq = p.same_requested ∙ (k.requested_eq ∙ sym (same (λ c. c.tokens)));
      reserved_eq = p.same_reserved ∙ (k.reserved_eq ∙ sym (same held));
      input_eq = p.same_input ∙ (k.input_eq ∙ sym (same input_used));
      output_eq = p.same_output ∙ (k.output_eq ∙ sym (same output_used));
      peak_high = rw (p.same_active, p.same_peak) k.peak_high;
    }

total-append :
    (m : Core → ℕ) (es : List Attempt) (e : Attempt)
    → total m (es ++ e ∷ []) ≡ total m es + m (core e)
total-append m [] e = omega arith
total-append m (d ∷ es) e = omega (arith, total-append m es e)

IsNumbered-append :
    (k : ℕ) (es : List Attempt) (e : Attempt)
    → IsNumbered k es
    → e.id ≡ length es + k
    → IsNumbered k (es ++ e ∷ [])
IsNumbered-append k [] e n h = (omega (arith, h), tt)
IsNumbered-append k (d ∷ es) e n h = (n.0, IsNumbered-append (suc k) es e n.1 (omega (arith, h)))

-- One attempt more adds its own quantity.
grown :
    (m : Core → ℕ) (es ds : List Attempt) (e : Attempt) (c : Core)
    → ds ≡ es ++ e ∷ []
    → core e ≡ c
    → total m ds ≡ total m es + m c
grown m es ds e c h k =
    ap (total m) h ∙ (total-append m es e ∙ ap {B = ℕ} (λ d. total m es + m d) k)

pub Reserves-Accounts :
    {role : Role} {bytes tokens : ℕ} {b b' : Budget}
    → Reserves role bytes tokens b b'
    → Accounts b
    → Accounts b'
Reserves-Accounts {bytes = bytes} {tokens} {b} {b'} r k =
    let new : Core = record {
      id = suc (length b.ledger);
      settlement = unsettled;
      bytes = bytes;
      tokens = tokens;
      usage = empty_usage;
    } in
    let more : (m : Core → ℕ) → total m b'.ledger ≡ total m b.ledger + m new =
      λ m. grown m b.ledger b'.ledger r.attempt new r.appended r.core_eq in
    record {
      numbered = rw r.appended (
          IsNumbered-append 1 b.ledger r.attempt k.numbered
            (omega (arith, ap (λ c. c.id) r.core_eq)));
      active_eq = omega (arith, r.active_eq, k.active_eq, more waiting);
      bytes_eq = omega (arith, r.bytes_eq, k.bytes_eq, more (λ c. c.bytes));
      requested_eq = omega (arith, r.requested_eq, k.requested_eq, more (λ c. c.tokens));
      reserved_eq = omega (arith, r.reserved_eq, k.reserved_eq, more held);
      input_eq = omega (arith, r.input_eq, k.input_eq, more input_used);
      output_eq = omega (arith, r.output_eq, k.output_eq, more output_used);
      peak_high = rw (r.active_eq, r.peak_eq) (omega arith);
    }
