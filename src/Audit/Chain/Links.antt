-- ===== src/Audit/Chain/Links.antt =====
-- verify-chain.ts: what a well-linked chain is, stated without the walk of the verifier.
use commitment_workbench.Prelude.{
  ◌≡◌, refl, sym, ◌∙◌, ◌≢◌, ◌↔◌, ◌⊎◌, Option, none, some, List, [], ◌∷◌, ◌++◌, append-nil, arith,
  Text, text_eq_iff,
}
use commitment_workbench.Audit.Hash.{compute_entry_hash, genesis_sentinel as sentinel_text}
use commitment_workbench.Audit.Chain.{
  ChainEntry, ChainBreak, Walk, check_hash, check_sentinel, check_link, link_breaks, check_seam,
  check_epoch_link, walk_step, walk, start, verify_chain_range,
}

-- An entry of sequence number 0 carries the genesis sentinel.
abbrev pub HasSentinel : ChainEntry → Type 0
HasSentinel e = (e.sequence_num ≢ 0) ⊎ (e.prev_hash ≡ sentinel_text)

-- What the walk asks of an entry after another. In the same epoch its `prev_hash` is the other's hash,
-- but an entry of sequence number 0 is asked for nothing there: it is compared with the sentinel only,
-- so this is weaker than a link. In another epoch it has sequence number 0, and its `epoch_prev_hash` is
-- the other's hash.
abbrev pub MayFollow : ChainEntry → ChainEntry → Type 0
MayFollow prev e =
    ((prev.epoch_id ≡ e.epoch_id) × ((e.sequence_num ≡ 0) ⊎ (e.prev_hash ≡ prev.hash)))
    ⊎ ((prev.epoch_id ≢ e.epoch_id) × (e.sequence_num ≡ 0) × (e.epoch_prev_hash ≡ some prev.hash))

abbrev pub MayFollowLast : Option ChainEntry → ChainEntry → Type 0
MayFollowLast none e = Unit {0}
MayFollowLast (some prev) e = MayFollow prev e

-- What the upper seam asks of the entry after the range: in the same epoch the `prev_hash`, whatever the
-- sequence number is.
abbrev pub IsSeamed : ChainEntry → ChainEntry → Type 0
IsSeamed newest b =
    ((b.epoch_id ≡ newest.epoch_id) × (b.prev_hash ≡ newest.hash))
    ⊎ ((b.epoch_id ≢ newest.epoch_id)
        × (b.sequence_num ≡ 0)
        × (b.epoch_prev_hash ≡ some newest.hash))

check_sentinel_iff : (e : ChainEntry) → (check_sentinel e ≡ []) ↔ HasSentinel e
unfolding check_sentinel
check_sentinel_iff e = ground (arith, text_eq_iff e.prev_hash sentinel_text)

epoch_link_iff :
    (prev e : ChainEntry) (link : Option Text)
    → (check_epoch_link prev e link ≡ []) ↔ (link ≡ some prev.hash)
epoch_link_iff prev e none = ((λ h. cc), λ h. cc)
epoch_link_iff prev e (some link) = ground (arith, text_eq_iff link prev.hash)

check_link_iff : (prev e : ChainEntry) → (check_link prev e ≡ []) ↔ MayFollow prev e
unfolding check_link
check_link_iff prev e = ground (
  arith,
  text_eq_iff prev.epoch_id e.epoch_id,
  text_eq_iff e.prev_hash prev.hash,
  epoch_link_iff prev e e.epoch_prev_hash,
)

check_seam_iff : (newest b : ChainEntry) → (check_seam newest b ≡ []) ↔ IsSeamed newest b
unfolding check_seam
check_seam_iff newest b = ground (
  arith,
  text_eq_iff b.epoch_id newest.epoch_id,
  text_eq_iff b.prev_hash newest.hash,
  epoch_link_iff newest b b.epoch_prev_hash,
)

module _ {ℓ} {A : Type ℓ} where
  append-nil_iff : (xs ys : List A) → (xs ++ ys ≡ []) ↔ ((xs ≡ []) × (ys ≡ []))
  append-nil_iff [] ys = ((λ h. (refl, h)), λ (p, q). q)
  append-nil_iff (x ∷ xs) ys = ((λ h. cc h), λ (p, q). cc p)

-- The last entry of a range that begins with `e`.
abbrev pub newest_of : ChainEntry → List ChainEntry → ChainEntry
newest_of e [] = e
newest_of e (x ∷ xs) = newest_of x xs

abbrev pub IsSeamedTo : ChainEntry → Option ChainEntry → Type 0
IsSeamedTo newest none = Unit {0}
IsSeamedTo newest (some b) = IsSeamed newest b

link_breaks_iff :
    (p : Option ChainEntry) (e : ChainEntry) → (link_breaks p e ≡ []) ↔ MayFollowLast p e
link_breaks_iff none e = ((λ h. tt), λ h. refl)
link_breaks_iff (some prev) e = check_link_iff prev e

abbrev seam_breaks : ChainEntry → Option ChainEntry → List ChainBreak
seam_breaks newest none = []
seam_breaks newest (some b) = check_seam newest b

seam_breaks_iff :
    (newest : ChainEntry) (b : Option ChainEntry)
    → (seam_breaks newest b ≡ []) ↔ IsSeamedTo newest b
seam_breaks_iff newest none = ((λ h. tt), λ h. refl)
seam_breaks_iff newest (some b) = check_seam_iff newest b

module _ (sha256 : Text → Text) where
  -- The stored hash is the digest of the stored fields.
  abbrev pub IsIntact : ChainEntry → Type 0
  IsIntact e = compute_entry_hash sha256 e.fields ≡ e.hash

  -- A chain of rows after `p`: each is intact, has its sentinel and is linked to the one before.
  abbrev pub IsChain : Option ChainEntry → List ChainEntry → Type 0
  IsChain p [] = Unit {0}
  IsChain p (e ∷ es) = IsIntact e × HasSentinel e × MayFollowLast p e × IsChain (some e) es

  check_hash_iff : (e : ChainEntry) → (check_hash sha256 e ≡ []) ↔ IsIntact e
  unfolding check_hash
  check_hash_iff e = ground (arith, text_eq_iff (compute_entry_hash sha256 e.fields) e.hash)

  step_breaks_iff :
      (w : Walk) (e : ChainEntry)
      → ((walk_step sha256 w e).breaks ≡ [])
        ↔ ((w.breaks ≡ []) × IsIntact e × HasSentinel e × MayFollowLast w.prev e)
  unfolding walk_step
  step_breaks_iff w e =
      let rest = check_sentinel e ++ link_breaks w.prev e in
      let outer = append-nil_iff w.breaks (check_hash sha256 e ++ rest) in
      let middle = append-nil_iff (check_hash sha256 e) rest in
      let inner = append-nil_iff (check_sentinel e) (link_breaks w.prev e) in
      (
        (λ h.
            let (a, b) = outer.0 h in
            let (c, d) = middle.0 b in
            let (s, l) = inner.0 d in
            (
              a,
              (check_hash_iff e).0 c,
              (check_sentinel_iff e).0 s,
              (link_breaks_iff w.prev e).0 l,
            )),
        λ (a, c, s, l). outer.1 (
          a,
          middle.1 (
            (check_hash_iff e).1 c,
            inner.1 ((check_sentinel_iff e).1 s, (link_breaks_iff w.prev e).1 l),
          ),
        ),
      )

  pub walk_breaks_iff :
      (w : Walk) (es : List ChainEntry)
      → ((walk sha256 w es).breaks ≡ []) ↔ ((w.breaks ≡ []) × IsChain w.prev es)
  unfolding walk
  walk_breaks_iff w [] = ((λ h. (h, tt)), λ (h, _). h)
  walk_breaks_iff w (e ∷ es) = (
    (λ h.
        let (b, c) = (walk_breaks_iff (walk_step sha256 w e) es).0 h in
        let (a, i, s, l) = (step_breaks_iff w e).0 b in (a, (i, s, l, unfold walk_step in c))),
    λ (a, (i, s, l, c)).
        (walk_breaks_iff (walk_step sha256 w e) es).1
          ((step_breaks_iff w e).1 (a, i, s, l), unfold walk_step in c),
  )

  walk-prev :
      (w : Walk) (e : ChainEntry) (es : List ChainEntry)
      → (walk sha256 w (e ∷ es)).prev ≡ some (newest_of e es)
  unfolding walk
  walk-prev w e [] = refl
  walk-prev w e (x ∷ xs) = walk-prev (walk_step sha256 w e) x xs

  -- What the verifier returns on a range with an entry.
  pub verify_chain_range-breaks :
      (e : ChainEntry) (es : List ChainEntry) (boundary : Option ChainEntry)
      → (verify_chain_range sha256 (e ∷ es) boundary).breaks
        ≡ (walk sha256 (start sha256) (e ∷ es)).breaks ++ seam_breaks (newest_of e es) boundary
  unfolding verify_chain_range
  verify_chain_range-breaks e es none = rw (walk-prev (start sha256) e es) (sym (append-nil _))
  verify_chain_range-breaks e es (some b) = rw (walk-prev (start sha256) e es) refl

  -- The verifier reports no break in a range exactly when the following hold. Each entry's stored hash is
  -- the digest of its fields. Each entry of sequence number 0 has the sentinel as its prev_hash. An entry
  -- behind one of the same epoch has that one's hash as its prev_hash or has sequence number 0, and in
  -- this last case nothing ties the two. An entry behind one of another epoch has sequence number 0 and
  -- that one's hash as its epoch_prev_hash. And of the entry that follows the range, where one is given,
  -- the same is true with the newest entry, but in the same epoch its prev_hash must be the newest
  -- entry's hash also where its sequence number is 0.
  pub verify_chain_range-clean_iff :
      (e : ChainEntry) (es : List ChainEntry) (boundary : Option ChainEntry)
      → ((verify_chain_range sha256 (e ∷ es) boundary).breaks ≡ [])
        ↔ (IsChain none (e ∷ es) × IsSeamedTo (newest_of e es) boundary)
  verify_chain_range-clean_iff e es boundary =
      let whole =
        append-nil_iff (walk sha256 (start sha256) (e ∷ es)).breaks
          (seam_breaks (newest_of e es) boundary) in
      let walked = walk_breaks_iff (start sha256) (e ∷ es) in
      let seam = seam_breaks_iff (newest_of e es) boundary in
      (
        (λ h.
            let (a, b) = whole.0 (sym (verify_chain_range-breaks e es boundary) ∙ h) in
            ((walked.0 a).1, seam.0 b)),
        λ (c, s). verify_chain_range-breaks e es boundary ∙ whole.1 (walked.1 (refl, c), seam.1 s),
      )
