-- ===== src/Handoff/Create.antt =====
-- createCommitmentSnapshot: a draft is parsed, hashed and validated.
use commitment_workbench.Prelude.{
  ℕ, suc, ◌+◌, ◌≡◌, refl, ap, subst, true, false, not, ◌&&◌, Option, none, some, List, [], ◌∷◌, map,
  arith, All, Text, text_eq_refl, ltb, length, all, if◌then◌else◌,
}
use commitment_workbench.Contracts.{
  Message, Snapshot, max_messages, is_hash, is_snapshot, is_snapshot_head, is_message,
  is_message_content, total_body,
}
use commitment_workbench.Handoff.{
  Host, ValidationResult, valid, failure, zero_hash, hash_commitment_snapshot, body_issues,
  snapshot_issues, validate_commitment_snapshot,
}

abbrev pub accepted_value : ValidationResult Snapshot → Option Snapshot
accepted_value (valid s) = some s
accepted_value (failure is) = none

abbrev pub zeroed : Message → Message
zeroed m = record m { body_hash = zero_hash }

-- The draft with ZERO_HASH for its hashes, which are not read.
unfoldable pub candidate : Snapshot → Snapshot
candidate draft = record draft { snapshot_hash = zero_hash; messages = map zeroed draft.messages }

module _ (host : Host) where
  abbrev pub hashed_message : Message → Message
  hashed_message m = record m { body_hash = host.sha256 m.body }

  unfoldable pub hashed_messages : List Message → List Message
  hashed_messages ms = map hashed_message ms

  abbrev pub with_bodies : Snapshot → Snapshot
  with_bodies s = record s { messages = hashed_messages s.messages }

  abbrev pub with_hash : Snapshot → Snapshot
  with_hash s = record s { snapshot_hash = hash_commitment_snapshot host s }

  -- `none` where an error is thrown: too many messages, a draft that its schema refuses, or a snapshot
  -- that fails its validation.
  unfoldable pub create_commitment_snapshot : Snapshot → Option Snapshot
  unfolding hashed_messages hash_commitment_snapshot validate_commitment_snapshot is_snapshot
      candidate
  create_commitment_snapshot draft =
      if ltb max_messages (length draft.messages)
      then none
      else if not (is_snapshot host.is_timestamp host.is_after (candidate draft))
      then none
      else accepted_value
          (validate_commitment_snapshot host (with_hash (with_bodies (candidate draft))))

  no_body_issues : (i : ℕ) (ms : List Message) → body_issues host i (hashed_messages ms) ≡ []
  unfolding body_issues hashed_messages
  no_body_issues i [] = refl
  no_body_issues i (m ∷ ms) = rw (text_eq_refl (host.sha256 m.body)) (no_body_issues (suc i) ms)

  hashed_bodies_named :
      (ms : List Message) → All (λ m. host.sha256 m.body ≡ m.body_hash) (hashed_messages ms)
  unfolding hashed_messages
  hashed_bodies_named [] = tt
  hashed_bodies_named (m ∷ ms) = (refl, hashed_bodies_named ms)

  length-hashed_messages : (ms : List Message) → length (hashed_messages ms) ≡ length ms
  unfolding hashed_messages
  length-hashed_messages [] = refl
  length-hashed_messages (m ∷ ms) = ap suc (length-hashed_messages ms)

  total_body-hashed : (ms : List Message) → total_body (hashed_messages ms) ≡ total_body ms
  unfolding hashed_messages total_body
  total_body-hashed [] = refl
  total_body-hashed (m ∷ ms) = ap {B = ℕ} (λ n. length m.body + n) (total_body-hashed ms)

  ids-hashed : (ms : List Message) → map (λ m. m.id) (hashed_messages ms) ≡ map (λ m. m.id) ms
  unfolding hashed_messages
  ids-hashed [] = refl
  ids-hashed (m ∷ ms) = ap (λ ids. m.id ∷ ids) (ids-hashed ms)

  times-hashed :
      (cutoff : Text) (ms : List Message)
      → all (λ m. not (host.is_after m.timestamp cutoff)) (hashed_messages ms)
        ≡ all (λ m. not (host.is_after m.timestamp cutoff)) ms
  unfolding hashed_messages
  times-hashed cutoff [] = refl
  times-hashed cutoff (m ∷ ms) =
      ap (λ b. not (host.is_after m.timestamp cutoff) && b) (times-hashed cutoff ms)

  hashed-clean :
      (s : Snapshot)
      → host.known_timezone s.timezone ≡ true
      → body_issues host 0 s.messages ≡ []
      → snapshot_issues host (with_hash s) ≡ []
  unfolding snapshot_issues hash_commitment_snapshot
  hashed-clean s zone bodies =
      rw (zone, bodies, text_eq_refl (hash_commitment_snapshot host s)) refl

  length-candidate : (ms : List Message) → length ms ≡ length (map zeroed ms)
  length-candidate [] = refl
  length-candidate (m ∷ ms) = ap suc (length-candidate ms)

  few :
      (draft : Snapshot)
      → is_snapshot host.is_timestamp host.is_after (candidate draft) ≡ true
      → ltb max_messages (length draft.messages) ≡ false
  unfolding is_snapshot candidate
  few draft h = ground (arith, h, length-candidate draft.messages)

  length-hashed :
      (draft : Snapshot)
      → length draft.messages ≡ length (hashed_messages (candidate draft).messages)
  unfolding candidate
  length-hashed draft =
      omega
        (arith, length-candidate draft.messages, length-hashed_messages (map zeroed draft.messages))

  bodies_kept :
      (ms : List Message)
      → map (λ m. m.body) (hashed_messages (map zeroed ms)) ≡ map (λ m. m.body) ms
  unfolding hashed_messages
  bodies_kept [] = refl
  bodies_kept (m ∷ ms) = ap (λ t. m.body ∷ t) (bodies_kept ms)

  module _ (hex : (t : Text) → is_hash (host.sha256 t) ≡ true) where
    messages-hashed :
        (ms : List Message)
        → all (is_message host.is_timestamp host.is_after) ms ≡ true
        → all (is_message host.is_timestamp host.is_after) (hashed_messages ms) ≡ true
    unfolding hashed_messages is_message
    messages-hashed [] h = refl
    messages-hashed (m ∷ ms) h =
        let content : is_message_content host.is_timestamp host.is_after (hashed_message m)
            ≡ is_message_content host.is_timestamp host.is_after m =
          unfold is_message_content in refl in
        rw (content, hex m.body) (ground (arith, h, messages-hashed ms))

    -- The schema of a snapshot goes on to hold when the zero hashes become digests.
    is_snapshot-hashed :
        (s : Snapshot)
        → is_snapshot host.is_timestamp host.is_after s ≡ true
        → is_snapshot host.is_timestamp host.is_after (with_hash (with_bodies s)) ≡ true
    unfolding is_snapshot hash_commitment_snapshot
    is_snapshot-hashed s h =
        let head : is_snapshot_head host.is_timestamp host.is_after (with_hash (with_bodies s))
            ≡ is_snapshot_head host.is_timestamp host.is_after s =
          unfold is_snapshot_head in refl in
        let passed : all (is_message host.is_timestamp host.is_after) s.messages ≡ true =
          ground (arith, h) in
        rw
          (
            head,
            hex _,
            length-hashed_messages s.messages,
            messages-hashed s.messages passed,
            total_body-hashed s.messages,
            ids-hashed s.messages,
            times-hashed s.cutoff s.messages,
          )
          (ground (arith, h))

    -- With a digest of 64 hexadecimal digits: a draft that passes the snapshot's schema with zero hashes
    -- in place of its own, and whose time zone is known, gives a snapshot. The snapshot has the fields of
    -- the draft, beside each body the digest of the body, and the hash of the whole, and it passes its own
    -- validation.
    pub create_commitment_snapshot_validates :
        (draft : Snapshot)
        → is_snapshot host.is_timestamp host.is_after (candidate draft) ≡ true
        → host.known_timezone draft.timezone ≡ true
        → (create_commitment_snapshot draft ≡ some (with_hash (with_bodies (candidate draft))))
          × (validate_commitment_snapshot host (with_hash (with_bodies (candidate draft)))
              ≡ valid (with_hash (with_bodies (candidate draft))))
          × All
              (λ m. host.sha256 m.body ≡ m.body_hash)
              (with_hash (with_bodies (candidate draft))).messages
          × (map (λ m. m.body) (with_hash (with_bodies (candidate draft))).messages
              ≡ map (λ m. m.body) draft.messages)
    create_commitment_snapshot_validates draft schema zone =
        let c = candidate draft in
        let s = with_hash (with_bodies c) in
        let room : ltb max_messages (length draft.messages) ≡ false = few draft schema in
        let room' : ltb max_messages (length s.messages) ≡ false =
          subst (λ n. ltb max_messages n ≡ false) (length-hashed draft) room in
        let clean : snapshot_issues host s ≡ [] =
          hashed-clean (with_bodies c) (unfold candidate in zone) (no_body_issues 0 c.messages) in
        let passes : validate_commitment_snapshot host s ≡ valid s =
          unfold validate_commitment_snapshot in
          rw (room', is_snapshot-hashed c schema, clean) refl in
        (
          unfold create_commitment_snapshot in rw (room, schema) (ap accepted_value passes),
          passes,
          hashed_bodies_named c.messages,
          unfold candidate in bodies_kept draft.messages,
        )
