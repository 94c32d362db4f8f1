-- ===== src/Audit/Journal.antt =====
-- audit/journal.py: what the journal writes verifies, whole or filtered to one manifest.
use chitragupta_protocol.Base.{
  ℕ, ◌+◌, ◌<◌, ◌≡◌, refl, sym, subst, inl, inr, Option, none, some, List, [], ◌∷◌, ◌++◌, arith,
  length, length-append, last-cases, eq_option_iff, Bool-cases, eq_option,
}
use chitragupta_protocol.Errors.{ok}
use chitragupta_protocol.Audit.{
  AuditEvent, Draft, last_event, next_sequence, events_for_manifest, compute_event_hash,
  verify_from, verify_event_chain, consistent_from, verify_event_self_consistency, chained_event,
  record_event, record_all,
}
use chitragupta_protocol.Audit.Chain.{
  last_event-append, previous_after, previous_is_last, verify_append,
}

module _ (digest : AuditEvent → ℕ) where
  append_verifies :
      (p : Option ℕ) (n : ℕ) (es : List AuditEvent) (e : AuditEvent)
      → verify_from digest p n es ≡ ok tt
      → e.sequence ≡ n + length es
      → e.previous_hash ≡ previous_after p es
      → compute_event_hash digest e ≡ e.event_hash
      → verify_from digest p n (es ++ e ∷ []) ≡ ok tt
  unfolding verify_from
  append_verifies p n [] e v s q h = ground (arith, eq_option_iff e.previous_hash p)
  append_verifies p n (x ∷ es) e v s q h =
      ground
        (arith, append_verifies (some x.event_hash) (n + 1) es e (ground arith) (omega arith) q h)

  next_counts :
      (es : List AuditEvent)
      → verify_from digest none 1 es ≡ ok tt
      → next_sequence (last_event es) ≡ 1 + length es
  next_counts es v = elim (last-cases es) [
    | inl q ↦ unfold last_event in ground (arith, q)
    | inr (xs, x, q) ↦
        let (a, b, c, d) =
          verify_append digest none 1 xs x (subst (λ l. verify_from digest none 1 l ≡ ok tt) q v) in
        ground (arith, q, last_event-append xs x, b, length-append xs (x ∷ []))
  ]

  record_verifies :
      (d : Draft) (es : List AuditEvent)
      → verify_event_chain digest es ≡ ok tt
      → verify_event_chain digest (record_event digest d es) ≡ ok tt
  unfolding verify_event_chain record_event chained_event compute_event_hash
  record_verifies d es v =
      append_verifies none 1 es (chained_event digest d (last_event es)) v (next_counts es v)
        (sym (previous_is_last es)) refl

  -- A journal that verifies as a complete chain, such as the empty one, still does after any sequence
  -- of records.
  pub journal_verifies :
      (es : List AuditEvent) (ds : List Draft)
      → verify_event_chain digest es ≡ ok tt
      → verify_event_chain digest (record_all digest es ds) ≡ ok tt
  unfolding record_all
  journal_verifies es [] v = v
  journal_verifies es (d ∷ ds) v =
      journal_verifies (record_event digest d es) ds (record_verifies d es v)

  abbrev IsBefore : Option ℕ → ℕ → Type 0
  IsBefore none n = Unit
  IsBefore (some k) n = k < n

  filtered_from :
      (p q : Option ℕ) (n id : ℕ) (es : List AuditEvent)
      → verify_from digest p n es ≡ ok tt
      → IsBefore q n
      → consistent_from digest q (events_for_manifest id es) ≡ ok tt
  unfolding verify_from consistent_from events_for_manifest
  filtered_from p q n id [] v b = refl
  filtered_from p q n id (e ∷ es) v b =
      let rest : verify_from digest (some e.event_hash) (n + 1) es ≡ ok tt = ground arith in
      elim (Bool-cases (eq_option e.manifest_id (some id))) [
        | inl m ↦
            let later : consistent_from digest (some e.sequence) (events_for_manifest id es)
                ≡ ok tt =
              filtered_from (some e.event_hash) (some e.sequence) (n + 1) id es rest
                (ground arith) in
            ground (arith, m, later)
        | inr m ↦
            let later : consistent_from digest q (events_for_manifest id es) ≡ ok tt =
              filtered_from (some e.event_hash) q (n + 1) id es rest (ground arith) in
            ground (arith, m, later)
      ]

  -- If a journal verifies as a complete chain, then its events for any one manifest pass the check of
  -- self-consistency.
  pub filtered_is_consistent :
      (id : ℕ) (es : List AuditEvent)
      → verify_event_chain digest es ≡ ok tt
      → verify_event_self_consistency digest (events_for_manifest id es) ≡ ok tt
  unfolding verify_event_chain verify_event_self_consistency
  filtered_is_consistent id es v = filtered_from none none 1 id es v tt
