-- ===== src/Audit/Chain.antt =====
-- audit/journal.py: what a verified chain of events determines.
use chitragupta_protocol.Base.{
  ℕ, zero, suc, ◌+◌, ◌≡◌, ◌≢◌, refl, sym, ap, ◌∙◌, subst, ◌⊎◌, inl, inr, Option, none, some, List,
  [], ◌∷◌, ◌++◌, arith, length, In, In-append_self, In-append, length-append, last-cases,
  eq_option_iff, ℕ_discrete,
}
use chitragupta_protocol.Errors.{ok}
use chitragupta_protocol.Audit.{
  AuditEvent, without_hash, last_event, hash_of, compute_event_hash, verify_from,
  verify_event_chain,
}

AuditEvent-discrete : Discrete AuditEvent
AuditEvent-discrete = hlevel (ℕ_discrete)

pub last_event-append : (es : List AuditEvent) (e : AuditEvent) → last_event (es ++ e ∷ []) ≡ some e
unfolding last_event
last_event-append [] e = refl
last_event-append (x ∷ es) e = rw (last_event-append es e) refl

-- The hash before the events that follow `es`.
abbrev pub previous_after : Option ℕ → List AuditEvent → Option ℕ
previous_after p [] = p
previous_after p (e ∷ es) = previous_after (some e.event_hash) es

previous_after-append :
    (p : Option ℕ) (es : List AuditEvent) (e : AuditEvent)
    → previous_after p (es ++ e ∷ []) ≡ some e.event_hash
previous_after-append p [] e = refl
previous_after-append p (x ∷ es) e = previous_after-append (some x.event_hash) es e

pub previous_is_last : (es : List AuditEvent) → previous_after none es ≡ hash_of (last_event es)
previous_is_last es = elim (last-cases es) [
  | inl q ↦ unfold last_event in rw q refl
  | inr (xs, x, q) ↦ rw q (rw (last_event-append xs x) (previous_after-append none xs x))
]

abbrev with_hash : ℕ → AuditEvent → AuditEvent
with_hash h e = record e { event_hash = h }

rehash : (e f : AuditEvent) → without_hash e ≡ without_hash f → e ≡ with_hash e.event_hash f
rehash e f p = ap (with_hash e.event_hash) p

is_empty : (es : List AuditEvent) → length es ≡ 0 → es ≡ []
is_empty [] h = refl
is_empty (e ∷ es) h = absurd (ground arith)

no_last : hash_of (last_event []) ≡ none
unfolding last_event
no_last = refl

nothing_after : (es : List AuditEvent) → hash_of (last_event es) ≡ none → es ≡ []
nothing_after es h = elim (last-cases es) [
  | inl q ↦ q
  | inr (xs, x, q) ↦ absurd (ground (arith, q, last_event-append xs x))
]

module _ (digest : AuditEvent → ℕ) where
  pub verify_append :
      (p : Option ℕ) (n : ℕ) (es : List AuditEvent) (e : AuditEvent)
      → verify_from digest p n (es ++ e ∷ []) ≡ ok tt
      → (verify_from digest p n es ≡ ok tt)
        × (e.sequence ≡ n + length es)
        × (e.previous_hash ≡ previous_after p es)
        × (compute_event_hash digest e ≡ e.event_hash)
  unfolding verify_from
  verify_append p n [] e h =
      (refl, ground arith, ground (arith, eq_option_iff e.previous_hash p), ground arith)
  verify_append p n (x ∷ es) e h =
      let (a, b, c, d) = verify_append (some x.event_hash) (n + 1) es e (ground arith) in
      (ground (arith, a), omega (arith, b), c, d)

  -- An event of each journal, that differ in more than their stored hash, with one computed hash.
  pub record Collision (a b : List AuditEvent) : Type 0 where
    pub left : AuditEvent
    pub right : AuditEvent
    pub left_in : In left a
    pub right_in : In right b
    pub differ : without_hash left ≢ without_hash right
    pub collide : compute_event_hash digest left ≡ compute_event_hash digest right

  same_event :
      (a b : List AuditEvent) (e f : AuditEvent)
      → In e a
      → In f b
      → compute_event_hash digest e ≡ e.event_hash
      → compute_event_hash digest f ≡ f.event_hash
      → e.event_hash ≡ f.event_hash
      → (e ≡ f) ⊎ Collision a b
  same_event a b e f i j h k q = elim (AuditEvent-discrete (without_hash e) (without_hash f)) [
    | yes p ↦ inl (rehash e f p ∙ ap (λ x. with_hash x f) q)
    | no n ↦ inr record {
      left = e;
      right = f;
      left_in = i;
      right_in = j;
      differ = n;
      collide = h ∙ q ∙ sym k;
    }
  ]

  -- A collision of two beginnings is one of the whole journals.
  Collision-append :
      (xs ys : List AuditEvent) (x y : AuditEvent)
      → Collision xs ys
      → Collision (xs ++ x ∷ []) (ys ++ y ∷ [])
  Collision-append xs ys x y k = record {
    left = k.left;
    right = k.right;
    left_in = In-append k.left xs (x ∷ []) k.left_in;
    right_in = In-append k.right ys (y ∷ []) k.right_in;
    differ = k.differ;
    collide = k.collide;
  }

  verified_split :
      (a xs : List AuditEvent) (x : AuditEvent)
      → a ≡ xs ++ x ∷ []
      → verify_event_chain digest a ≡ ok tt
      → (verify_event_chain digest xs ≡ ok tt)
        × (x.previous_hash ≡ hash_of (last_event xs))
        × (compute_event_hash digest x ≡ x.event_hash)
        × (last_event a ≡ some x)
  unfolding verify_event_chain
  verified_split a xs x r v =
      let (vx, sx, px, hx) =
        verify_append none 1 xs x (subst (λ l. verify_from digest none 1 l ≡ ok tt) r v) in
      (vx, px ∙ previous_is_last xs, hx, rw r (last_event-append xs x))

  determined :
      (n : ℕ) (a b : List AuditEvent)
      → length a ≡ n
      → verify_event_chain digest a ≡ ok tt
      → verify_event_chain digest b ≡ ok tt
      → hash_of (last_event a) ≡ hash_of (last_event b)
      → (a ≡ b) ⊎ Collision a b
  determined zero a b size va vb q =
      let nothing : a ≡ [] = is_empty a size in
      inl (
        nothing
        ∙ sym (nothing_after b (sym q ∙ ap (λ l. hash_of (last_event l)) nothing ∙ no_last)))
  determined (suc m) a b size va vb q = elim (last-cases b) [
    | inl y ↦
        let gone : a ≡ [] = nothing_after a (q ∙ ap (λ l. hash_of (last_event l)) y ∙ no_last) in
        absurd (ground (arith, gone))
    | inr (ys, y, t) ↦ elim (last-cases a) [
      | inl r ↦ absurd (ground (arith, r))
      | inr (xs, x, r) ↦
          let (vx, px, hx, lx) = verified_split a xs x r va in
          let (vy, py, hy, ly) = verified_split b ys y t vb in
          let shorter : length xs ≡ m = ground (arith, r, length-append xs (x ∷ [])) in
          let whole : Collision (xs ++ x ∷ []) (ys ++ y ∷ []) → Collision a b = λ k.
            subst (λ l. Collision l b) (sym r)
              (subst (λ l. Collision (xs ++ x ∷ []) l) (sym t) k) in
          elim (same_event (xs ++ x ∷ []) (ys ++ y ∷ []) x y (In-append_self x xs)
            (In-append_self y ys) hx hy (ground (arith, lx, ly, q))) [
              | inr c ↦ inr (whole c)
              | inl e ↦
                  elim (determined m xs ys shorter vx vy
                    (sym px ∙ ap (λ z. z.previous_hash) e ∙ py)) [
                      | inr c ↦ inr (whole (Collision-append xs ys x y c))
                      | inl f ↦ inl (r ∙ ap (λ l. l ++ x ∷ []) f ∙ ap (λ z. ys ++ z ∷ []) e ∙ sym t)
                    ]
            ]
    ]
  ]

  -- Two journals that verify and end in events of one hash are the same journal, or there are an event
  -- of the one and an event of the other that differ in more than their stored hash and whose computed
  -- hashes are the same.
  pub tamper_evident :
      (a b : List AuditEvent)
      → verify_event_chain digest a ≡ ok tt
      → verify_event_chain digest b ≡ ok tt
      → hash_of (last_event a) ≡ hash_of (last_event b)
      → (a ≡ b) ⊎ Collision a b
  tamper_evident a b va vb q = determined (length a) a b refl va vb q
