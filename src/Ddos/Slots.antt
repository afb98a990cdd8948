-- ===== src/Ddos/Slots.antt =====
-- That the slots of an address are the guards that are alive, and never more than allowed.
use hashiverse.Prelude.{
  ℕ, suc, ◌-◌, ◌≤◌, ◌<◌, ◌≡◌, refl, ap, ◌∙◌, subst, arith, leb, ◌==◌, if◌then◌else◌, Bool-cases,
  inl, inr, bytes_eq, bytes_eq_iff, Option, none, some, List, [], ◌∷◌, ◌++◌,
}
use hashiverse.Prelude.Int.{ℤ}
use hashiverse.Assoc.{Map, get, insert, or_default}
use hashiverse.Assoc.Laws.{get-insert, get-remove}
use hashiverse.Ddos.{
  Float, MemDdosProtection, increment_score, allow_request, report_bad_request, acquire_slot,
  try_acquire_connection, is_score_banned, release_slot, release_connection, guard_of, try_new,
  forget_score,
}

-- How many of the guards that are alive are for an address.
pub alive : List ℕ → List (List ℕ) → ℕ
alive ip [] = 0
alive ip (g ∷ gs) = let rest = alive ip gs in if bytes_eq g ip then suc rest else rest

alive-drop :
    (ip g : List ℕ) (before after : List (List ℕ))
    → alive ip (before ++ (g ∷ after))
      ≡ (if bytes_eq g ip then suc (alive ip (before ++ after)) else alive ip (before ++ after))
unfolding alive
alive-drop ip g [] after = refl
alive-drop ip g (x ∷ before) after = ground (arith, alive-drop ip g before after)

module _ (N : Float) where
  -- The protection and the guards that it gave out and that are not dropped yet.
  abbrev pub System : Type 0
  System = MemDdosProtection N × List (List ℕ)

  pub data Step : System → System → Type 0 where
    opened :
        {s s' : MemDdosProtection N} {gs : List (List ℕ)} (ip : List ℕ) (now : ℤ)
        → try_new N s ip now ≡ (s', some ip)
        → Step (s, gs) (s', ip ∷ gs)
    refused :
        {s s' : MemDdosProtection N} {gs : List (List ℕ)} (ip : List ℕ) (now : ℤ)
        → try_new N s ip now ≡ (s', none)
        → Step (s, gs) (s', gs)
    dropped :
        {s : MemDdosProtection N} (before after : List (List ℕ)) (ip : List ℕ)
        → Step (s, before ++ (ip ∷ after)) (release_connection N s ip, before ++ after)
    requested :
        {s : MemDdosProtection N} {gs : List (List ℕ)} (ip : List ℕ) (now : ℤ)
        → Step (s, gs) ((allow_request N s ip now).0, gs)
    reported :
        {s : MemDdosProtection N} {gs : List (List ℕ)} (ip : List ℕ) (now : ℤ)
        → Step (s, gs) (report_bad_request N s ip now, gs)
    forgotten :
        {s : MemDdosProtection N} {gs : List (List ℕ)} (ip : List ℕ)
        → Step (s, gs) (forget_score N s ip, gs)

  pub data Steps : System → System → Type 0 where
    done : {x : System} → Steps x x
    then_step : {x y z : System} → Steps x y → Step y z → Steps x z

  pub record IsCounted (x : System) : Type 0 where
    pub counted : (ip : List ℕ) → or_default (get x.0.connections ip) 0 ≡ alive ip x.1
    pub capped : (ip : List ℕ) → alive ip x.1 ≤ x.0.max_connections_per_ip

  -- A count that is written back changes nothing.
  kept :
      (m : Map ℕ) (ip other : List ℕ)
      → or_default (get (insert m ip (or_default (get m ip) 0)) other) 0
        ≡ or_default (get m other) 0
  unfolding or_default
  kept m ip other =
      rw (get-insert m ip (or_default (get m ip) 0) other) (elim (Bool-cases (bytes_eq ip other)) [
        | inl h ↦ rw (h, ← (bytes_eq_iff ip other).0 h) refl
        | inr h ↦ rw h refl
      ])

  added :
      (m : Map ℕ) (ip other : List ℕ)
      → or_default (get (insert m ip (suc (or_default (get m ip) 0))) other) 0 ≡ (
          if bytes_eq ip other
          then suc (or_default (get m other) 0)
          else or_default (get m other) 0)
  unfolding or_default
  added m ip other =
      rw (get-insert m ip (suc (or_default (get m ip) 0)) other)
        (elim (Bool-cases (bytes_eq ip other)) [
          | inl h ↦ rw (h, ← (bytes_eq_iff ip other).0 h) refl
          | inr h ↦ rw h refl
        ])

  release_slot-get :
      (s : MemDdosProtection N) (ip other : List ℕ) (found : Option ℕ)
      → get s.connections ip ≡ found
      → or_default (get (release_slot N s ip found).connections other) 0 ≡ (
          if bytes_eq ip other
          then or_default (get s.connections other) 0 - 1
          else or_default (get s.connections other) 0)
  unfolding release_slot or_default
  release_slot-get s ip other none e = elim (Bool-cases (bytes_eq ip other)) [
    | inl h ↦ rw (h, ← (bytes_eq_iff ip other).0 h, e) refl
    | inr h ↦ rw h refl
  ]
  release_slot-get s ip other (some count) e = elim (Bool-cases (count - 1 == 0)) [
    | inl last ↦
        rw
          (
            last,
            get-remove (insert s.connections ip (count - 1)) ip other,
            get-insert s.connections ip (count - 1) other,
          )
          (elim (Bool-cases (bytes_eq ip other)) [
            | inl h ↦ rw (h, ← (bytes_eq_iff ip other).0 h, e) (ground (arith, last))
            | inr h ↦ rw h refl
          ])
    | inr more ↦
        rw (more, get-insert s.connections ip (count - 1) other)
          (elim (Bool-cases (bytes_eq ip other)) [
            | inl h ↦ rw (h, ← (bytes_eq_iff ip other).0 h, e) refl
            | inr h ↦ rw h refl
          ])
  ]

  release_slot-max :
      (s : MemDdosProtection N) (ip : List ℕ) (found : Option ℕ)
      → (release_slot N s ip found).max_connections_per_ip ≡ s.max_connections_per_ip
  unfolding release_slot
  release_slot-max s ip none = refl
  release_slot-max s ip (some count) = elim (Bool-cases (count - 1 == 0)) [
    | inl last ↦ rw last refl
    | inr more ↦ rw more refl
  ]

  -- What `try_new` does to the counts.
  record Opening (s s' : MemDdosProtection N) (guard : Option (List ℕ)) (ip : List ℕ) : Type 0 where
    max_same : s'.max_connections_per_ip ≡ s.max_connections_per_ip
    if_refused :
        guard ≡ none
        → (other : List ℕ)
        → or_default (get s'.connections other) 0 ≡ or_default (get s.connections other) 0
    if_opened :
        guard ≡ some ip
        → (or_default (get s.connections ip) 0 < s.max_connections_per_ip)
          × ((other : List ℕ)
              → or_default (get s'.connections other) 0 ≡ (
                  if bytes_eq ip other
                  then suc (or_default (get s.connections other) 0)
                  else or_default (get s.connections other) 0))

  try_new-Opening :
      (s : MemDdosProtection N) (ip : List ℕ) (now : ℤ)
      → Opening s (try_new N s ip now).0 (try_new N s ip now).1 ip
  unfolding try_new try_acquire_connection guard_of acquire_slot
  try_new-Opening s ip now = elim (Bool-cases (is_score_banned N s ip now)) [
    | inl banned ↦
        rw banned
          (record { max_same = refl; if_refused = λ _ other. refl; if_opened = λ e. absurd cc })
    | inr free ↦
        rw free
          (elim (Bool-cases (leb s.max_connections_per_ip (or_default (get s.connections ip) 0))) [
            | inl full ↦ rw full (record {
              max_same = refl;
              if_refused = λ _ other. kept s.connections ip other;
              if_opened = λ e. absurd cc;
            })
            | inr room ↦ rw room (record {
              max_same = refl;
              if_refused = λ e. absurd cc;
              if_opened = λ e. (ground (arith, room), λ other. added s.connections ip other);
            })
          ])
  ]

  Step-IsCounted : {x y : System} → Step x y → IsCounted x → IsCounted y
  unfolding allow_request report_bad_request increment_score forget_score release_connection alive
  Step-IsCounted (Step.opened {s} {s'} {gs} ip now e) h =
      let step =
        subst (λ (r : MemDdosProtection N × Option (List ℕ)). Opening s r.0 r.1 ip) e
          (try_new-Opening s ip now) in
      let (room, counts) = step.if_opened refl in
      record {
        counted = λ other. counts other ∙ ground (arith, h.counted other);
        capped = λ other. elim (Bool-cases (bytes_eq ip other)) [
          | inl same ↦ rw same (
              omega (
                arith,
                step.max_same,
                room,
                h.counted ip,
                ap (λ a. alive a gs) ((bytes_eq_iff ip other).0 same),
              ))
          | inr apart ↦ rw apart (omega (arith, step.max_same, h.capped other))
        ];
      }
  Step-IsCounted (Step.refused {s} {s'} {gs} ip now e) h =
      let step =
        subst (λ (r : MemDdosProtection N × Option (List ℕ)). Opening s r.0 r.1 ip) e
          (try_new-Opening s ip now) in
      record {
        counted = λ other. step.if_refused refl other ∙ h.counted other;
        capped = λ other. omega (arith, step.max_same, h.capped other);
      }
  Step-IsCounted (Step.dropped {s} before after ip) h = record {
    counted = λ other.
        release_slot-get s ip other (get s.connections ip) refl
        ∙ ground (arith, h.counted other, alive-drop other ip before after);
    capped = λ other. ground (
      arith,
      release_slot-max s ip (get s.connections ip),
      h.capped other,
      alive-drop other ip before after,
    );
  }
  Step-IsCounted (Step.requested ip now) h = record { counted = h.counted; capped = h.capped }
  Step-IsCounted (Step.reported ip now) h = record { counted = h.counted; capped = h.capped }
  Step-IsCounted (Step.forgotten ip) h = record { counted = h.counted; capped = h.capped }

  -- From a protection with no connections and no guards, whatever addresses connect, are refused,
  -- drop their guards, ask, misbehave or are forgotten, in whatever order: the count of every
  -- address is the number of its guards that are alive, and at most the number allowed.
  pub Steps-IsCounted :
      (s : MemDdosProtection N) → s.connections ≡ [] → {x : System} → Steps (s, []) x → IsCounted x
  unfolding alive
  Steps-IsCounted s e (Steps.done) = record {
    counted = λ ip. rw e (unfold or_default get in refl);
    capped = λ ip. omega arith;
  }
  Steps-IsCounted s e (Steps.then_step p q) = Step-IsCounted q (Steps-IsCounted s e p)
