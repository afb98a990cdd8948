-- ===== src/Cache/Tokens.antt =====
-- When a get asks a client to upload: not if it looks at the cache while the mark of the location is
-- there. Two gets that both look before either of them sets the mark can both ask.
use hashiverse.Prelude.{
  ℕ, ◌≡◌, ◌≢◌, refl, arith, true, false, Bool, Bool-cases, inl, inr, bytes_eq, bytes_eq_refl,
  Option, none, some, List,
}
use hashiverse.Prelude.Int.{ℤ}
use hashiverse.Assoc.{Map, get, insert, or_default}
use hashiverse.Assoc.Laws.{get-remove, get-insert}
use hashiverse.Crypto.{Crypto}
use hashiverse.Buckets.{BucketLocation}
use hashiverse.Cache.{
  LocationEntry, PostBundleCache, CachedBundle, CacheRequestToken, HashOrder, Signer, placeholder,
  counted, should_issue_token, Looked, look, answer, on_upload, upload_to, contains_key, is_some,
  forget_bundles, forget_inflight,
}

none_not_some : {A : Type 0} {a : A} → none ≢ some a
none_not_some h = cc

abbrev pub IsMarked : PostBundleCache → List ℕ → Type 0
IsMarked s location_id = contains_key s.inflight location_id ≡ true

marked-insert :
    (m : Map (Unit {0})) (id location_id : List ℕ)
    → contains_key m location_id ≡ true
    → contains_key (insert m id tt) location_id ≡ true
unfolding contains_key is_some
marked-insert m id location_id h = elim (Bool-cases (bytes_eq id location_id)) [
  | inl e ↦ rw (get-insert m id tt location_id, e) refl
  | inr e ↦ rw (get-insert m id tt location_id, e) h
]

inserted-marked :
    (m : Map (Unit {0})) (location_id : List ℕ)
    → contains_key (insert m location_id tt) location_id ≡ true
unfolding contains_key is_some
inserted-marked m location_id =
    rw (get-insert m location_id tt location_id, bytes_eq_refl location_id) refl

module _ (C : Crypto) (S : Signer) (H : HashOrder) where
  -- What a server does while the mark of a location stays: the steps of calls for any location, in any
  -- order, those of a get apart from each other, and whatever moka lets go but for that mark.
  pub data Calls (location_id : List ℕ) : PostBundleCache → PostBundleCache → Type 1 where
    done : {s : PostBundleCache} → Calls location_id s s
    looked :
        {s s' : PostBundleCache} (id : List ℕ) (already_retrieved : List (List ℕ)) (now : ℤ)
        → Calls location_id (look C S H s id already_retrieved now).0 s'
        → Calls location_id s s'
    answered :
        {s s' : PostBundleCache} (location : BucketLocation) (l : Looked) (peer_self : S.Peer)
        (key : S.SignatureKey) (now : ℤ)
        → Calls location_id (answer C S H s location l peer_self key now).0 s'
        → Calls location_id s s'
    received :
        {s s' : PostBundleCache} (id originator bytes : List ℕ) (t : ℤ) (is_sealed : Bool)
        → Calls location_id (on_upload H s id originator bytes t is_sealed).0 s'
        → Calls location_id s s'
    dropped :
        {s s' : PostBundleCache} (id : List ℕ)
        → Calls location_id (forget_bundles s id) s'
        → Calls location_id s s'
    expired :
        {s s' : PostBundleCache} (id : List ℕ)
        → bytes_eq id location_id ≡ false
        → Calls location_id (forget_inflight s id) s'
        → Calls location_id s s'

  answer-IsMarked :
      (s : PostBundleCache) (location : BucketLocation) (l : Looked) (p : S.Peer)
      (key : S.SignatureKey) (now : ℤ) (location_id : List ℕ)
      → IsMarked s location_id
      → IsMarked (answer C S H s location l p key now).0 location_id
  unfolding answer
  answer-IsMarked s location l p key now location_id h = elim (Bool-cases l.should_issue) [
    | inl e ↦ rw e (marked-insert s.inflight location.location_id location_id h)
    | inr e ↦ rw e h
  ]

  upload_to-inflight :
      (s : PostBundleCache) (entry : Option LocationEntry) (id originator : List ℕ)
      (b : CachedBundle)
      → (upload_to H s entry id originator b).0.inflight ≡ s.inflight
  unfolding upload_to
  upload_to-inflight s none id originator b = refl
  upload_to-inflight s (some entry) id originator b = refl

  forget-IsMarked :
      (s : PostBundleCache) (id location_id : List ℕ)
      → bytes_eq id location_id ≡ false
      → IsMarked s location_id
      → IsMarked (forget_inflight s id) location_id
  unfolding forget_inflight contains_key
  forget-IsMarked s id location_id n h = rw (get-remove s.inflight id location_id, n) h

  Calls-IsMarked :
      {location_id : List ℕ} {s s' : PostBundleCache}
      → Calls location_id s s'
      → IsMarked s location_id
      → IsMarked s' location_id
  unfolding look on_upload forget_bundles
  Calls-IsMarked Calls.done h = h
  Calls-IsMarked (Calls.looked id ids now c) h = Calls-IsMarked c h
  Calls-IsMarked {location_id} (Calls.answered {s} location l p key now c) h =
      Calls-IsMarked c (answer-IsMarked s location l p key now location_id h)
  Calls-IsMarked (Calls.received {s} id originator bytes t is_sealed c) h =
      Calls-IsMarked c (rw (upload_to-inflight s (get s.bundles id) id originator _) h)
  Calls-IsMarked (Calls.dropped id c) h = Calls-IsMarked c h
  Calls-IsMarked {location_id} (Calls.expired {s} id n c) h =
      Calls-IsMarked c (forget-IsMarked s id location_id n h)

  issued-IsMarked :
      (s : PostBundleCache) (location : BucketLocation) (l : Looked) (p : S.Peer)
      (key : S.SignatureKey) (now : ℤ) (token : CacheRequestToken S.Peer)
      → (answer C S H s location l p key now).1.cache_request_token ≡ some token
      → IsMarked (answer C S H s location l p key now).0 location.location_id
  unfolding answer
  issued-IsMarked s location l p key now token h = elim (Bool-cases l.should_issue) [
    | inl e ↦ rw e (inserted-marked s.inflight location.location_id)
    | inr e ↦ absurd (none_not_some (rw e at h))
  ]

  not_due :
      (s : PostBundleCache) (entry : LocationEntry) (id : List ℕ)
      → IsMarked s id
      → should_issue_token C S H s entry id ≡ false
  unfolding should_issue_token
  not_due s entry id h = ground (arith, h)

  not_issued :
      (s s' : PostBundleCache) (location : BucketLocation) (ids : List (List ℕ)) (p : S.Peer)
      (key : S.SignatureKey) (now now' : ℤ)
      → IsMarked s location.location_id
      → (answer C S H s' location
          (look C S H s location.location_id ids now).1
          p
          key
          now').1.cache_request_token
        ≡ none
  unfolding look answer
  not_issued s s' location ids p key now now' h =
      rw
        (not_due s (counted C S H (or_default (get s.bundles location.location_id) placeholder))
          location.location_id h)
        refl

  -- Once a get has issued a token for a location, and so marked it, no get for a location with that id
  -- that looks at the cache afterwards issues another one, whatever steps of other calls come in
  -- between, in any order, before it looks or before it answers, and whatever the caches let go, as
  -- long as the mark of that location stays until it looks. Of gets that have looked before the mark
  -- was set nothing is said.
  pub no_second_token :
      (s s' s'' : PostBundleCache) (location location' : BucketLocation) (l : Looked)
      (ids' : List (List ℕ)) (p p' : S.Peer) (key key' : S.SignatureKey) (now now' now'' : ℤ)
      (token : CacheRequestToken S.Peer)
      → (answer C S H s location l p key now).1.cache_request_token ≡ some token
      → Calls location.location_id (answer C S H s location l p key now).0 s'
      → location'.location_id ≡ location.location_id
      → (answer C S H s'' location'
          (look C S H s' location'.location_id ids' now').1
          p'
          key'
          now'').1.cache_request_token
        ≡ none
  no_second_token s s' s'' location location' l ids' p p' key key' now now' now'' token h c e =
      not_issued s' s'' location' ids' p' key' now' now''
        (rw e (Calls-IsMarked c (issued-IsMarked s location l p key now token h)))
