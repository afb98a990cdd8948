-- ===== src/Radius/Laws.antt =====
-- What a tracker answers after an update.
use hashiverse.Prelude.{
  ℕ, ◌≡◌, refl, Bool-cases, inl, inr, if◌then◌else◌, bytes_eq, none, some, List,
}
use hashiverse.Prelude.Int.{ℤ, ltb_ℤ}
use hashiverse.Assoc.Laws.{get-insert}
use hashiverse.Time.{sub_time}
use hashiverse.Radius.{CacheRadiusTracker, get_radius, update, radius_of}

-- After an update the location has the new radius until the time to live is over, whatever it had
-- before, and every other location has what it had.
pub get_radius-update :
    (tracker : CacheRadiusTracker) (location_id : List ℕ) (radius : ℕ) (now : ℤ) (other : List ℕ)
    (later : ℤ)
    → get_radius (update tracker location_id radius now) other later ≡ (
        if bytes_eq location_id other
        then (if ltb_ℤ (sub_time later now) tracker.ttl then some radius else none)
        else get_radius tracker other later)
unfolding get_radius update radius_of
get_radius-update tracker location_id radius now other later =
    elim (Bool-cases (bytes_eq location_id other)) [
      | inl e ↦ rw (get-insert tracker.radii location_id (radius, now) other, e) refl
      | inr e ↦ rw (get-insert tracker.radii location_id (radius, now) other, e) refl
    ]
