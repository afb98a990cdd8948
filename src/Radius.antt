-- ===== src/Radius.antt =====
-- How far from a location its bundles are cached,
-- hashiverse-rust/hashiverse-lib/src/client/caching/cache_radius_tracker.rs.
mod Laws
use hashiverse.Prelude.{ℕ, if◌then◌else◌, Option, none, some, List, []}
use hashiverse.Prelude.Int.{ℤ, ltb_ℤ}
use hashiverse.Assoc.{Map, get, insert}
use hashiverse.Time.{sub_time}

pub record CacheRadiusTracker : Type 0 where
  pub radii : Map (ℕ × ℤ)
  pub ttl : ℤ

unfoldable pub new_tracker : ℤ → CacheRadiusTracker
new_tracker ttl = record { radii = []; ttl = ttl }

unfoldable pub radius_of : ℤ → ℤ → Option (ℕ × ℤ) → Option ℕ
radius_of ttl now none = none
radius_of ttl now (some r) = if ltb_ℤ (sub_time now r.1) ttl then some r.0 else none

unfoldable pub get_radius : CacheRadiusTracker → List ℕ → ℤ → Option ℕ
get_radius tracker location_id now = radius_of tracker.ttl now (get tracker.radii location_id)

unfoldable pub update : CacheRadiusTracker → List ℕ → ℕ → ℤ → CacheRadiusTracker
update tracker location_id radius now = record tracker {
  radii = insert tracker.radii location_id (radius, now);
}
