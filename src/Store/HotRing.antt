-- ===== src/Store/HotRing.antt =====
-- crates/store/src/hot_ring.rs: a bounded ring of recent events for each source and kind. The two
-- locks make a push atomic for its ring, so a history of pushes is a sequence of calls of `push`; the
-- clock that a push reads is its argument `now`. A ring is a list, its front (the oldest) first.
pub mod Eviction
pub mod Pushes
use percept.Prelude.{
  ℕ, suc, ◌+◌, String, List, [], ◌∷◌, ◌++◌, map, Option, none, some, if◌then◌else◌, ltb, length,
  last?, unwrap_or,
}
use percept.Prelude.Int.{ℤ, ltz, saturating_sub, duration_to_ms}
use percept.Prelude.Eq.{pair_eq}
use percept.Prelude.Assoc.{lookup, insert}
use percept.Core.Event.{Event}

pub record HotRingConfig : Type 0 where
  pub max_events : ℕ
  pub max_age : ℕ  -- a `Duration`, in milliseconds

abbrev pub default_config : HotRingConfig
default_config = record { max_events = 256; max_age = 60_000 }

abbrev pub RingKey : Type 0
RingKey = String × String

abbrev pub Ring : Type 0
Ring = List Event

pub record HotRings : Type 0 where
  pub config : HotRingConfig
  pub rings : List (RingKey × Ring)

unfoldable pub new : HotRingConfig → HotRings
new config = record { config = config; rings = [] }

abbrev pub key_of : Event → RingKey
key_of e = (e.source_id, e.kind)

-- `front.ingest_ts_ms_utc.unwrap_or(front.ts_ms_utc)`.
abbrev pub age_ref : Event → ℤ
age_ref e = unwrap_or e.ingest_ts_ms_utc e.ts_ms_utc

-- The first `while` loop of `push`, with the counter `evicted`.
unfoldable pub evict_excess : ℕ → Ring → ℕ → Ring × ℕ
evict_excess max_events [] evicted = ([], evicted)
evict_excess max_events (e ∷ r) evicted =
    let rest = evict_excess max_events r (evicted + 1) in
    if ltb max_events (length (e ∷ r)) then rest else (e ∷ r, evicted)

-- The second loop: up to the first event that is young enough.
unfoldable pub evict_old : ℤ → Ring → ℕ → Ring × ℕ
evict_old cutoff [] evicted = ([], evicted)
evict_old cutoff (e ∷ r) evicted =
    let rest = evict_old cutoff r (evicted + 1) in
    if ltz (age_ref e) cutoff then rest else (e ∷ r, evicted)

abbrev pub cutoff_of : HotRingConfig → ℤ → ℤ
cutoff_of config now = saturating_sub now (duration_to_ms config.max_age)

-- What `push` does under the lock of the ring.
unfoldable pub push_ring : HotRingConfig → ℤ → Ring → Event → Ring × ℕ
push_ring config now r e =
    let (r', evicted) = evict_excess config.max_events (r ++ e ∷ []) 0 in
    evict_old (cutoff_of config now) r' evicted

-- The ring of a key; a missing one is created empty.
unfoldable pub ring_of : HotRings → RingKey → Ring
ring_of h key = unwrap_or (lookup key h.rings) []

unfoldable pub push : HotRings → ℤ → Event → HotRings × ℕ
push h now e =
    let (r, evicted) = push_ring h.config now (ring_of h (key_of e)) e in
    (record h { rings = insert (key_of e) r h.rings }, evicted)

abbrev latest_in : Option Ring → Option Event
latest_in none = none
latest_in (some r) = last? r

unfoldable pub latest : HotRings → String → String → Option Event
latest h source_id kind = latest_in (lookup (source_id, kind) h.rings)

unfoldable pub snapshot : HotRings → String → String → List Event
unfolding ring_of
snapshot h source_id kind = ring_of h (source_id, kind)

unfoldable pub keys : HotRings → List RingKey
keys h = map (λ entry. entry.0) h.rings
