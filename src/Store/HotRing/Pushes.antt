-- ===== src/Store/HotRing/Pushes.antt =====
-- A push seen through `snapshot` and `latest`, and histories of pushes.
use native.Mathlib.Decide.{dec_le}
use percept.Prelude.{
  ℕ, zero, suc, ◌≤◌, ◌<◌, String, List, [], ◌∷◌, ◌++◌, if◌then◌else◌, length, drop, ◌≡◌, refl,
  arith, Bool-cases, inl, inr, All, last?, some, Option-cases, drop-append, drop-length,
  last?-append, SuffixOf, SuffixOf-append, SuffixOf-trans, append_assoc, append-nil,
}
use percept.Prelude.Int.{ℤ, ◌≤ℤ◌}
use percept.Prelude.Eq.{pair_eq, ◌=?◌, =?_refl}
use percept.Prelude.Assoc.{lookup, lookup-insert}
use percept.Core.Event.{Event}
use percept.Store.HotRing.{
  HotRingConfig, HotRings, RingKey, Ring, new, key_of, age_ref, cutoff_of, push_ring, ring_of, push,
  latest, snapshot,
}
use percept.Store.HotRing.Eviction.{FrontFresh, IsEviction, push_ring-IsEviction}

-- A push changes the ring of its own key, as `push_ring` does, and no other.
pub ring_of-push :
    (h : HotRings) (now : ℤ) (e : Event) (key : RingKey)
    → ring_of (push h now e).0 key ≡ (
        if key_of e =? key
        then (push_ring h.config now (ring_of h (key_of e)) e).0
        else ring_of h key)
unfolding ring_of push
ring_of-push h now e key = elim (Bool-cases (key_of e =? key)) [
  | inl own ↦ rw own (rw (lookup-insert (key_of e) key _ h.rings) (rw own))
  | inr other ↦ rw other (rw (lookup-insert (key_of e) key _ h.rings) (rw other))
]

latest-ring_of :
    (h : HotRings) (source_id kind : String)
    → latest h source_id kind ≡ last? (ring_of h (source_id, kind))
unfolding latest ring_of
latest-ring_of h source_id kind = elim (Option-cases (lookup (source_id, kind) h.rings)) [
  | inl e ↦ rw e
  | inr (r, e) ↦ rw e
]

-- Of `r ++ e ∷ []` the last is kept where something is.
last?-kept :
    (r kept : Ring) (e : Event) (k : ℕ)
    → kept ≡ drop k (r ++ e ∷ [])
    → k ≤ length r
    → last? kept ≡ some e
last?-kept r kept e k eq le = rw (eq, drop-append k r (e ∷ []) le) (last?-append (drop k r) e)

last?-push_ring :
    (config : HotRingConfig) (now : ℤ) (r : Ring) (e : Event)
    → 0 < config.max_events
    → cutoff_of config now ≤ℤ age_ref e
    → last? (push_ring config now r e).0 ≡ some e
last?-push_ring config now r e room fresh = elim (dec_le (push_ring config now r e).1 (length r)) [
  | yes le ↦ last?-kept r _ e _ evicted.suffix le
  | no gt ↦
      absurd
        (evicted.least (length r) (omega arith) (rw (drop-length r (e ∷ [])) (omega arith, fresh)))
]
  where
    evicted :
        IsEviction config now
          (r ++ e ∷ [])
          (push_ring config now r e).0
          (push_ring config now r e).1
    evicted = push_ring-IsEviction config now r e

-- A push of a young enough event makes it the latest of its key.
pub latest-push :
    (h : HotRings) (now : ℤ) (e : Event)
    → 0 < h.config.max_events
    → cutoff_of h.config now ≤ℤ age_ref e
    → latest (push h now e).0 e.source_id e.kind ≡ some e
latest-push h now e room fresh = rw (latest-ring_of (push h now e).0 e.source_id e.kind) (
    rw (ring_of-push h now e (key_of e))
      (rw (=?_refl (key_of e)) (last?-push_ring h.config now (ring_of h (key_of e)) e room fresh)))

-- Ages in the order of arrival.
abbrev pub IsOrdered : Ring → Type 0
IsOrdered [] = Unit
IsOrdered (x ∷ r) = All (λ y. age_ref x ≤ℤ age_ref y) r × IsOrdered r

IsOrdered-drop : (n : ℕ) (r : Ring) → IsOrdered r → IsOrdered (drop n r)
IsOrdered-drop zero r h = h
IsOrdered-drop (suc n) [] h = h
IsOrdered-drop (suc n) (_ ∷ r) (_, h) = IsOrdered-drop n r h

All-weaken :
    (a b : ℤ) (r : Ring) → a ≤ℤ b → All (λ y. b ≤ℤ age_ref y) r → All (λ y. a ≤ℤ age_ref y) r
All-weaken a b [] le h = tt
All-weaken a b (y ∷ r) le (p, h) = (omega arith, All-weaken a b r le h)

All-fresh : (c : ℤ) (r : Ring) → IsOrdered r → FrontFresh c r → All (λ y. c ≤ℤ age_ref y) r
All-fresh c [] h f = tt
All-fresh c (x ∷ r) (p, h) f = (f, All-weaken c (age_ref x) r f p)

-- Where events arrive in the order of their ages, no event in the ring is older than the cutoff.
pub push_ring-fresh :
    (config : HotRingConfig) (now : ℤ) (r : Ring) (e : Event)
    → IsOrdered (r ++ e ∷ [])
    → All (λ y. cutoff_of config now ≤ℤ age_ref y) (push_ring config now r e).0
push_ring-fresh config now r e h =
    let evicted = push_ring-IsEviction config now r e in
    let k = (push_ring config now r e).1 in
    All-fresh (cutoff_of config now) _ (rw evicted.suffix (IsOrdered-drop k (r ++ e ∷ []) h))
      evicted.fits.1

-- A history: pushes, each with the time that its clock read.
unfoldable pub run : HotRings → List (ℤ × Event) → HotRings
run h [] = h
run h ((now, e) ∷ es) = run (push h now e).0 es

-- What a history hands to one key.
abbrev pub received : RingKey → List (ℤ × Event) → List Event
received key [] = []
received key ((_, e) ∷ es) =
    let rest = received key es in if key_of e =? key then e ∷ rest else rest

module _ (key : RingKey) where
  -- The part of `all` that a key has after one push, and how much.
  push-SuffixOf :
      (h : HotRings) (now : ℤ) (e : Event) (all : Ring)
      → SuffixOf (ring_of h key) all
      → SuffixOf (ring_of (push h now e).0 key) (all ++ received key ((now, e) ∷ []))
  push-SuffixOf h now e all s = elim (Bool-cases (key_of e =? key)) [
    | inl own ↦
        let same : key_of e ≡ key = (pair_eq.beq_iff (key_of e) key).0 own in
        rw (ring_of-push h now e key) (
          rw own (
            SuffixOf-trans _ (ring_of h (key_of e) ++ e ∷ []) (all ++ e ∷ [])
              (kept_suffix (ring_of h (key_of e)))
              (rw same (SuffixOf-append (ring_of h key) all (e ∷ []) s))))
    | inr other ↦ rw (ring_of-push h now e key) (rw other (rw (append-nil all) s))
  ]
    where
      kept_suffix : (r : Ring) → SuffixOf (push_ring h.config now r e).0 (r ++ e ∷ [])
      kept_suffix r =
          let evicted = push_ring-IsEviction h.config now r e in
          ((push_ring h.config now r e).1, evicted.few, evicted.suffix)

  push-length :
      (h : HotRings) (now : ℤ) (e : Event)
      → length (ring_of h key) ≤ h.config.max_events
      → length (ring_of (push h now e).0 key) ≤ h.config.max_events
  push-length h now e le = elim (Bool-cases (key_of e =? key)) [
    | inl own ↦
        rw (ring_of-push h now e key)
          (rw own (push_ring-IsEviction h.config now (ring_of h (key_of e)) e).fits.0)
    | inr other ↦ rw (ring_of-push h now e key) (rw other le)
  ]

  run-SuffixOf :
      (h : HotRings) (es : List (ℤ × Event)) (all : Ring)
      → SuffixOf (ring_of h key) all
      → SuffixOf (ring_of (run h es) key) (all ++ received key es)
  unfolding run
  run-SuffixOf h [] all s = rw (append-nil all) s
  run-SuffixOf h ((now, e) ∷ es) all s =
      let step = push-SuffixOf h now e all s in
      rw (← regroup) (run-SuffixOf (push h now e).0 es _ step)
    where
      regroup :
          (all ++ received key ((now, e) ∷ [])) ++ received key es
          ≡ all ++ received key ((now, e) ∷ es)
      regroup = ground (arith, append_assoc all (e ∷ []) (received key es), append-nil all)

  run-length :
      (h : HotRings) (es : List (ℤ × Event))
      → length (ring_of h key) ≤ h.config.max_events
      → length (ring_of (run h es) key) ≤ h.config.max_events
  unfolding run push
  run-length h [] le = le
  run-length h ((now, e) ∷ es) le = run-length (push h now e).0 es (push-length h now e le)

-- After any history from an empty set of rings, the snapshot of a key is a last part, in order, of the
-- events pushed for that key, whatever was pushed for others, and holds at most `max_events` events.
pub snapshot-run :
    (config : HotRingConfig) (es : List (ℤ × Event)) (source_id kind : String)
    → SuffixOf (snapshot (run (new config) es) source_id kind) (received (source_id, kind) es)
      × (length (snapshot (run (new config) es) source_id kind) ≤ config.max_events)
unfolding snapshot new ring_of lookup
snapshot-run config es source_id kind = (
  run-SuffixOf (source_id, kind) (new config) es [] (0, omega arith, refl),
  run-length (source_id, kind) (new config) es (omega arith),
)
