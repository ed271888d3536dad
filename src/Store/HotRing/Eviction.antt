-- ===== src/Store/HotRing/Eviction.antt =====
-- What a push evicts: the least number of oldest events after which both bounds of the ring hold.
use native.Mathlib.Decide.{dec_lt}
use percept.Prelude.{
  ℕ, zero, suc, ◌+◌, ◌-◌, ◌≤◌, ◌<◌, [], ◌∷◌, ◌++◌, ltb, length, drop, drop-drop, ◌≡◌, refl, ap, ◌∙◌,
  arith, Bool-cases, inl, inr, length-drop,
}
use percept.Prelude.Int.{ℤ, ltz, ◌≤ℤ◌}
use percept.Core.Event.{Event}
use percept.Store.HotRing.{
  HotRingConfig, Ring, age_ref, evict_excess, evict_old, cutoff_of, push_ring,
}

-- The front is not older than the cutoff.
abbrev pub FrontFresh : ℤ → Ring → Type 0
FrontFresh cutoff [] = Unit
FrontFresh cutoff (e ∷ _) = cutoff ≤ℤ age_ref e

-- Both bounds that a push restores.
abbrev pub Fits : HotRingConfig → ℤ → Ring → Type 0
Fits config now r = (length r ≤ config.max_events) × FrontFresh (cutoff_of config now) r

-- `kept` is what is left of `all` when the least number `k` of oldest events is dropped.
pub record IsEviction (config : HotRingConfig) (now : ℤ) (all kept : Ring) (k : ℕ) : Type 0 where
  pub suffix : kept ≡ drop k all
  pub few : k ≤ length all
  pub fits : Fits config now kept
  pub least : (j : ℕ) → j < k → ¬ Fits config now (drop j all)

-- The outcome of each loop: `k` events dropped from the front, and `test` failed before that.
record Dropped (ok : Ring → Type 0) (r : Ring) (n : ℕ) (out : Ring × ℕ) : Type 0 where
  k : ℕ
  rest : out.0 ≡ drop k r
  total : out.1 ≡ n + k
  few : k ≤ length r
  done : ok (drop k r)
  before : (j : ℕ) → j < k → ¬ ok (drop j r)

abbrev Short : ℕ → Ring → Type 0
Short m r = length r ≤ m

Dropped-none : (ok : Ring → Type 0) (r : Ring) (n : ℕ) → ok r → Dropped ok r n (r, n)
Dropped-none ok r n h = record {
  k = 0;
  rest = refl;
  total = omega arith;
  few = omega arith;
  done = h;
  before = λ j lt. absurd (omega arith);
}

Dropped-suc :
    (ok : Ring → Type 0) (e : Event) (r : Ring) (n : ℕ) (out : Ring × ℕ)
    → ¬ ok (e ∷ r)
    → Dropped ok r (n + 1) out
    → Dropped ok (e ∷ r) n out
Dropped-suc ok e r n out no_fit d = record {
  k = suc d.k;
  rest = d.rest;
  total = omega (arith, d.total);
  few = omega (arith, d.few);
  done = d.done;
  before = earlier;
}
  where
    earlier : (j : ℕ) → j < suc d.k → ¬ ok (drop j (e ∷ r))
    earlier zero lt = no_fit
    earlier (suc j) lt = d.before j (omega arith)

evict_excess-Dropped : (m : ℕ) (r : Ring) (n : ℕ) → Dropped (Short m) r n (evict_excess m r n)
unfolding evict_excess
evict_excess-Dropped m [] n = Dropped-none (Short m) [] n (omega arith)
evict_excess-Dropped m (e ∷ r) n = elim (Bool-cases (ltb m (length (e ∷ r)))) [
  | inl h ↦ rw h (Dropped-suc (Short m) e r n _ (ground arith) (evict_excess-Dropped m r (n + 1)))
  | inr h ↦ rw h (Dropped-none (Short m) (e ∷ r) n (ground arith))
]

evict_old-Dropped : (c : ℤ) (r : Ring) (n : ℕ) → Dropped (FrontFresh c) r n (evict_old c r n)
unfolding evict_old
evict_old-Dropped c [] n = Dropped-none (FrontFresh c) [] n tt
evict_old-Dropped c (e ∷ r) n = elim (Bool-cases (ltz (age_ref e) c)) [
  | inl h ↦ rw h (Dropped-suc (FrontFresh c) e r n _ (ground arith) (evict_old-Dropped c r (n + 1)))
  | inr h ↦ rw h (Dropped-none (FrontFresh c) (e ∷ r) n (ground arith))
]

-- The two loops, one after the other.
IsEviction-join :
    (config : HotRingConfig) (now : ℤ) (all : Ring) (mid : Ring × ℕ) (out : Ring × ℕ)
    → Dropped (Short config.max_events) all 0 mid
    → Dropped (FrontFresh (cutoff_of config now)) mid.0 mid.1 out
    → IsEviction config now all out.0 out.1
IsEviction-join config now all mid out a b = record {
  suffix = b.rest ∙ joined;
  few = omega (arith, b.few, ap length a.rest, length-drop a.k all);
  fits = (
    omega (arith, ap length b.rest, length-drop b.k mid.0, ap length a.rest, a.done),
    rw b.rest b.done,
  );
  least = λ j lt. elim (dec_lt j a.k) [
    | yes p ↦ λ fit. a.before j p fit.0
    | no p ↦ λ fit. b.before (j - a.k) (omega arith) (later j (omega arith) fit.1)
  ];
}
  where
    joined : drop b.k mid.0 ≡ drop out.1 all
    joined =
        let e : out.1 ≡ a.k + b.k = omega (arith, a.total, b.total) in
        rw (a.rest, e) (drop-drop a.k b.k all)

    later :
        (j : ℕ)
        → a.k ≤ j
        → FrontFresh (cutoff_of config now) (drop j all)
        → FrontFresh (cutoff_of config now) (drop (j - a.k) mid.0)
    later j le h =
        let e : a.k + (j - a.k) ≡ j = omega arith in
        rw (a.rest) (rw (drop-drop a.k (j - a.k) all) (rw e h))

-- A push keeps a suffix of the ring with the new event behind it, and drops no more events than it
-- must for both bounds: the count, and the age of the front.
pub push_ring-IsEviction :
    (config : HotRingConfig) (now : ℤ) (r : Ring) (e : Event)
    → let (kept, evicted) = push_ring config now r e in
      IsEviction config now (r ++ e ∷ []) kept evicted
unfolding push_ring
push_ring-IsEviction config now r e =
    let all = r ++ e ∷ [] in
    let mid = evict_excess config.max_events all 0 in
    IsEviction-join config now all mid _ (evict_excess-Dropped config.max_events all 0)
      (evict_old-Dropped (cutoff_of config now) mid.0 mid.1)
