-- ===== src/Mcp/Peer/Given.antt =====
-- On crates/percept/src/mcp/peer.rs and the fan-out of tools.rs: what the replies of the peers give.
use percept.Prelude.{
  ℕ, ◌≤◌, ◌<◌, String, List, [], ◌∷◌, ◌++◌, Option, none, some, true, false, map, leb, ltb, ◌≡◌,
  ◌≢◌, ◌⊎◌, refl, sym, ap, ◌∙◌, arith, some_inj, append-nil, append_assoc, Bool-cases, Option-cases,
  inl, inr,
}
use percept.Prelude.Eq.{string_eq}
use percept.Prelude.Assoc.{insert}
use percept.Prelude.Result.{All2}
use percept.Core.Json.{Value, Items}
use percept.Mcp.Values.{get, items, as_array}
use percept.Mcp.Peer.Tagged.{Tagged, tag_all-Tagged}
use percept.Mcp.Peer.{
  PeerHandle, PeerStatus, Reply, is_success, of_body, of_envelope, call_tool, tag, rows_of, fan_out,
}

-- A reply gives rows where it is a success without an error and has, under `key` of its structured content,
-- the list of them.
pub data Gives (key : String) : Reply → List Value → Type 0 where
  gives :
      {status : ℕ} {envelope result content : Value} {rows : Items}
      → 200 ≤ status
      → status < 300
      → get "error" envelope ≡ none
      → get "result" envelope ≡ some result
      → get "structuredContent" result ≡ some content
      → get key content ≡ some (Value.array rows)
      → Gives key (Reply.answered status (some envelope)) (items rows)

-- The status of a peer, by its reply.
pub data StatusOf : Reply → PeerStatus → Type 0 where
  unreachable : StatusOf Reply.failed (PeerStatus.error none)
  late : StatusOf Reply.elapsed PeerStatus.timeout
  refused :
      {status : ℕ} {body : Option Value}
      → (status < 200) ⊎ (300 ≤ status)
      → StatusOf (Reply.answered status body) (PeerStatus.error none)
  no_json :
      {status : ℕ}
      → 200 ≤ status
      → status < 300
      → StatusOf (Reply.answered status none) (PeerStatus.error none)
  failing :
      {status : ℕ} {envelope e : Value}
      → 200 ≤ status
      → status < 300
      → get "error" envelope ≡ some e
      → StatusOf (Reply.answered status (some envelope)) (PeerStatus.error (some e))
  good :
      {status : ℕ} {envelope : Value}
      → 200 ≤ status
      → status < 300
      → get "error" envelope ≡ none
      → StatusOf (Reply.answered status (some envelope)) PeerStatus.ok

success-cases :
    (n : ℕ)
    → ((is_success n ≡ true) × (200 ≤ n) × (n < 300))
      ⊎ ((is_success n ≡ false) × ((n < 200) ⊎ (300 ≤ n)))
success-cases n = elim (Bool-cases (leb 200 n)) [
  | inr low ↦ inr (rw low refl, inl (ground arith))
  | inl high ↦ elim (Bool-cases (ltb n 300)) [
    | inl low ↦ inl (rw high low, ground arith, ground arith)
    | inr over ↦ inr (rw high over, inr (ground arith))
  ]
]

call_tool-StatusOf : (r : Reply) → StatusOf r (call_tool r).0
unfolding call_tool
call_tool-StatusOf Reply.failed = StatusOf.unreachable
call_tool-StatusOf Reply.elapsed = StatusOf.late
call_tool-StatusOf (Reply.answered status none) = elim (success-cases status) [
  | inl (s, l, u) ↦ rw s (StatusOf.no_json l u)
  | inr (s, o) ↦ rw s (StatusOf.refused o)
]
call_tool-StatusOf (Reply.answered status (some envelope)) = elim (success-cases status) [
  | inr (s, o) ↦ rw s (StatusOf.refused o)
  | inl (s, l, u) ↦ elim (Option-cases (get "error" envelope)) [
    | inl e ↦ rw s (rw e (StatusOf.good l u e))
    | inr (v, e) ↦ rw s (rw e (StatusOf.failing l u e))
  ]
]

-- What is known of a reply that gives rows.
record Parts (key : String) (r : Reply) : Type 0 where
  status : ℕ
  envelope : Value
  result : Value
  content : Value
  rows : Items
  replied : r ≡ Reply.answered status (some envelope)
  from200 : 200 ≤ status
  to299 : status < 300
  no_error : get "error" envelope ≡ none
  has_result : get "result" envelope ≡ some result
  has_content : get "structuredContent" result ≡ some content
  has_rows : get key content ≡ some (Value.array rows)

Gives-Parts : {key : String} {r : Reply} {vs : List Value} → Gives key r vs → Parts key r
Gives-Parts (Gives.gives l u e f g h) = record {
  status = _;
  envelope = _;
  result = _;
  content = _;
  rows = _;
  replied = refl;
  from200 = l;
  to299 = u;
  no_error = e;
  has_result = f;
  has_content = g;
  has_rows = h;
}

abbrev GivesNothing : String → Reply → Type 0
GivesNothing key r = (vs : List Value) → Gives key r vs → ⊥

-- What becomes of the rows of one reply.
abbrev GivenCase : String → String → Reply → PeerStatus × Option Value → Type 0
GivenCase key id r p =
    ((vs : List Value) × Gives key r vs × (rows_of key id p ≡ map (tag id) vs))
    ⊎ (GivesNothing key r × (rows_of key id p ≡ []))

array-cases :
    (v : Value)
    → ((rows : Items) × (v ≡ Value.array rows) × (as_array v ≡ some (items rows)))
      ⊎ (((rows : Items) → v ≢ Value.array rows) × (as_array v ≡ none))
unfolding as_array
array-cases (Value.array rows) = inl (rows, refl, refl)
array-cases Value.null = inr (λ rows e. absurd cc, refl)
array-cases (Value.bool _) = inr (λ rows e. absurd cc, refl)
array-cases (Value.number _) = inr (λ rows e. absurd cc, refl)
array-cases (Value.string _) = inr (λ rows e. absurd cc, refl)
array-cases (Value.object _) = inr (λ rows e. absurd cc, refl)

module _ (key id : String) (status : ℕ) (envelope : Value) (l : 200 ≤ status) (u : status < 300)
    (no_error : get "error" envelope ≡ none) where
  abbrev this : Reply
  this = Reply.answered status (some envelope)

  same_envelope : (p : Parts key this) → p.envelope ≡ envelope
  same_envelope p = let e = p.replied in cc

  result_of : (p : Parts key this) → get "result" envelope ≡ some p.result
  result_of p = ap (get "result") (sym (same_envelope p)) ∙ p.has_result

  content_of :
      (p : Parts key this) (result : Value)
      → get "result" envelope ≡ some result
      → get "structuredContent" result ≡ some p.content
  content_of p result e =
      ap (get "structuredContent") (some_inj (sym e ∙ result_of p)) ∙ p.has_content

  rows_of_content :
      (p : Parts key this) (result content : Value)
      → get "result" envelope ≡ some result
      → get "structuredContent" result ≡ some content
      → get key content ≡ some (Value.array p.rows)
  rows_of_content p result content e f =
      ap (get key) (some_inj (sym f ∙ content_of p result e)) ∙ p.has_rows

  content-GivenCase :
      (result content : Value)
      → get "result" envelope ≡ some result
      → get "structuredContent" result ≡ some content
      → GivenCase key id this (PeerStatus.ok, some content)
  unfolding rows_of
  content-GivenCase result content e f = elim (Option-cases (get key content)) [
    | inl n ↦ inr (
      λ vs g. let h = rows_of_content (Gives-Parts g) result content e f in absurd (cc (h, n)),
      rw n refl,
    )
    | inr (v, h) ↦ elim (array-cases v) [
      | inl (rows, a, b) ↦
          inl (items rows, Gives.gives l u no_error e f (h ∙ ap some a), rw h (rw b refl))
      | inr (no_array, b) ↦ inr (
        λ vs g.
            let p = Gives-Parts g in
            no_array p.rows (some_inj (sym h ∙ rows_of_content p result content e f)),
        rw h (rw b refl),
      )
    ]
  ]

  envelope-GivenCase : GivenCase key id this (of_envelope envelope none)
  unfolding rows_of
  envelope-GivenCase = elim (Option-cases (get "result" envelope)) [
    | inl n ↦ inr (λ vs g. let h = result_of (Gives-Parts g) in absurd (cc (h, n)), rw n refl)
    | inr (result, e) ↦ elim (Option-cases (get "structuredContent" result)) [
      | inl n ↦ inr (
        λ vs g. let h = content_of (Gives-Parts g) result e in absurd (cc (h, n)),
        rw e (rw n refl),
      )
      | inr (content, f) ↦ rw e (rw f (content-GivenCase result content e f))
    ]
  ]

reply-GivenCase : (key id : String) (r : Reply) → GivenCase key id r (call_tool r)
unfolding call_tool rows_of
reply-GivenCase key id Reply.failed =
    inr (λ vs g. let e = (Gives-Parts g).replied in absurd cc, refl)
reply-GivenCase key id Reply.elapsed =
    inr (λ vs g. let e = (Gives-Parts g).replied in absurd cc, refl)
reply-GivenCase key id (Reply.answered status body) = elim (success-cases status) [
  | inr (s, o) ↦ rw s (inr (λ vs g. outside (Gives-Parts g) o, refl))
  | inl (s, l, u) ↦ rw s (accepted body l u)
]
  where
    same_status : (p : Parts key (Reply.answered status body)) → p.status ≡ status
    same_status p = let e = p.replied in cc

    outside : Parts key (Reply.answered status body) → (status < 200) ⊎ (300 ≤ status) → ⊥
    outside p (inl o) = absurd (omega (arith, same_status p, p.from200, o))
    outside p (inr o) = absurd (omega (arith, same_status p, p.to299, o))

    accepted :
        (b : Option Value)
        → 200 ≤ status
        → status < 300
        → GivenCase key id (Reply.answered status b) (of_body b)
    accepted none l u = inr (λ vs g. let e = (Gives-Parts g).replied in absurd cc, refl)
    accepted (some envelope) l u = elim (Option-cases (get "error" envelope)) [
      | inl n ↦ rw n (envelope-GivenCase key id status envelope l u n)
      | inr (e, h) ↦ rw h (
          inr (
            λ vs g.
                let p = Gives-Parts g in
                let same : p.envelope ≡ envelope = failing_envelope p.replied in
                absurd (cc (ap (get "error") same, p.no_error, h)),
            refl,
          ))
    ]
      where
        failing_envelope :
            {n : ℕ} {v : Value}
            → Reply.answered status (some envelope) ≡ Reply.answered n (some v)
            → v ≡ envelope
        failing_envelope e = cc

-- The rows of all peers in order: those that a reply gives, each tagged with the id of its peer, and none
-- of a reply that gives none.
pub data FromPeers (key : String) (reply : PeerHandle → Reply)
    : List PeerHandle → List Value → Type 0 where
  no_peers : FromPeers key reply [] []
  given :
      {p : PeerHandle} {ps : List PeerHandle} {vs : List Value} (ws rest : List Value)
      → Gives key (reply p) vs
      → All2 (Tagged (Value.string p.id)) vs ws
      → FromPeers key reply ps rest
      → FromPeers key reply (p ∷ ps) (ws ++ rest)
  nothing :
      {p : PeerHandle} {ps : List PeerHandle} {rest : List Value}
      → ((vs : List Value) → Gives key (reply p) vs → ⊥)
      → FromPeers key reply ps rest
      → FromPeers key reply (p ∷ ps) rest

-- Each peer's status under its id, the later over the earlier of one id.
abbrev pub put_all :
    List PeerHandle → List PeerStatus → List (String × PeerStatus) → List (String × PeerStatus)
put_all [] _ m = m
put_all (_ ∷ _) [] m = m
put_all (p ∷ ps) (s ∷ ss) m = put_all ps ss (insert p.id s m)

pub record FanOut (key : String) (reply : PeerHandle → Reply) (peers : List PeerHandle)
    (added : List Value) (statuses : List PeerStatus) : Type 0 where
  pub rows : FromPeers key reply peers added
  pub each : All2 (λ p s. StatusOf (reply p) s) peers statuses

abbrev Extended :
    String
    → (PeerHandle → Reply)
    → List PeerHandle
    → List Value
    → List (String × PeerStatus)
    → Type 0
Extended key reply peers rows m =
    (added : List Value) × (ss : List PeerStatus) × (fan_out key reply peers rows m
      ≡ (rows ++ added, put_all peers ss m))
    × FanOut key reply peers added ss

pub fan_out-FanOut :
    (key : String) (reply : PeerHandle → Reply) (peers : List PeerHandle) (rows : List Value)
    (m : List (String × PeerStatus))
    → Extended key reply peers rows m
unfolding fan_out
fan_out-FanOut key reply [] rows m =
    ([], [], rw (append-nil rows) refl, record { rows = FromPeers.no_peers; each = tt })
fan_out-FanOut key reply (p ∷ ps) rows m = elim (reply-GivenCase key p.id (reply p)) [
  | inl (vs, g, e) ↦
      let ws : List Value = map (tag p.id) vs in
      let (added, ss, h, f) =
        fan_out-FanOut key reply ps (rows ++ ws) (insert p.id (call_tool (reply p)).0 m) in
      (
        ws ++ added,
        (call_tool (reply p)).0 ∷ ss,
        rw e (
            h
            ∙ ap (λ x. (x, put_all ps ss (insert p.id (call_tool (reply p)).0 m)))
                (append_assoc rows ws added)),
        record {
          rows = FromPeers.given ws added g (tag_all-Tagged p.id vs) f.rows;
          each = (call_tool-StatusOf (reply p), f.each);
        },
      )
  | inr (n, e) ↦
      let (added, ss, h, f) =
        fan_out-FanOut key reply ps (rows ++ []) (insert p.id (call_tool (reply p)).0 m) in
      (
        added,
        (call_tool (reply p)).0 ∷ ss,
        rw e (
            h
            ∙ ap (λ x. (x ++ added, put_all ps ss (insert p.id (call_tool (reply p)).0 m)))
                (append-nil rows)),
        record { rows = FromPeers.nothing n f.rows; each = (call_tool-StatusOf (reply p), f.each) },
      )
]
