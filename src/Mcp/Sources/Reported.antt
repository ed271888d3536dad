-- ===== src/Mcp/Sources/Reported.antt =====
-- On `get_current_state` of crates/percept/src/mcp/tools.rs: the entries, the rows of the peers, the errors.
use percept.Prelude.{
  ◌+◌, ◌%◌, ◌^◌, List, [], ◌∷◌, ◌++◌, Option, none, some, Bool, true, false, map, ◌≡◌, ◌↔◌, ◌⊎◌,
  refl, arith, Option-cases, inl, inr,
}
use percept.Prelude.Int.{
  ℤ, pos, negsuc, pos_part, neg_part, ◌-ℤ◌, ◌≤ℤ◌, ◌<ℤ◌, as_i64, i64_min, i64_max,
}
use percept.Prelude.Result.{Result, ok, err, ◌>>=◌, All2}
use percept.Core.Json.{Value}
use percept.Core.Event.{Event}
use percept.Core.Descriptor.{ResolvedDescriptor}
use percept.Ingest.Auth.{Globs}
use percept.Store.HotRing.{HotRings, latest}
use percept.Store.Cold.Rows.{JsonCodec, Row, row_to_event}
use percept.Store.Cold.Append.{ColdStore}
use percept.Store.Cold.Append
use percept.Mcp.Window.{ToolError, glob, cold}
use percept.Mcp.Registry.{DescriptorRegistry}
use percept.Mcp.Registry.Picked.{BadGlob, Chosen, filter_rows-cases}
use percept.Mcp.Peer.{PeerHandle, PeerStatus, Reply, fan_out}
use percept.Mcp.Peer.Tagged.{Tagged, set_field-Tagged}
use percept.Mcp.Peer.Given.{FanOut, put_all, fan_out-FanOut}
use percept.Mcp.Sources.{
  FilterArgs, CurrentStateEntry, Answer, to_answer, from_store, read_row, local, mod_u64,
  wrapping_sub, is_stale, state_entry, add_entry, find_event, local_states, get_current_state,
}

-- `age` is the integer `z` in `i64`: it differs by a multiple of 2 ^ 64, so that it is `z` where that fits.
pub record Wraps (z age : ℤ) : Type 0 where
  pub from_min : i64_min ≤ℤ age
  pub to_max : age ≤ℤ i64_max
  pub same : (pos_part z + neg_part age) % 2 ^ 64 ≡ (pos_part age + neg_part z) % 2 ^ 64

as_i64-Wraps : (z : ℤ) → Wraps z (as_i64 (mod_u64 z))
unfolding as_i64
as_i64-Wraps (pos n) = record {
  from_min = ground arith;
  to_max = ground arith;
  same = ground arith;
}
as_i64-Wraps (negsuc n) = record {
  from_min = ground arith;
  to_max = ground arith;
  same = ground arith;
}

-- An entry is stale where there is a time to live and it is older than that.
abbrev pub Older : Option ℤ → ℤ → Type 0
Older none age = ⊥
Older (some ttl) age = ttl <ℤ age

-- The entry of a row for an event that comes from the rings or the store.
pub record EntryOf (now : ℤ) (d : ResolvedDescriptor) (event : Event) (cold_row : Bool)
    (e : CurrentStateEntry) : Type 0 where
  pub shown : e.event ≡ event
  pub described : e.descriptor ≡ d
  pub origin : e.from_cold ≡ cold_row
  pub aged : Wraps (now -ℤ event.ts_ms_utc) e.age_ms
  pub outdated : (e.stale ≡ true) ↔ Older d.freshness_ttl_ms e.age_ms

is_stale-iff_Older : (age : ℤ) (ttl : Option ℤ) → (is_stale age ttl ≡ true) ↔ Older ttl age
is_stale-iff_Older age none = (λ h. cc, λ h. absurd h)
is_stale-iff_Older age (some ttl) = (λ h. ground arith, λ h. ground arith)

state_entry-EntryOf :
    (now : ℤ) (d : ResolvedDescriptor) (event : Event) (b : Bool)
    → EntryOf now d event b (state_entry now d event b)
state_entry-EntryOf now d event b = record {
  shown = refl;
  described = refl;
  origin = refl;
  aged = as_i64-Wraps (now -ℤ event.ts_ms_utc);
  outdated = is_stale-iff_Older (wrapping_sub now event.ts_ms_utc) d.freshness_ttl_ms;
}

module _ (json : JsonCodec) (hot : HotRings) (store : Option ColdStore) (now : ℤ) where
  -- The row of `latest` in the cold store for a pair that the rings have no event of.
  pub record ColdRow (d : ResolvedDescriptor) (r : Row) : Type 0 where
    pub kept : ColdStore
    pub not_hot : latest hot d.source_id d.kind ≡ none
    pub stored : store ≡ some kept
    pub found : Append.latest kept d.source_id d.kind ≡ some r

  -- The latest event of a pair, and whether it is from the cold store.
  pub data Latest (d : ResolvedDescriptor) : Event → Bool → Type 0 where
    in_rings : {e : Event} → latest hot d.source_id d.kind ≡ some e → Latest d e false
    in_store : {e : Event} {r : Row} → ColdRow d r → row_to_event json r ≡ some e → Latest d e true

  -- A pair that neither has.
  abbrev pub Absent : ResolvedDescriptor → Type 0
  Absent d =
      (latest hot d.source_id d.kind ≡ none)
      × ((store ≡ none)
          ⊎ ((kept : ColdStore) × (store ≡ some kept)
              × (Append.latest kept d.source_id d.kind ≡ none)))

  abbrev pub Unreadable : ResolvedDescriptor → Type 0
  Unreadable d = (r : Row) × ColdRow d r × (row_to_event json r ≡ none)

  abbrev pub SomeUnreadable : List ResolvedDescriptor → Type 0
  SomeUnreadable [] = ⊥
  SomeUnreadable (d ∷ ds) = Unreadable d ⊎ SomeUnreadable ds

  -- An entry for each row whose pair has an event, in order, and none for another.
  pub data Reported : List ResolvedDescriptor → List CurrentStateEntry → Type 0 where
    done : Reported [] []
    reported :
        {d : ResolvedDescriptor} {ds : List ResolvedDescriptor} {event : Event} {b : Bool}
        {e : CurrentStateEntry} {es : List CurrentStateEntry}
        → Latest d event b
        → EntryOf now d event b e
        → Reported ds es
        → Reported (d ∷ ds) (e ∷ es)
    left_out :
        {d : ResolvedDescriptor} {ds : List ResolvedDescriptor} {es : List CurrentStateEntry}
        → Absent d
        → Reported ds es
        → Reported (d ∷ ds) es

  -- What becomes of one row.
  data Found (d : ResolvedDescriptor) : Result ToolError (Option (Event × Bool)) → Type 0 where
    there : {e : Event} {b : Bool} → Latest d e b → Found d (ok (some (e, b)))
    absent : Absent d → Found d (ok none)
    bad : Unreadable d → Found d (err cold)

  from_store-Found :
      (d : ResolvedDescriptor) (s : Option ColdStore)
      → latest hot d.source_id d.kind ≡ none
      → store ≡ s
      → Found d (from_store json s d)
  from_store-Found d none n s = Found.absent (n, inl s)
  from_store-Found d (some c) n s = elim (Option-cases (Append.latest c d.source_id d.kind)) [
    | inl a ↦ rw a (Found.absent (n, inr (c, s, a)))
    | inr (r, a) ↦
        let row : ColdRow d r = record { kept = c; not_hot = n; stored = s; found = a } in
        elim (Option-cases (row_to_event json r)) [
          | inl u ↦ rw a (rw (u, read_row) (Found.bad (r, row, u)))
          | inr (e, u) ↦ rw a (rw (u, read_row) (Found.there (Latest.in_store row u)))
        ]
  ]

  find_event-Found :
      (d : ResolvedDescriptor) → Found d (find_event json (latest hot d.source_id d.kind) store d)
  find_event-Found d = elim (Option-cases (latest hot d.source_id d.kind)) [
    | inr (e, h) ↦ rw h (Found.there (Latest.in_rings h))
    | inl n ↦ rw n (from_store-Found d store n refl)
  ]

  data States (ds : List ResolvedDescriptor)
      : Result ToolError (List CurrentStateEntry) → Type 0 where
    all_read : {es : List CurrentStateEntry} → Reported ds es → States ds (ok es)
    failed : SomeUnreadable ds → States ds (err cold)

  next-States :
      (d : ResolvedDescriptor) (ds : List ResolvedDescriptor)
      {m : Result ToolError (Option (Event × Bool))}
      {rest : Result ToolError (List CurrentStateEntry)}
      → Found d m
      → States ds rest
      → States (d ∷ ds) (m >>= λ found. rest >>= λ es. ok (add_entry json now d found es))
  next-States d ds (Found.there {e} {b} l) (States.all_read r) =
      States.all_read (Reported.reported l (state_entry-EntryOf now d e b) r)
  next-States d ds (Found.there l) (States.failed u) = States.failed (inr u)
  next-States d ds (Found.absent a) (States.all_read r) = States.all_read (Reported.left_out a r)
  next-States d ds (Found.absent a) (States.failed u) = States.failed (inr u)
  next-States d ds (Found.bad u) r = States.failed (inl u)

  local_states-States :
      (ds : List ResolvedDescriptor) → States ds (local_states json hot store now ds)
  unfolding local_states
  local_states-States [] = States.all_read Reported.done
  local_states-States (d ∷ ds) = next-States d ds (find_event-Found d) (local_states-States ds)

tag_local :
    (to_value : CurrentStateEntry → Value) (es : List CurrentStateEntry)
    → All2 (Tagged Value.null) (map to_value es) (map (λ e. local (to_value e)) es)
tag_local to_value [] = tt
tag_local to_value (e ∷ es) = (set_field-Tagged Value.null (to_value e), tag_local to_value es)

module _ (json : JsonCodec) (globs : Globs) (to_value : CurrentStateEntry → Value)
    (reply : PeerHandle → Reply) (now : ℤ) (registry : DescriptorRegistry) (hot : HotRings)
    (store : Option ColdStore) (peers : List PeerHandle) (args : FilterArgs) where
  -- How a call ends.
  pub data CurrentState : Result ToolError Answer → Type 0 where
    bad_glob :
        BadGlob globs args.source_filter ⊎ BadGlob globs args.kind_filter → CurrentState (err glob)
    unreadable :
        {rows : List ResolvedDescriptor}
        → Chosen globs registry.rows args.source_filter args.kind_filter rows
        → SomeUnreadable json hot store now rows
        → CurrentState (err cold)
    answered :
        {rows : List ResolvedDescriptor} {entries : List CurrentStateEntry}
        (locals remote : List Value) (statuses : List PeerStatus)
        → Chosen globs registry.rows args.source_filter args.kind_filter rows
        → Reported json hot store now rows entries
        → All2 (Tagged Value.null) (map to_value entries) locals
        → FanOut "states" reply peers remote statuses
        → CurrentState
            (ok (record { rows = locals ++ remote; peer_status = put_all peers statuses [] }))

  -- A call of `get_current_state` fails where a glob is not valid, or where a row that it needs of the cold
  -- store cannot be read. Else it answers, with an entry for each row that the globs allow and whose pair
  -- has an event: the latest in the rings or, marked so, that of the cold store; with its age modulo
  -- 2 ^ 64 as an `i64`, and stale exactly where the row has a time to live and the age is greater. The
  -- entries are tagged with null for a peer and their other fields kept. Behind them are, whatever becomes
  -- of the requests, the rows that the peers' replies give, in the order of the peers and tagged with
  -- their ids, and each peer has the status that its reply stands for.
  pub get_current_state-CurrentState :
      CurrentState (get_current_state json globs to_value reply now registry hot store peers args)
  unfolding get_current_state
  get_current_state-CurrentState =
      elim (filter_rows-cases globs registry args.source_filter args.kind_filter) [
        | inr (e, invalid) ↦ rw e (CurrentState.bad_glob invalid)
        | inl (rows, e, chosen) ↦ rw e (go (local_states-States json hot store now rows) chosen)
      ]
    where
      go :
          {rows : List ResolvedDescriptor} {m : Result ToolError (List CurrentStateEntry)}
          → States json hot store now rows m
          → Chosen globs registry.rows args.source_filter args.kind_filter rows
          → CurrentState (
              m >>= λ entries.
              ok (
                to_answer
                  (fan_out "states" reply peers (map (λ e. local (to_value e)) entries) [])))
      go (States.failed u) chosen = CurrentState.unreadable chosen u
      go (States.all_read {es} r) chosen =
          let (added, ss, h, f) =
            fan_out-FanOut "states" reply peers (map (λ e. local (to_value e)) es) [] in
          rw h (
            CurrentState.answered (map (λ e. local (to_value e)) es) added ss chosen r
              (tag_local to_value es) f)
