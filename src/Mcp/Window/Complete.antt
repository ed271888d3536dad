-- ===== src/Mcp/Window/Complete.antt =====
-- A client that follows the cursors of `get_window` from the first page on.
use percept.Prelude.{
  unwrap_or, ℕ, zero, suc, ◌+◌, ◌*◌, ◌^◌, ◌≤◌, ◌<◌, String, List, ◌++◌, Option, none, some, Bool,
  false, length, length-drop, length-take, take, drop, last?, min, leb, ◌≡◌, refl, ap, ◌∙◌, arith,
  Bool-cases, inl, inr, leb→le,
}
use mathlib.Core.Option
use percept.Prelude.Int.{lez}
use percept.Prelude.Eq.{list_eq, nat_eq, =?_refl}
use percept.Prelude.Result.{Result, ok, err}
use percept.Core.Event.{Event}
use percept.Store.Cold.Rows.{JsonCodec, Row}
use percept.Store.Cold.Append.{ColdStore}
use percept.Store.Cold.Append.Atomic.{Unique}
use percept.Store.Cold.Window.{Anchor, max_window_limit, to_events, query_window, select_window}
use percept.Store.Cold.Window.Paging.{ordered, page_size, select_window-first, select_window-next}
use percept.Store.Cold.Cursor.{Bytes, CursorCodec, decode}
use percept.Store.Cold.Cursor.RoundTrip.{decode-encode}
use percept.Mcp.Window.{
  GetWindowArgs, ToolError, Page, page_limit, window_filter, anchor_of_cursor, read_anchor,
  cursor_at, next_cursor, hash_of, page_of, get_window,
}
use percept.Mcp.Window.Pages.{
  last?-take-drop, take_all, last?-exists, anchor_of_event, to_events-take, to_events-drop,
  to_events-last, fuel_left, small_page, short_lt, short_all, page_join, min_again,
}

module _ (codec : CursorCodec) (like : String → String → Bool) (json : JsonCodec) where
  -- What a client does with an answer: it keeps the events, and with a cursor it asks again.
  abbrev pub go_on : (String → Option (List Event)) → Result ToolError Page → Option (List Event)
  go_on next (err _) = none
  go_on next (ok page) = elim page.cursor [
    | none ↦ some page.events
    | some c ↦ Option.map (page.events ++◌) (next c)
  ]

  -- At most `n` pages; nothing where an error comes or the last page is not reached.
  unfoldable pub follow : ℕ → ColdStore → GetWindowArgs → Option (List Event)
  follow zero store args = none
  follow (suc n) store args =
      go_on (λ c. follow n store (record args { cursor = some c }))
        (get_window codec like json (some store) args)

  -- Where the pages stand: the cursor leads to the page behind the first `k` rows.
  abbrev At : ColdStore → GetWindowArgs → ℕ → Type 0
  At store args k =
      (anchor : Option Anchor) × (read_anchor codec (hash_of codec args) args.cursor ≡ ok anchor)
      × (select_window like (window_filter args) anchor store.events
          ≡ take (page_limit args.limit) (drop k (ordered like (window_filter args) store.events)))

  read-cursor_at :
      (hash : Bytes) (e : Event)
      → anchor_of_cursor codec (decode codec (cursor_at codec hash e) hash)
        ≡ ok (some (anchor_of_event e))
  read-cursor_at hash e =
      rw (decode-encode codec (record { anchor = anchor_of_event e; filter_hash = hash }) hash)
        (rw (=?_refl hash) refl)

  next_cursor-full :
      (hash : Bytes) (m : ℕ) (page : List Event) (e : Event)
      → length page < 2 ^ 32
      → m ≤ length page
      → last? page ≡ some e
      → next_cursor codec hash m page ≡ some (cursor_at codec hash e)
  unfolding next_cursor
  next_cursor-full hash m page e small full last = rw last (ground arith)

  next_cursor-short :
      (hash : Bytes) (m : ℕ) (page : List Event)
      → length page < m
      → next_cursor codec hash m page ≡ none
  unfolding next_cursor
  next_cursor-short hash m page short = ground arith

  same_size : (args : GetWindowArgs) → page_size like (window_filter args) ≡ page_limit args.limit
  same_size args = min_again (unwrap_or args.limit max_window_limit) max_window_limit

  At-first : (store : ColdStore) (args : GetWindowArgs) → args.cursor ≡ none → At store args 0
  unfolding read_anchor
  At-first store args e = (
    none,
    rw e refl,
    select_window-first like (window_filter args) store.events
        ∙ ap (λ m. take m (ordered like (window_filter args) store.events)) (same_size args),
  )

  At-next :
      (store : ColdStore) (args : GetWindowArgs) (k : ℕ) (es : List Event) (e : Event)
      → Unique store.events
      → to_events like json (ordered like (window_filter args) store.events) ≡ some es
      → last? (take (page_limit args.limit) (drop k es)) ≡ some e
      → At store
          (record args { cursor = some (cursor_at codec (hash_of codec args) e) })
          (k + page_limit args.limit)
  unfolding read_anchor
  At-next store args k es e u h l =
      let rows : List Row = ordered like (window_filter args) store.events in
      let m : ℕ = page_limit args.limit in
      let (r, l', same) =
        to_events-last like json (take m (drop k rows)) (take m (drop k es)) e
          (to_events-take like json m (drop k rows) (drop k es)
            (to_events-drop like json k rows es h))
          l in
      (
        some (anchor_of_event e),
        read-cursor_at (hash_of codec args) e,
        rw same (
            select_window-next like (window_filter args) store.events (k + m) r u
              (last?-take-drop k m rows l')
            ∙ ap (λ w. take w (drop (k + m) rows)) (same_size args)),
      )

  -- The page at `k`, as `get_window` answers it.
  get_window-At :
      (store : ColdStore) (args : GetWindowArgs) (k : ℕ) (es : List Event)
      → lez args.end_ms args.start_ms ≡ false
      → to_events like json (ordered like (window_filter args) store.events) ≡ some es
      → At store args k
      → get_window codec like json (some store) args
        ≡ page_of codec like json args (some (take (page_limit args.limit) (drop k es)))
  unfolding get_window query_window
  get_window-At store args k es range h (anchor, a, s) =
      let rows : List Row = ordered like (window_filter args) store.events in
      rw (range, a)
        (rw s (
          rw
            (to_events-take like json (page_limit args.limit) (drop k rows) (drop k es)
              (to_events-drop like json k rows es h))
            refl))

  follow-At :
      (n : ℕ) (store : ColdStore) (args : GetWindowArgs) (k : ℕ) (es : List Event)
      → Unique store.events
      → lez args.end_ms args.start_ms ≡ false
      → 0 < page_limit args.limit
      → to_events like json (ordered like (window_filter args) store.events) ≡ some es
      → At store args k
      → length (drop k es) < n * page_limit args.limit
      → follow n store args ≡ some (drop k es)
  unfolding follow
  follow-At zero store args k es u range p h at l = absurd (omega arith)
  follow-At (suc n) store args k es u range p h at l =
      let m : ℕ = page_limit args.limit in
      let hash : Bytes = hash_of codec args in
      let page : List Event = take m (drop k es) in
      let size : length page ≡ min m (length (drop k es)) = length-take m (drop k es) in
      rw (get_window-At store args k es range h at) (elim (Bool-cases (leb m (length page))) [
        | inl full ↦
            let long : m ≤ length page = leb→le m (length page) full in
            let (e, last) = last?-exists page (omega arith) in
            let args' : GetWindowArgs = record args { cursor = some (cursor_at codec hash e) } in
            let rest : follow n store args' ≡ some (drop (k + m) es) =
              follow-At n store args' (k + m) es u range p h (At-next store args k es e u h last) (
                fuel_left n m k (length es) _ _ (length-drop k es) (length-drop (k + m) es)
                  (omega arith) l) in
            rw (next_cursor-full hash m page e (small_page args.limit _ _ size) long last)
              (rw rest (ap some (page_join m k es)))
        | inr short ↦
            rw (next_cursor-short hash m page (omega (arith, short_lt m _ short)))
              (ap some (take_all m (drop k es) (short_all m _ _ size (short_lt m _ short))))
      ])

  -- Where event ids are unique and all rows of the window can be read, a client that starts with no
  -- cursor and asks as long as there is one gets the events of the window, each once and in order, and
  -- comes to the last page: `n` pages are enough once they hold more events than the window has. The
  -- range must not be empty and the limit not be 0.
  pub follow_complete :
      (n : ℕ) (store : ColdStore) (args : GetWindowArgs) (es : List Event)
      → Unique store.events
      → lez args.end_ms args.start_ms ≡ false
      → 0 < page_limit args.limit
      → to_events like json (ordered like (window_filter args) store.events) ≡ some es
      → args.cursor ≡ none
      → length es < n * page_limit args.limit
      → follow n store args ≡ some es
  follow_complete n store args es u range p h c l =
      follow-At n store args 0 es u range p h (At-first store args c) l
