-- ===== src/Mcp/Peer.antt =====
-- crates/percept/src/mcp/peer.rs and the fan-out of tools.rs: the calls to the peers, each with its
-- status, and the rows that they add.
pub mod Tagged
pub mod Given
use percept.Prelude.{
  ℕ, String, List, [], ◌∷◌, ◌++◌, Option, none, some, Bool, if◌then◌else◌, map, leb, ltb, ◌&&◌,
}
use percept.Prelude.Eq.{string_eq}
use percept.Prelude.Assoc.{insert}
use percept.Core.Json.{Value}
use percept.Store.Cold.Rows.{◌>>=◌}
use percept.Mcp.Values.{get, as_array, set_field}

pub record PeerHandle : Type 0 where
  pub id : String
  pub mcp_url : String
  pub token : String
  pub timeout : ℕ  -- a `Duration`, in milliseconds

-- The message of an error is left out but where the peer gave it.
pub data PeerStatus : Type 0 where
  ok timeout : PeerStatus
  error : Option Value → PeerStatus

-- What becomes of the request: it fails, it is not answered in time, or the answer has a status and a
-- body, which may be no JSON.
pub data Reply : Type 0 where
  failed elapsed : Reply
  answered : ℕ → Option Value → Reply

abbrev pub is_success : ℕ → Bool
is_success status = leb 200 status && ltb status 300

abbrev pub of_envelope : Value → Option Value → PeerStatus × Option Value
of_envelope envelope (some e) = (PeerStatus.error (some e), none)
of_envelope envelope none =
    (PeerStatus.ok, (get "result" envelope >>= λ r. get "structuredContent" r))

abbrev pub of_body : Option Value → PeerStatus × Option Value
of_body none = (PeerStatus.error none, none)
of_body (some envelope) = of_envelope envelope (get "error" envelope)

-- What `call_tool` makes of the reply.
unfoldable pub call_tool : Reply → PeerStatus × Option Value
unfolding get
call_tool Reply.failed = (PeerStatus.error none, none)
call_tool Reply.elapsed = (PeerStatus.timeout, none)
call_tool (Reply.answered status body) =
    if is_success status then of_body body else (PeerStatus.error none, none)

abbrev pub tag : String → Value → Value
tag peer_id entry = set_field "peer_id" (Value.string peer_id) entry

-- `v.get(key).and_then(Value::as_array)`: what is missing adds nothing.
abbrev pub tag_all : String → Option (List Value) → List Value
tag_all peer_id none = []
tag_all peer_id (some arr) = map (tag peer_id) arr

-- One round of the loop over the results: the rows that a peer adds.
unfoldable pub rows_of : String → String → PeerStatus × Option Value → List Value
unfolding as_array get set_field
rows_of key peer_id (PeerStatus.ok, some v) = tag_all peer_id (get key v >>= as_array)
rows_of key peer_id _ = []

-- `fan_out_*`: the rows of `key` are extended, and the statuses collected by peer. `reply` is what
-- becomes of the request to each peer; `join_all` gives the results in the order of the peers.
unfoldable pub fan_out :
    String
    → (PeerHandle → Reply)
    → List PeerHandle
    → List Value
    → List (String × PeerStatus)
    → List Value × List (String × PeerStatus)
fan_out key reply [] rows statuses = (rows, statuses)
fan_out key reply (p ∷ ps) rows statuses =
    let result = call_tool (reply p) in
    fan_out key reply ps (rows ++ rows_of key p.id result) (insert p.id result.0 statuses)
