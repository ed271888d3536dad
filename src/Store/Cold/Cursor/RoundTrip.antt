-- ===== src/Store/Cold/Cursor/RoundTrip.antt =====
-- On `encode` and `decode` of crates/store/src/cold/cursor.rs.
use percept.Prelude.{if◌then◌else◌, Bool-cases, inl, inr, ◌≡◌, refl}
use percept.Prelude.Eq.{list_eq, nat_eq, ◌=?◌}
use percept.Prelude.Result.{ok, err}
use percept.Store.Cold.Cursor.{Bytes, Cursor, CursorCodec, filter_mismatch, encode, decode}

-- What was encoded is decoded to itself where the hash expected is its own, and is refused as made for
-- another filter where it is not.
pub decode-encode :
    (codec : CursorCodec) (c : Cursor) (expected : Bytes)
    → decode codec (encode codec c) expected
      ≡ (if c.filter_hash =? expected then ok c else err filter_mismatch)
unfolding decode encode
decode-encode codec c expected =
    rw
      (codec.read-write_base64
        (codec.write_cbor (record { p = ""; a = c.anchor; h = c.filter_hash })))
      (rw (codec.read-write_cbor c.anchor c.filter_hash)
        (elim (Bool-cases (c.filter_hash =? expected)) [ inl e ↦ rw e refl | inr e ↦ rw e refl ]))
