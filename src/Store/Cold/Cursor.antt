-- ===== src/Store/Cold/Cursor.antt =====
-- crates/store/src/cold/cursor.rs: the cursor of a page and the hash of its filter. The crates for CBOR,
-- base64 and BLAKE3 are the parameter `codec`.
pub mod RoundTrip
pub mod Bytes
pub mod Filters
use percept.Prelude.{
  ℕ, zero, suc, ◌-◌, ◌/◌, ◌%◌, ◌^◌, String, Char, code, List, [], ◌∷◌, ◌++◌, Option, none, some,
  Bool, if◌then◌else◌, length, take, unwrap_or, ltb, leb, ◌≡◌, not,
}
use Prim.Native.String
use percept.Prelude.Int.{ℤ, as_u64}
use percept.Prelude.Eq.{list_eq, nat_eq, ◌=?◌}
use percept.Prelude.Sorting.{sort}
use percept.Prelude.Text.{str_le}
use percept.Prelude.Result.{Result, ok, err, ◌>>=◌}
use percept.Store.Cold.Window.{Anchor}

abbrev pub Bytes : Type 0
Bytes = List ℕ

pub record CursorPayload : Type 0 where
  pub p : String
  pub a : Anchor
  pub h : Bytes

pub record Cursor : Type 0 where
  pub anchor : Anchor
  pub filter_hash : Bytes

pub data CursorError : Type 0 where
  malformed filter_mismatch : CursorError

-- `ciborium` and `base64`, with that each reads what it wrote; the payloads that are written have no
-- partition. `as_bytes` is the UTF-8 of a text, which determines it.
pub record CursorCodec : Type 0 where
  pub write_cbor : CursorPayload → Bytes
  pub read_cbor : Bytes → Option CursorPayload
  pub write_base64 : Bytes → String
  pub read_base64 : String → Option Bytes
  pub blake3 : Bytes → Bytes
  pub as_bytes : String → Bytes
  pub read-write_cbor :
      (a : Anchor) (h : Bytes)
      → read_cbor (write_cbor (record { p = ""; a = a; h = h }))
        ≡ some (record { p = ""; a = a; h = h })
  pub read-write_base64 : (b : Bytes) → read_base64 (write_base64 b) ≡ some b
  pub as_bytes-inj : (s t : String) → as_bytes s ≡ as_bytes t → s ≡ t

-- `to_le_bytes` of an integer of `w` bytes.
unfoldable pub to_le_bytes : ℕ → ℕ → Bytes
to_le_bytes zero n = []
to_le_bytes (suc w) n = n % 2 ^ 8 ∷ to_le_bytes w (n / 2 ^ 8)

-- `u32::try_from(n).unwrap_or(u32::MAX).to_le_bytes()`.
unfoldable pub count_bytes : ℕ → Bytes
unfolding to_le_bytes
count_bytes n = to_le_bytes 4 (if ltb n (2 ^ 32) then n else 2 ^ 32 - 1)

module _ (codec : CursorCodec) where
  unfoldable pub encode : Cursor → String
  encode c =
      codec.write_base64 (codec.write_cbor (record { p = ""; a = c.anchor; h = c.filter_hash }))

  abbrev pub of_payload : Bytes → Option CursorPayload → Result CursorError Cursor
  of_payload expected none = err malformed
  of_payload expected (some payload) =
      if not (payload.h =? expected)
      then err filter_mismatch
      else ok (record { anchor = payload.a; filter_hash = payload.h })

  abbrev pub of_bytes : Bytes → Option Bytes → Result CursorError Cursor
  of_bytes expected none = err malformed
  of_bytes expected (some bytes) = of_payload expected (codec.read_cbor bytes)

  unfoldable pub decode : String → Bytes → Result CursorError Cursor
  decode s expected = of_bytes expected (codec.read_base64 s)

  -- The loop over the sorted names: the length of each, then its bytes.
  unfoldable pub name_bytes : List String → Bytes
  name_bytes [] = []
  name_bytes (s ∷ ss) =
      count_bytes (length (codec.as_bytes s)) ++ (codec.as_bytes s ++ name_bytes ss)

  unfoldable pub names_bytes : Option (List String) → Bytes
  unfolding name_bytes
  names_bytes filter =
      let names = sort str_le (unwrap_or filter []) in
      count_bytes (length names) ++ name_bytes names

  -- All that `filter_hash` gives to its hasher.
  unfoldable pub hash_input : ℤ → ℤ → Option (List String) → Option (List String) → ℕ → Bytes
  hash_input start_ms end_ms source_filter kind_filter limit =
      codec.as_bytes "percept-cursor-v1"
      ++ (to_le_bytes 8 (as_u64 start_ms)
          ++ (to_le_bytes 8 (as_u64 end_ms)
              ++ (to_le_bytes 4 limit ++ (names_bytes source_filter ++ names_bytes kind_filter))))

  unfoldable pub filter_hash : ℤ → ℤ → Option (List String) → Option (List String) → ℕ → Bytes
  filter_hash start_ms end_ms source_filter kind_filter limit =
      take 16 (codec.blake3 (hash_input start_ms end_ms source_filter kind_filter limit))
