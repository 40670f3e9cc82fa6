-- ===== src/Protocol/Codec.antt =====
-- crates/snaca-channel-protocol/src/codec.rs: a message per line. `serde_json::to_vec` and `from_slice` are
-- the parameter `Serde`; the text of a JSON error is left out.
pub mod Framing
use mathlib.Core.List.{reverse}
use snaca.Base.{
  ℕ, Bool, true, false, ◌||◌, ◌&&◌, Option, none, some, List, [], ◌∷◌, ◌++◌, map, ◌≡◌, ◌==◌, leb,
  ltb, length, if◌then◌else◌,
}
use snaca.Core.Content.{Text}
use snaca.Llm.Lines.{split_lines, without_return}
use snaca.Protocol.JsonRpc.{JsonRpcMessage}

pub record Serde (V : Type 0) : Type 0 where
  pub to_vec : JsonRpcMessage V → Option Text
  pub from_slice : Text → Option (JsonRpcMessage V)

-- `CodecError` and `Ok`.
pub data Decoded (V : Type 0) : Type 0 where
  message : JsonRpcMessage V → Decoded V
  json empty_frame : Decoded V
  payload_too_large : ℕ → ℕ → Decoded V

abbrev pub default_max_frame_bytes : ℕ
default_max_frame_bytes = 8388608

-- `is_ascii_whitespace`: tab, newline, form feed, carriage return, space.
abbrev pub is_ascii_whitespace : ℕ → Bool
is_ascii_whitespace b = b == 9 || (b == 10 || (b == 12 || (b == 13 || b == 32)))

-- One of the two loops of `trim_whitespace`.
unfoldable pub trim_front : Text → Text
trim_front [] = []
trim_front (b ∷ t) = let rest = trim_front t in if is_ascii_whitespace b then rest else b ∷ t

abbrev pub trim_whitespace : Text → Text
trim_whitespace t = reverse (trim_front (reverse (trim_front t)))

abbrev pub push_newline : Option Text → Option Text
push_newline none = none
push_newline (some buf) = some (buf ++ 10 ∷ [])

abbrev pub parsed : {V : Type 0} → Option (JsonRpcMessage V) → Decoded V
parsed none = json
parsed (some m) = message m

module _ {V : Type 0} (serde : Serde V) where
  unfoldable pub encode : JsonRpcMessage V → Option Text
  encode value = push_newline (serde.to_vec value)

  unfoldable pub decode_with_limit : Text → ℕ → Decoded V
  unfolding trim_front
  decode_with_limit line limit =
      let trimmed = trim_whitespace line in
      if length trimmed == 0
      then empty_frame
      else if ltb limit (length trimmed)
      then payload_too_large (length trimmed) limit
      else parsed (serde.from_slice trimmed)

  abbrev pub decode : Text → Decoded V
  decode line = decode_with_limit line default_max_frame_bytes

  abbrev pub or_nothing : Option Text → Text
  or_nothing none = []
  or_nothing (some bytes) = bytes

  -- What `writer_task` of crates/snaca-channel-host/src/supervisor.rs writes for its messages: one that
  -- is not encoded is left out.
  unfoldable pub written : List (JsonRpcMessage V) → Text
  unfolding encode
  written [] = []
  written (m ∷ messages) = or_nothing (encode m) ++ written messages

-- The last line need not be ended.
abbrev last_line : Text → List Text
last_line [] = []
last_line (b ∷ t) = (b ∷ t) ∷ []

-- The lines of `AsyncBufReadExt::lines`, from which `reader_task` reads.
unfoldable pub lines_of : Text → List Text
unfolding split_lines
lines_of t = let (lines, rest) = split_lines t in map without_return lines ++ last_line rest
